-- ===== src/Purity/DedupRuns.antt =====
-- purity/deduplication.py: runs of calls.
use storage_appliance_archit.Base.{ℕ, List, [], ◌∷◌, String, refl, string_key}
use storage_appliance_archit.Base.Dict.{lookup}
use storage_appliance_archit.Purity.Wire.{Bytes}
use storage_appliance_archit.Purity.Tools.{Tools}
use storage_appliance_archit.Purity.Dedup.{
  DedupEngine, new_engine, register_block, dereference_block, clear,
}
use storage_appliance_archit.Purity.DedupSound.{
  IsSound, register_block-IsSound, dereference_block-IsSound,
}

pub data Call : Type 0 where
  register : Bytes → String → Call
  dereference : String → Call
  reset : Call

unfoldable pub step : Tools → DedupEngine → Call → DedupEngine
step tools m (register content id) = (register_block tools content id m).1
step tools m (dereference fp) = (dereference_block fp m).1
step tools m reset = (clear m).1

unfoldable pub run : Tools → DedupEngine → List Call → DedupEngine
unfolding step
run tools m [] = m
run tools m (c ∷ cs) = run tools (step tools m c) cs

pub empty-IsSound : (low high : ℕ) → IsSound (new_engine low high)
unfolding new_engine lookup
empty-IsSound low high = record { is_dict = tt; all = λ fp e q. cc; counted = refl; stored = refl }

clear-IsSound : (m : DedupEngine) → IsSound (clear m).1
unfolding clear lookup
clear-IsSound m = record { is_dict = tt; all = λ fp e q. cc; counted = refl; stored = refl }

run_from-IsSound :
    (tools : Tools) (m : DedupEngine) (cs : List Call) → IsSound m → IsSound (run tools m cs)
unfolding run step
run_from-IsSound tools m [] h = h
run_from-IsSound tools m (register content id ∷ cs) h =
    run_from-IsSound tools (step tools m (register content id)) cs
      (register_block-IsSound tools content id m h)
run_from-IsSound tools m (dereference fp ∷ cs) h =
    run_from-IsSound tools (step tools m (dereference fp)) cs (dereference_block-IsSound fp m h)
run_from-IsSound tools m (reset ∷ cs) h =
    run_from-IsSound tools (step tools m reset) cs (clear-IsSound m)

-- After every run of registrations, dereferences and clears from a new engine each entry is
-- referenced at least once and filed under its fingerprint, every registered block is counted as
-- unique or as a duplicate, and the bytes after deduplication are the sizes of the entries.
pub run_calls-IsSound :
    (tools : Tools) (low high : ℕ) (cs : List Call) → IsSound (run tools (new_engine low high) cs)
run_calls-IsSound tools low high cs =
    run_from-IsSound tools (new_engine low high) cs (empty-IsSound low high)
