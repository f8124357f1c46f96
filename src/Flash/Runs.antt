-- ===== src/Flash/Runs.antt =====
-- directflash/simulator.py: runs of the simulator. A run is a sequence of calls, with rounds of
-- the background collection and its start and stop anywhere between them.
use storage_appliance_archit.Base.{
  nat_key, ℕ, ◌≡◌, ◌≢◌, ◌∙◌, sym, subst, ite, none, some, List, [], ◌∷◌, arith, ok, raise, Result,
  Bool-cases, inl, inr, ltb,
}
use storage_appliance_archit.Flash.Block.{Bytes}
use storage_appliance_archit.Flash.View.{view}
use storage_appliance_archit.Flash.Write.{seen}
use storage_appliance_archit.Flash.Erase.{is_some, read_block-seen, delete_block-Deleted}
use storage_appliance_archit.Flash.State.{Flash}
use storage_appliance_archit.Flash.Collector.{
  run_gc_cycle, background_round, start_background_gc, stop_background_gc,
}
use storage_appliance_archit.Flash.Leveler.{run_leveling_pass}
use storage_appliance_archit.Flash.Simulator.{write, read, delete}
use storage_appliance_archit.Flash.Steady.{
  Steady, IsSteady, IsSteady-gets, run_gc_cycle-IsSteady, background_round-IsSteady,
}
use storage_appliance_archit.Flash.Leveling.{run_leveling_pass-ends}
use storage_appliance_archit.Flash.Ready.{IsReady, Wrote, contents, write-refines}

Steady-IsReady : (s t : Flash) → IsReady s → Steady s t → IsReady t
Steady-IsReady s t h k = record {
  sound = k.sound;
  unused = λ a l. k.seen_after a ∙ h.unused a (omega (arith, k.same_next));
  some_blocks = ground (arith, k.same_totals, h.some_blocks);
  some_counted = ground (arith, k.same_totals, h.some_counted);
}

-- From a ready state `read` returns the contents at the address, and the contents stay.
pub read-refines :
    (la : ℕ) (s : Flash)
    → IsReady s
    → (t : Flash) × (read la s ≡ (ok (contents s la), t))
      × IsReady t
      × ((a : ℕ) → contents t a ≡ contents s a)
unfolding read
read-refines la s h =
    let (m, run, sound, e₁, e₂, e₃, e₄) = read_block-seen la s.manager h.sound in
    let same : (a : ℕ) → seen m a ≡ contents s a = λ a. unfold view in ground arith in
    (
      record s { manager = m },
      ground arith,
      record {
        sound = sound;
        unused = λ a l. same a ∙ h.unused a l;
        some_blocks = ground (arith, h.some_blocks);
        some_counted = ground (arith, h.some_counted);
      },
      same,
    )

-- From a ready state `delete` reports whether the address had contents, and removes those alone.
pub delete-refines :
    (la : ℕ) (s : Flash)
    → IsReady s
    → (t : Flash) × (delete la s ≡ (ok (is_some (contents s la)), t))
      × IsReady t
      × ((a : ℕ) → contents t a ≡ ite (nat_key.dec la a) none (contents s a))
unfolding delete
delete-refines la s h =
    let (m, run, d) = delete_block-Deleted la s.manager h.sound in
    (
      record s { manager = m },
      ground arith,
      record {
        sound = d.sound;
        unused = λ a l. ground (arith, d.seen_after a, h.unused a l);
        some_blocks = ground (arith, d.same_totals, h.some_blocks);
        some_counted = ground (arith, d.same_totals, h.some_counted);
      },
      d.seen_after,
    )

-- The calls of a run. `on` of another method is one of these: `trim` is `delete`, `force_gc` is
-- `collect`, `force_wear_leveling` is `level`.
pub data Call : Type 0 where
  put : Bytes → Call
  get remove : ℕ → Call
  collect level tick start stop : Call

-- The state after a call, whether it returned or raised.
unfoldable pub step : Flash → Call → Flash
step s (put content) = (write content s).1
step s (get la) = (read la s).1
step s (remove la) = (delete la s).1
step s collect = (run_gc_cycle s).1
step s level = (run_leveling_pass s).1
step s tick = (background_round s).1
step s start = (start_background_gc s).1
step s stop = (stop_background_gc s).1

unfoldable pub run : Flash → List Call → Flash
unfolding step
run s [] = s
run s (c ∷ cs) = run (step s c) cs

start-Steady : IsSteady start_background_gc
unfolding start_background_gc
start-Steady = IsSteady-gets start_background_gc (λ s. (ground arith, ground arith))

-- Every call keeps the invariant.
pub step-IsReady : (s : Flash) (c : Call) → IsReady s → IsReady (step s c)
unfolding step stop_background_gc
step-IsReady s (put content) h = (write-refines content s h).0
step-IsReady s (get la) h =
    let (t, e, ready, same) = read-refines la s h in subst (λ o. IsReady o.1) (sym e) ready
step-IsReady s (remove la) h =
    let (t, e, ready, same) = delete-refines la s h in subst (λ o. IsReady o.1) (sym e) ready
step-IsReady s collect h = Steady-IsReady s (run_gc_cycle s).1 h (run_gc_cycle-IsSteady s h.sound)
step-IsReady s level h =
    Steady-IsReady s (run_leveling_pass s).1 h (run_leveling_pass-ends s h.sound).0
step-IsReady s tick h =
    Steady-IsReady s (background_round s).1 h (background_round-IsSteady s h.sound)
step-IsReady s start h = Steady-IsReady s (start_background_gc s).1 h (start-Steady s h.sound)
step-IsReady s stop h = record {
  sound = h.sound;
  unused = h.unused;
  some_blocks = h.some_blocks;
  some_counted = h.some_counted;
}

-- Every run from a ready state ends in a ready state.
pub run-IsReady : (s : Flash) (cs : List Call) → IsReady s → IsReady (run s cs)
unfolding run
run-IsReady s [] h = h
run-IsReady s (c ∷ cs) h = run-IsReady (step s c) cs (step-IsReady s c h)

-- A call that neither writes nor deletes the address.
abbrev pub Spares : ℕ → Call → Type 0
Spares la (remove a) = a ≢ la
Spares la _ = Unit

abbrev pub AllSpare : ℕ → List Call → Type 0
AllSpare la [] = Unit
AllSpare la (c ∷ cs) = Spares la c × AllSpare la cs

write-keeps :
    (la : ℕ) (c : Bytes) (s : Flash) (o : Result ℕ × Flash) (content : Bytes)
    → IsReady s
    → contents s la ≡ some c
    → Wrote content s o
    → contents o.1 la ≡ some c
write-keeps la c s (ok a, t) content h e w = elim (Bool-cases (ltb la s.next_logical_address)) [
  | inl low ↦ ground (arith, w, w.1 la)
  | inr high ↦ absurd (ground (arith, h.unused la))
]
write-keeps la c s (raise x, t) content h e w = w la ∙ e

-- A call that spares an address keeps what it reads.
step-keeps :
    (la : ℕ) (c : Bytes) (s : Flash) (x : Call)
    → IsReady s
    → contents s la ≡ some c
    → Spares la x
    → contents (step s x) la ≡ some c
unfolding step stop_background_gc
step-keeps la c s (put content) h e k =
    write-keeps la c s (write content s) content h e (write-refines content s h).1
step-keeps la c s (get a) h e k =
    let (t, run, ready, same) = read-refines a s h in
    subst (λ o. contents o.1 la ≡ some c) (sym run) (same la ∙ e)
step-keeps la c s (remove a) h e k =
    let (t, run, ready, same) = delete-refines a s h in
    subst (λ o. contents o.1 la ≡ some c) (sym run) (ground (arith, same la))
step-keeps la c s collect h e k = (run_gc_cycle-IsSteady s h.sound).seen_after la ∙ e
step-keeps la c s level h e k = (run_leveling_pass-ends s h.sound).0.seen_after la ∙ e
step-keeps la c s tick h e k = (background_round-IsSteady s h.sound).seen_after la ∙ e
step-keeps la c s start h e k = (start-Steady s h.sound).seen_after la ∙ e
step-keeps la c s stop h e k = e

-- What an address reads in a ready state survives every run that does not delete it: other
-- writes, whether they succeed or fail, deletions of other addresses, collections and wear
-- leveling in any order.
pub run-keeps :
    (la : ℕ) (c : Bytes) (s : Flash) (cs : List Call)
    → IsReady s
    → contents s la ≡ some c
    → AllSpare la cs
    → contents (run s cs) la ≡ some c
unfolding run
run-keeps la c s [] h e k = e
run-keeps la c s (x ∷ cs) h e (k, ks) =
    run-keeps la c (step s x) cs (step-IsReady s x h) (step-keeps la c s x h e k) ks
