-- ===== src/Purity/DedupTests.antt =====
-- purity/deduplication.py: the theorems at inputs that meet their hypotheses.
use storage_appliance_archit.Base.{
  ℕ, ◌≡◌, refl, some, List, [], ◌∷◌, arith, ok, String, string_key, false,
}
use storage_appliance_archit.Purity.Wire.{Bytes}
use storage_appliance_archit.Purity.Tools.{Tools}
use storage_appliance_archit.Purity.Dedup.{DedupEngine, new_engine, chunk_data, chunks_from}
use storage_appliance_archit.Purity.DedupSound
use storage_appliance_archit.Purity.DedupSound.{IsSound, AllChunks, join}
use storage_appliance_archit.Purity.DedupRuns
use storage_appliance_archit.Purity.DedupRuns.{Call, register, dereference, run}

-- A hash that tells empty data from other data.
abbrev digest : Bytes → String
digest [] = "empty"
digest (b ∷ bs) = "data"

abbrev tools : Tools
tools = record {
  sha256 = digest;
  lz4_compress = λ bs. bs;
  lz4_decompress = λ bs. ok bs;
  zstd_compress = λ bs. bs;
  zstd_decompress = λ bs. ok bs;
  ratio_below_minimum = λ a b. false;
}

abbrev calls : List Call
calls = register (1 ∷ 2 ∷ []) "a" ∷ register (1 ∷ 2 ∷ []) "b" ∷ dereference "data" ∷ []

abbrev engine : DedupEngine
engine = run tools (new_engine 2 4) calls

run_calls-IsSound_example : IsSound engine
run_calls-IsSound_example = DedupRuns.run_calls-IsSound tools 2 4 calls

chunk_data-AllChunks_example :
    (cs : List (ℕ × Bytes)) × (chunk_data (new_engine 2 4) (7 ∷ 8 ∷ 9 ∷ []) ≡ some cs)
    × AllChunks (new_engine 2 4).min_block_size 0 cs
    × (join cs ≡ 7 ∷ 8 ∷ 9 ∷ [])
unfolding new_engine
chunk_data-AllChunks_example =
    DedupSound.chunk_data-AllChunks (new_engine 2 4) (7 ∷ 8 ∷ 9 ∷ []) (omega arith)

two_chunks :
    chunk_data (new_engine 2 4) (7 ∷ 8 ∷ 9 ∷ []) ≡ some ((0, 7 ∷ 8 ∷ []) ∷ (2, 9 ∷ []) ∷ [])
unfolding new_engine chunk_data chunks_from
two_chunks = refl
