-- ===== src/Purity/Samples.antt =====
-- purity/engine.py: a small engine, and a digest that tells all data apart, for tests.
use storage_appliance_archit.Base.{
  ℕ, zero, suc, ◌≡◌, ◌≢◌, refl, ap, sym, true, [], ◌∷◌, String, string_key, arith,
}
use Prim.Native.Char.{code}
use storage_appliance_archit.Base.Int.{pos}
use storage_appliance_archit.Purity.Wire.{Bytes}
use storage_appliance_archit.Purity.Tools.{Tools, IsLossless}
use storage_appliance_archit.Purity.Tests.{wrapping, removal, engine_of}
use storage_appliance_archit.Purity.Pattern.{is_encoded}
use storage_appliance_archit.Purity.Compression.{lz4}
use storage_appliance_archit.Purity.Wire.{starts_with, same_bytes, all_equal}
use storage_appliance_archit.Purity.Dedup.{new_engine}
use storage_appliance_archit.Purity.DedupRuns
use storage_appliance_archit.Base.Dict.{lookup}
use storage_appliance_archit.Purity.Engine.{PurityEngine}
use storage_appliance_archit.Purity.EngineStages.{IsPlain}
use storage_appliance_archit.Purity.EngineTrip.{IsSound}
use storage_appliance_archit.Storage.Backend.{new_backend}
use storage_appliance_archit.Storage.BackendSound.{new_backend-IsSound}

abbrev pub tally : ℕ → String → String
tally zero s = String.◌∷◌ "b" s
tally (suc n) s = String.◌∷◌ "a" (tally n s)

abbrev pub digest : Bytes → String
digest [] = ""
digest (b ∷ bs) = tally b (digest bs)

abbrev pub first_code : String → ℕ
first_code String.[] = 0
first_code (String.◌∷◌ c s) = code c

tally-injective : (m n : ℕ) (s t : String) → tally m s ≡ tally n t → (m ≡ n) × (s ≡ t)
tally-injective zero zero s t e = ground arith
tally-injective zero (suc n) s t e = absurd (let c : 98 ≡ 97 = ap first_code e in omega arith)
tally-injective (suc m) zero s t e = absurd (let c : 97 ≡ 98 = ap first_code e in omega arith)
tally-injective (suc m) (suc n) s t e =
    let same : tally m s ≡ tally n t = ground arith in
    let (p, q) = tally-injective m n s t same in (ap suc p, q)

tally-nonempty : (n : ℕ) (s : String) → tally n s ≢ ""
tally-nonempty zero s e = different (ap first_code e)
  where
    different : suc 97 ≡ 0 → ⊥
    different c = omega arith
tally-nonempty (suc n) s e = different (ap first_code e)
  where
    different : suc 96 ≡ 0 → ⊥
    different c = omega arith

pub digest-injective : (a b : Bytes) → digest a ≡ digest b → a ≡ b
digest-injective [] [] e = refl
digest-injective [] (c ∷ b) e = absurd (tally-nonempty c (digest b) (sym e))
digest-injective (c ∷ a) [] e = absurd (tally-nonempty c (digest a) e)
digest-injective (c ∷ a) (d ∷ b) e =
    let (p, q) = tally-injective c d (digest a) (digest b) e in
    let rest = digest-injective a b q in cc

abbrev pub tools : Tools
tools = record wrapping { sha256 = digest }

pub tools-IsLossless : IsLossless tools
tools-IsLossless = record { lz4 = λ bs. refl; zstd = λ bs. refl }

abbrev pub empty : PurityEngine
empty = record {
  pattern_removal_enabled = true;
  dedupe_enabled = true;
  compression_enabled = true;
  backend = new_backend;
  pattern_removal = removal;
  deduplication = new_engine 4 8;
  compression = engine_of lz4;
  stats = record {
    total_bytes_in = 0;
    total_bytes_stored = 0;
    pattern_bytes_saved = pos 0;
    dedupe_bytes_saved = 0;
    compression_bytes_saved = pos 0;
  };
}

-- What the tests compute with.
program : Unit {0}
unfolding is_encoded starts_with same_bytes all_equal
program = tt

pub empty-IsSound : IsSound tools empty
unfolding new_engine lookup
empty-IsSound = record {
  backend = new_backend-IsSound tools;
  dedup = DedupRuns.empty-IsSound 4 8;
  compressing = refl;
  codec = λ e. cc;
  entries = λ fp v e. absurd (ground arith);
}

abbrev pub first_data : Bytes
first_data = 7 ∷ 8 ∷ 9 ∷ []

pub first_data-IsPlain : IsPlain removal first_data
unfolding program
first_data-IsPlain = record {
  not_encoded = refl;
  small = omega arith;
  zeros = λ e. absurd (ground arith);
}

pub a_not_b : ◌≢◌ {A = String} "a" "b"
a_not_b e = different (ap first_code e)
  where
    different : suc 96 ≡ 98 → ⊥
    different c = omega arith
