-- ===== src/Purity/Engine.antt =====
-- purity/engine.py. The engine keeps its three stages and the backend; the block id that uuid4 makes
-- is an argument. The lock of the engine is never taken, and calls run one after the other. The ratio
-- of a result is left out, a float that nothing reads.
use storage_appliance_archit.Base.{
  ℕ, ◌+◌, Option, none, some, Bool, true, false, ◌&&◌, ◌||◌, not, ◌==◌, String, length,
  if◌then◌else◌, Result, ok, Exec, pure, lift, gets, modify, ◌>>=◌, ◌>>◌,
}
use storage_appliance_archit.Base.Int.{ℤ, pos, ◌+ℤ◌, ◌-ℤ◌}
use storage_appliance_archit.Purity.Wire.{Bytes}
use storage_appliance_archit.Purity.Tools.{Tools}
use storage_appliance_archit.Purity.Pattern.{
  PatternRemoval, PatternResult, analyze, encode, decode, is_encoded,
}
use storage_appliance_archit.Purity.Dedup.{
  DedupEngine, DedupResult, check_duplicate, register_block, dereference_block,
}
use storage_appliance_archit.Purity.Compression.{
  CompressionEngine, CompressionResult, compress, decompress, has_header,
}
use storage_appliance_archit.Storage.Backend
use storage_appliance_archit.Storage.Backend.{FileBackend}

pub record ReductionResult : Type 0 where
  pub block_id : String
  pub original_size : ℕ
  pub stored_size : ℕ
  pub pattern_result : PatternResult
  pub dedupe_result : DedupResult
  pub compression_result : Option CompressionResult
  pub was_pattern_reduced : Bool
  pub was_deduplicated : Bool
  pub was_compressed : Bool

pub record ReductionStats : Type 0 where
  pub total_bytes_in : ℕ
  pub total_bytes_stored : ℕ
  pub pattern_bytes_saved : ℤ
  pub dedupe_bytes_saved : ℕ
  pub compression_bytes_saved : ℤ

pub record PurityEngine : Type 0 where
  pub pattern_removal_enabled : Bool
  pub dedupe_enabled : Bool
  pub compression_enabled : Bool
  pub backend : FileBackend
  pub pattern_removal : PatternRemoval
  pub deduplication : DedupEngine
  pub compression : CompressionEngine
  pub stats : ReductionStats

-- A call of each component's.
abbrev pub on_pattern : {A : Type 0} → Exec PatternRemoval A → Exec PurityEngine A
on_pattern call e = let (r, c) = call e.pattern_removal in (r, record e { pattern_removal = c })

abbrev pub on_dedup : {A : Type 0} → Exec DedupEngine A → Exec PurityEngine A
on_dedup call e = let (r, c) = call e.deduplication in (r, record e { deduplication = c })

abbrev pub on_compression : {A : Type 0} → Exec CompressionEngine A → Exec PurityEngine A
on_compression call e = let (r, c) = call e.compression in (r, record e { compression = c })

abbrev pub on_backend : {A : Type 0} → Exec FileBackend A → Exec PurityEngine A
on_backend call e = let (r, c) = call e.backend in (r, record e { backend = c })

abbrev pub returning : {S A : Type 0} → (S → A × S) → Exec S A
returning call s = let (a, s') = call s in (ok a, s')

abbrev pub count_in : ℕ → PurityEngine → PurityEngine
count_in n e = record e { stats = record e.stats { total_bytes_in = e.stats.total_bytes_in + n } }

abbrev pub count_stored : ℕ → PurityEngine → PurityEngine
count_stored n e = record e {
  stats = record e.stats { total_bytes_stored = e.stats.total_bytes_stored + n };
}

abbrev pub count_pattern : ℕ → ℕ → PurityEngine → PurityEngine
count_pattern before after e = record e {
  stats = record e.stats {
    pattern_bytes_saved = e.stats.pattern_bytes_saved +ℤ (pos before -ℤ pos after);
  };
}

abbrev pub count_deduped : ℕ → PurityEngine → PurityEngine
count_deduped n e = record e {
  stats = record e.stats { dedupe_bytes_saved = e.stats.dedupe_bytes_saved + n };
}

abbrev pub count_compressed : CompressionResult → PurityEngine → PurityEngine
count_compressed r e = record e {
  stats = record e.stats {
    compression_bytes_saved =
        e.stats.compression_bytes_saved +ℤ (pos r.original_size -ℤ pos r.compressed_size);
  };
}

-- Stage 1: the data as it goes on, and whether it is a pattern.
unfoldable pub remove_pattern : Bytes → PatternResult → Exec PurityEngine (Bytes × Bool)
unfolding encode
remove_pattern content result e =
    if e.pattern_removal_enabled && (result.is_zero_block || result.is_repeated_pattern)
    then (do
      coded ← on_pattern (encode content)
      (if coded.1 then modify (count_pattern (length content) (length coded.0)) else pure tt)
      pure coded)
        e
    else (ok (content, false), e)

-- `if was_compressed: self._stats.compression_bytes_saved += ...`
abbrev pub count_if_compressed : CompressionResult → Exec PurityEngine (Unit {0})
count_if_compressed r = if r.was_compressed then modify (count_compressed r) else pure tt

-- Stage 3: the data as it is stored.
unfoldable pub compress_block :
    Tools → Bytes → Bool → Exec PurityEngine (Bytes × Option CompressionResult)
unfolding compress
compress_block tools current was_pattern e =
    if e.compression_enabled && not was_pattern
    then (do
      packed ← on_compression (compress tools current)
      count_if_compressed packed.1
      pure (packed.0, some packed.1))
        e
    else (ok (current, none), e)

abbrev pub was_compressed_of : Option CompressionResult → Bool
was_compressed_of none = false
was_compressed_of (some r) = r.was_compressed

-- The branch for a duplicate of the stored block `id`.
unfoldable pub reference_block :
    Tools
    → Bytes
    → Bytes
    → PatternResult
    → DedupResult
    → Bool
    → String
    → Exec PurityEngine ReductionResult
unfolding register_block
reference_block tools content current pattern dedup was_pattern id = do
  on_dedup (register_block tools current id)
  modify (count_deduped (length current))
  modify (count_stored 0)
  pure (record {
    block_id = id;
    original_size = length content;
    stored_size = 0;
    pattern_result = pattern;
    dedupe_result = dedup;
    compression_result = none;
    was_pattern_reduced = was_pattern;
    was_deduplicated = true;
    was_compressed = false;
  })

-- The branch for a new block, stored under `id`.
unfoldable pub store_block :
    Tools
    → Bytes
    → Bytes
    → PatternResult
    → DedupResult
    → Bool
    → String
    → Exec PurityEngine ReductionResult
unfolding compress_block register_block Backend.write_block
store_block tools content current pattern dedup was_pattern id = do
  packed ← compress_block tools current was_pattern
  on_backend (Backend.write_block tools id packed.0)
  on_dedup (register_block tools content id)
  modify (count_stored (length packed.0))
  pure (record {
    block_id = id;
    original_size = length content;
    stored_size = length packed.0;
    pattern_result = pattern;
    dedupe_result = dedup;
    compression_result = packed.1;
    was_pattern_reduced = was_pattern;
    was_deduplicated = false;
    was_compressed = was_compressed_of packed.1;
  })

-- The existing block, where the data is a duplicate and deduplication is on.
abbrev pub duplicate_of : Bool → DedupResult → Option String
duplicate_of enabled dedup = if enabled && dedup.is_duplicate then dedup.existing_block_id else none

-- Stages 2 and 3.
unfoldable pub reduce_from :
    Tools
    → Bytes
    → PatternResult
    → String
    → Bytes × Bool
    → DedupResult
    → Exec PurityEngine ReductionResult
unfolding reference_block store_block
reduce_from tools content pattern id coded dedup e = elim (duplicate_of e.dedupe_enabled dedup) [
  | none ↦ store_block tools content coded.0 pattern dedup coded.1 id e
  | some existing ↦ reference_block tools content coded.0 pattern dedup coded.1 existing e
]

unfoldable pub reduce_and_store : Tools → Bytes → String → Exec PurityEngine ReductionResult
unfolding analyze remove_pattern check_duplicate reduce_from
reduce_and_store tools content id = do
  modify (count_in (length content))
  pattern ← on_pattern (returning (analyze content))
  coded ← remove_pattern content pattern
  dedup ← on_dedup (check_duplicate tools coded.0)
  reduce_from tools content pattern id coded dedup

-- `if self.compression.has_header(data): ...`
abbrev pub unpacked : Tools → Bytes → Result Bytes
unpacked tools stored = if has_header stored then decompress tools stored else ok stored

-- `if self.pattern_removal.is_encoded(data): ...`
abbrev pub decoded : PatternRemoval → Bytes → Result Bytes
decoded r current = if is_encoded current then decode r current none else ok current

unfoldable pub retrieve : Tools → String → Exec PurityEngine Bytes
unfolding Backend.read_block has_header decompress is_encoded decode
retrieve tools id = do
  stored ← on_backend (Backend.read_block id)
  current ← lift (unpacked tools stored)
  removal ← gets (λ e. e.pattern_removal)
  lift (decoded removal current)

-- `if ref_count == 0`
unfoldable pub delete_if_free : String → ℕ → Exec PurityEngine Bool
unfolding Backend.delete_block
delete_if_free id count = if count == 0 then on_backend (Backend.delete_block id) else pure false

unfoldable pub delete : String → String → Exec PurityEngine Bool
unfolding dereference_block delete_if_free
delete id fingerprint = do count ← on_dedup (dereference_block fingerprint); delete_if_free id count
