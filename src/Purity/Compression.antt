-- ===== src/Purity/Compression.antt =====
-- purity/compression.py. A header of five bytes stands before the payload: the algorithm and the
-- original size.
use storage_appliance_archit.Base.{
  ℕ, ◌+◌, Option, none, some, [], ◌∷◌, ◌++◌, Bool, true, false, ◌==◌, ltb, if◌then◌else◌, length,
  drop, Result, ok, Exec, pure, lift, modify, ◌>>=◌, ◌>>◌,
}
use storage_appliance_archit.Purity.Wire.{Bytes, to_bytes}
use storage_appliance_archit.Purity.Tools.{Tools}

pub data CompressionAlgorithm : Type 0 where
  none_algorithm lz4 zstd : CompressionAlgorithm

-- The ratio is kept as the two sizes.
pub record CompressionResult : Type 0 where
  pub original_size : ℕ
  pub compressed_size : ℕ
  pub algorithm : CompressionAlgorithm
  pub was_compressed : Bool

pub record CompressionStats : Type 0 where
  pub blocks_compressed : ℕ
  pub blocks_skipped : ℕ
  pub bytes_before : ℕ
  pub bytes_after : ℕ

pub record CompressionEngine : Type 0 where
  pub algorithm : CompressionAlgorithm
  pub stats : CompressionStats

-- `ALGORITHM_BYTES`
unfoldable pub algorithm_byte : CompressionAlgorithm → ℕ
algorithm_byte none_algorithm = 0
algorithm_byte lz4 = 1
algorithm_byte zstd = 2

-- `BYTES_TO_ALGORITHM.get(b)`
unfoldable pub byte_algorithm : ℕ → Option CompressionAlgorithm
byte_algorithm b =
    if b == 0
    then some none_algorithm
    else if b == 1
    then some lz4
    else if b == 2
    then some zstd
    else none

abbrev pub count_before : ℕ → CompressionEngine → CompressionEngine
count_before n e = record e { stats = record e.stats { bytes_before = e.stats.bytes_before + n } }

abbrev pub count_skipped : ℕ → CompressionEngine → CompressionEngine
count_skipped n e = record e {
  stats = record e.stats {
    blocks_skipped = e.stats.blocks_skipped + 1;
    bytes_after = e.stats.bytes_after + n;
  };
}

abbrev pub count_compressed : ℕ → CompressionEngine → CompressionEngine
count_compressed n e = record e {
  stats = record e.stats {
    blocks_compressed = e.stats.blocks_compressed + 1;
    bytes_after = e.stats.bytes_after + n;
  };
}

abbrev pub skipped_result : ℕ → CompressionResult
skipped_result n = record {
  original_size = n;
  compressed_size = n;
  algorithm = none_algorithm;
  was_compressed = false;
}

abbrev pub with_header : CompressionAlgorithm → Bytes → Bytes → Bytes
with_header algorithm size payload = algorithm_byte algorithm ∷ (size ++ payload)

-- The part of `compress` after the codec: the payload is kept if it is small enough.
unfoldable pub keep_if_smaller :
    Tools
    → CompressionAlgorithm
    → Bytes
    → Bytes
    → Exec CompressionEngine (Bytes × CompressionResult)
unfolding to_bytes algorithm_byte
keep_if_smaller tools algorithm content compressed =
    if tools.ratio_below_minimum (length content) (length compressed)
    then (do
      modify (count_skipped (length content))
      size ← lift (to_bytes (length content))
      pure (with_header none_algorithm size content, skipped_result (length content)))
    else do
      modify (count_compressed (length compressed))
      size ← lift (to_bytes (length content))
      pure (
        with_header algorithm size compressed,
        record {
          original_size = length content;
          compressed_size = length compressed;
          algorithm = algorithm;
          was_compressed = true;
        },
      )

unfoldable pub compress : Tools → Bytes → Exec CompressionEngine (Bytes × CompressionResult)
unfolding keep_if_smaller
compress tools content e = elim e.algorithm [
  | none_algorithm ↦
      (ok (content, skipped_result (length content)), count_before (length content) e)
  | lz4 ↦
      keep_if_smaller tools lz4 content (tools.lz4_compress content)
        (count_before (length content) e)
  | zstd ↦
      keep_if_smaller tools zstd content (tools.zstd_compress content)
        (count_before (length content) e)
]

-- `data[5:]` decompressed as the algorithm byte says; an unknown byte counts as NONE.
abbrev pub decompress_as : Tools → Option CompressionAlgorithm → Bytes → Result Bytes
decompress_as tools none payload = ok payload
decompress_as tools (some none_algorithm) payload = ok payload
decompress_as tools (some lz4) payload = tools.lz4_decompress payload
decompress_as tools (some zstd) payload = tools.zstd_decompress payload

unfoldable pub decompress : Tools → Bytes → Result Bytes
unfolding byte_algorithm
decompress tools [] = ok []
decompress tools (b ∷ bs) =
    if ltb (length (b ∷ bs)) 5
    then ok (b ∷ bs)
    else decompress_as tools (byte_algorithm b) (drop 4 bs)

unfoldable pub has_header : Bytes → Bool
unfolding byte_algorithm
has_header [] = false
has_header (b ∷ bs) =
    if ltb (length (b ∷ bs)) 5
    then false
    else elim (byte_algorithm b) [ none ↦ false | some _ ↦ true ]

abbrev pub compresses : Option CompressionAlgorithm → Bool
compresses none = false
compresses (some none_algorithm) = false
compresses (some _) = true

unfoldable pub is_compressed : Bytes → Bool
unfolding byte_algorithm
is_compressed [] = false
is_compressed (b ∷ bs) = if ltb (length (b ∷ bs)) 5 then false else compresses (byte_algorithm b)
