-- ===== src/Purity/CompressionTrip.antt =====
-- purity/compression.py: decompression undoes compression, and where it does not.
use storage_appliance_archit.Base.{
  ◌+◌, ◌≤◌, ◌<◌, ◌≡◌, ◌≢◌, refl, ◌∙◌, some, ◌∷◌, ◌++◌, true, false, arith, ltb, length, drop,
  length-append, Bool-cases, inl, inr, ok,
}
use storage_appliance_archit.Purity.Wire.{Bytes, to_bytes_lem, four_bytes}
use storage_appliance_archit.Purity.Tools.{Tools, IsLossless}
use storage_appliance_archit.Purity.Compression.{
  CompressionAlgorithm, none_algorithm, lz4, zstd, CompressionEngine, CompressionResult,
  keep_if_smaller, compress, decompress, has_header, with_header, algorithm_byte, skipped_result,
  count_before, decompress_as,
}

-- What `compress` returns, and what `decompress` makes of it.
pub record Packed (tools : Tools) (content : Bytes) (e : CompressionEngine) : Type 0 where
  pub packed : Bytes
  pub result : CompressionResult
  pub after : CompressionEngine
  pub compressed : compress tools content e ≡ (ok (packed, result), after)
  pub restored : decompress tools packed ≡ ok content
  pub headed : has_header packed ≡ true

-- The packed form of a payload.
abbrev pub packed_form : CompressionAlgorithm → Bytes → Bytes → Bytes
packed_form a content payload = with_header a (four_bytes (length content)) payload

long_enough :
    (size payload : Bytes) → length size ≡ 4 → ltb (length (size ++ payload) + 1) 5 ≡ false
long_enough size payload e = ground (arith, length-append size payload)

module _ (tools : Tools) (content payload : Bytes) (a : CompressionAlgorithm) where
  -- With a header in front a payload is decompressed by the algorithm that the header names.
  pub decompress-packed_form :
      decompress tools (packed_form a content payload) ≡ decompress_as tools (some a) payload
  unfolding decompress algorithm_byte
  decompress-packed_form = by_algorithm a
    where
      by_algorithm :
          (c : CompressionAlgorithm)
          → decompress tools (packed_form c content payload) ≡ decompress_as tools (some c) payload
      by_algorithm none_algorithm = ground arith
      by_algorithm lz4 = ground arith
      by_algorithm zstd = ground arith

  pub has_header-packed_form : has_header (packed_form a content payload) ≡ true
  unfolding has_header algorithm_byte
  has_header-packed_form = by_algorithm a
    where
      by_algorithm : (c : CompressionAlgorithm) → has_header (packed_form c content payload) ≡ true
      by_algorithm none_algorithm = ground arith
      by_algorithm lz4 = ground arith
      by_algorithm zstd = ground arith

-- What `keep_if_smaller` returns for a payload that decompresses to the content.
pub record Kept (tools : Tools) (a : CompressionAlgorithm) (content payload : Bytes)
    (e : CompressionEngine) : Type 0 where
  pub packed : Bytes
  pub result : CompressionResult
  pub after : CompressionEngine
  pub compressed : keep_if_smaller tools a content payload e ≡ (ok (packed, result), after)
  pub restored : decompress tools packed ≡ ok content
  pub headed : has_header packed ≡ true

keep_if_smaller-Kept :
    (tools : Tools) (a : CompressionAlgorithm) (content payload : Bytes) (e : CompressionEngine)
    → decompress_as tools (some a) payload ≡ ok content
    → length content < 4294967296
    → Kept tools a content payload e
unfolding keep_if_smaller
keep_if_smaller-Kept tools a content payload e h small =
    elim (Bool-cases (tools.ratio_below_minimum (length content) (length payload))) [
      | inl t ↦ record {
        packed = packed_form none_algorithm content content;
        result = skipped_result (length content);
        after = (keep_if_smaller tools a content payload e).1;
        compressed = ground (arith, to_bytes_lem (length content) small);
        restored = decompress-packed_form tools content content none_algorithm;
        headed = has_header-packed_form tools content content none_algorithm;
      }
      | inr t ↦ record {
        packed = packed_form a content payload;
        result = record {
          original_size = length content;
          compressed_size = length payload;
          algorithm = a;
          was_compressed = true;
        };
        after = (keep_if_smaller tools a content payload e).1;
        compressed = ground (arith, to_bytes_lem (length content) small);
        restored = decompress-packed_form tools content payload a ∙ h;
        headed = has_header-packed_form tools content payload a;
      }
    ]

-- For an algorithm that compresses and content below 2 ^ 32 bytes, `decompress` gives back what
-- `compress` was given, whether the payload was kept or not, and the packed data has a header.
pub compress-Packed :
    (tools : Tools) (content : Bytes) (e : CompressionEngine)
    → IsLossless tools
    → e.algorithm ≢ none_algorithm
    → length content < 4294967296
    → Packed tools content e
compress-Packed tools content e h n small = by_algorithm e.algorithm refl
  where
    from_Kept :
        (a : CompressionAlgorithm) (payload : Bytes)
        → compress tools content e
          ≡ keep_if_smaller tools a content payload (count_before (length content) e)
        → Kept tools a content payload (count_before (length content) e)
        → Packed tools content e
    from_Kept a payload run k = record {
      packed = k.packed;
      result = k.result;
      after = k.after;
      compressed = run ∙ k.compressed;
      restored = k.restored;
      headed = k.headed;
    }

    by_algorithm : (a : CompressionAlgorithm) → e.algorithm ≡ a → Packed tools content e
    by_algorithm none_algorithm q = absurd (n q)
    by_algorithm lz4 q =
        from_Kept lz4 (tools.lz4_compress content) (unfold compress in ground arith) (
          keep_if_smaller-Kept tools lz4 content (tools.lz4_compress content)
            (count_before (length content) e) (h.lz4 content) small)
    by_algorithm zstd q =
        from_Kept zstd (tools.zstd_compress content) (unfold compress in ground arith) (
          keep_if_smaller-Kept tools zstd content (tools.zstd_compress content)
            (count_before (length content) e) (h.zstd content) small)

-- Configured with NONE, `compress` writes no header, and `decompress` cuts five bytes off data that
-- begins with a zero byte.
pub compress-none_loses :
    (tools : Tools) (bs : Bytes) (e : CompressionEngine)
    → e.algorithm ≡ none_algorithm
    → 4 ≤ length bs
    → (r : CompressionResult) × (after : CompressionEngine) × (compress tools (0 ∷ bs) e
        ≡ (ok (0 ∷ bs, r), after))
      × (decompress tools (0 ∷ bs) ≡ ok (drop 4 bs))
unfolding compress decompress
compress-none_loses tools bs e h n =
    (skipped_result (length (0 ∷ bs)), count_before (length (0 ∷ bs)) e, ground arith, ground arith)
