-- ===== src/Purity/EngineStages.antt =====
-- purity/engine.py: the stages of `reduce_and_store` one by one, and what a stored block reads.
use storage_appliance_archit.Base.{
  ◌<◌, ◌≡◌, ◌≢◌, refl, ◌∙◌, ap, sym, Option, none, some, [], ◌∷◌, Bool, true, false, ◌&&◌, ◌||◌,
  arith, length, Bool-cases, inl, inr, Result, ok,
}
use storage_appliance_archit.Purity.Wire.{Bytes, all_equal, starts_with, same_bytes}
use storage_appliance_archit.Purity.Tools.{Tools, IsLossless}
use storage_appliance_archit.Purity.Pattern.{
  PatternRemoval, PatternResult, analyze, encode, encode_as, encode_pattern, decode, is_encoded,
}
use storage_appliance_archit.Purity.PatternTrip.{encode-Coded}
use storage_appliance_archit.Purity.Compression.{
  CompressionEngine, CompressionResult, none_algorithm, compress, keep_if_smaller, has_header,
  byte_algorithm,
}
use storage_appliance_archit.Purity.CompressionTrip.{compress-Packed}
use storage_appliance_archit.Purity.Engine.{
  PurityEngine, remove_pattern, compress_block, count_pattern, count_compressed, unpacked, decoded,
}

-- The data that the pipeline gives back under the settings: it does not look like a marker, a length
-- of it fits four bytes, and a block of zeros has the block size.
pub record IsPlain (r : PatternRemoval) (content : Bytes) : Type 0 where
  pub not_encoded : is_encoded content ≡ false
  pub small : length content < 4294967296
  pub zeros : all_equal 0 content ≡ true → r.min_block_size ≡ length content

-- A marker is never taken for a compression header.
pub is_encoded-has_header : (code : Bytes) → is_encoded code ≡ true → has_header code ≡ false
unfolding is_encoded has_header starts_with same_bytes byte_algorithm
is_encoded-has_header [] h = refl
is_encoded-has_header (b ∷ bs) h = ground arith

pub decode-same :
    (r q : PatternRemoval) (code : Bytes)
    → r.min_block_size ≡ q.min_block_size
    → decode r code none ≡ decode q code none
unfolding decode
decode-same r q code e = ground arith

pub analyze-min_block_size :
    (content : Bytes) (r : PatternRemoval) → (analyze content r).1.min_block_size ≡ r.min_block_size
unfolding analyze
analyze-min_block_size [] r = refl
analyze-min_block_size (b ∷ bs) r = ground arith

pub encode-min_block_size :
    (content : Bytes) (r : PatternRemoval) → (encode content r).1.min_block_size ≡ r.min_block_size
unfolding encode encode_as encode_pattern
encode-min_block_size content r = ground (arith, analyze-min_block_size content r)

-- What stage 1 hands on: the data itself or a code for it.
pub record Handed (e : PurityEngine) (content : Bytes) (pattern : PatternResult) : Type 0 where
  pub code : Bytes
  pub was_pattern : Bool
  pub removal : PatternRemoval
  pub after : PurityEngine
  pub ran : remove_pattern content pattern e ≡ (ok (code, was_pattern), after)
  pub marked : is_encoded code ≡ was_pattern
  pub decodes : decoded removal code ≡ ok content
  pub same_size : after.pattern_removal.min_block_size ≡ e.pattern_removal.min_block_size
  pub same_removal : after.pattern_removal ≡ removal
  pub same_backend : after.backend ≡ e.backend
  pub same_dedup : after.deduplication ≡ e.deduplication
  pub same_compression : after.compression ≡ e.compression
  pub same_flags :
      (after.dedupe_enabled ≡ e.dedupe_enabled)
      × (after.compression_enabled ≡ e.compression_enabled)

-- A code that is no marker decodes to itself.
decoded_of :
    (r : PatternRemoval) (code content : Bytes)
    → decode r code none ≡ ok content
    → decoded r code ≡ ok content
unfolding decode is_encoded
decoded_of r code content h = ground arith

pub remove_pattern-Handed :
    (content : Bytes) (pattern : PatternResult) (e : PurityEngine)
    → IsPlain e.pattern_removal content
    → Handed e content pattern
unfolding remove_pattern
remove_pattern-Handed content pattern e h =
    elim (Bool-cases
      (e.pattern_removal_enabled && (pattern.is_zero_block || pattern.is_repeated_pattern))) [
        | inr t ↦ record {
          code = content;
          was_pattern = false;
          removal = e.pattern_removal;
          after = e;
          ran = ground arith;
          marked = h.not_encoded;
          decodes = let n = h.not_encoded in ground arith;
          same_size = refl;
          same_removal = refl;
          same_backend = refl;
          same_dedup = refl;
          same_compression = refl;
          same_flags = (refl, refl);
        }
        | inl t ↦
            let c =
              encode-Coded content none e.pattern_removal h.not_encoded h.zeros
                (λ b z k. h.small) in
            let size =
              ap (λ (o : Result (Bytes × Bool) × PatternRemoval). o.1.min_block_size) c.encoded in
            let kept = sym size ∙ encode-min_block_size content e.pattern_removal in
            let back : decoded c.after c.code ≡ ok content =
              decoded_of c.after c.code content c.decoded in
            let start = record e { pattern_removal = c.after } in
            elim (Bool-cases c.reduced) [
              | inl q ↦ record {
                code = c.code;
                was_pattern = c.reduced;
                removal = c.after;
                after = count_pattern (length content) (length c.code) start;
                ran = ground (arith, c.encoded);
                marked = c.marked;
                decodes = back;
                same_size = kept;
                same_removal = refl;
                same_backend = refl;
                same_dedup = refl;
                same_compression = refl;
                same_flags = (refl, refl);
              }
              | inr q ↦ record {
                code = c.code;
                was_pattern = c.reduced;
                removal = c.after;
                after = start;
                ran = ground (arith, c.encoded);
                marked = c.marked;
                decodes = back;
                same_size = kept;
                same_removal = refl;
                same_backend = refl;
                same_dedup = refl;
                same_compression = refl;
                same_flags = (refl, refl);
              }
            ]
      ]

-- What stage 3 stores: data that unpacks to what it was given.
pub record Stowed (tools : Tools) (e : PurityEngine) (current : Bytes) (was_pattern : Bool)
    : Type 0 where
  pub packed : Bytes
  pub result : Option CompressionResult
  pub after : PurityEngine
  pub ran : compress_block tools current was_pattern e ≡ (ok (packed, result), after)
  pub unpacks : unpacked tools packed ≡ ok current
  pub same_pattern : after.pattern_removal ≡ e.pattern_removal
  pub same_backend : after.backend ≡ e.backend
  pub same_dedup : after.deduplication ≡ e.deduplication
  pub same_algorithm : after.compression.algorithm ≡ e.compression.algorithm
  pub same_flags :
      (after.dedupe_enabled ≡ e.dedupe_enabled)
      × (after.compression_enabled ≡ e.compression_enabled)

compress-algorithm :
    (tools : Tools) (content : Bytes) (e : CompressionEngine)
    → (compress tools content e).1.algorithm ≡ e.algorithm
unfolding compress keep_if_smaller
compress-algorithm tools content e = ground arith

pub compress_block-Stowed :
    (tools : Tools) (current : Bytes) (was_pattern : Bool) (e : PurityEngine)
    → IsLossless tools
    → e.compression_enabled ≡ true
    → e.compression.algorithm ≢ none_algorithm
    → is_encoded current ≡ was_pattern
    → (was_pattern ≡ false → length current < 4294967296)
    → Stowed tools e current was_pattern
unfolding compress_block
compress_block-Stowed tools current true e l on n m small = record {
  packed = current;
  result = none;
  after = e;
  ran = ground arith;
  unpacks = let raw = is_encoded-has_header current m in ground arith;
  same_pattern = refl;
  same_backend = refl;
  same_dedup = refl;
  same_algorithm = refl;
  same_flags = (refl, refl);
}
compress_block-Stowed tools current false e l on n m small =
    let c = compress-Packed tools current e.compression l n (small refl) in
    let start = record e { compression = c.after } in
    let same =
      sym (
        ap (λ (o : Result (Bytes × CompressionResult) × CompressionEngine). o.1.algorithm)
          c.compressed)
      ∙ compress-algorithm tools current e.compression in
    let back : unpacked tools c.packed ≡ ok current =
      (let r = c.restored in let k = c.headed in ground arith) in
    elim (Bool-cases c.result.was_compressed) [
      | inl q ↦ record {
        packed = c.packed;
        result = some c.result;
        after = count_compressed c.result start;
        ran = ground (arith, c.compressed);
        unpacks = back;
        same_pattern = refl;
        same_backend = refl;
        same_dedup = refl;
        same_algorithm = same;
        same_flags = (refl, refl);
      }
      | inr q ↦ record {
        packed = c.packed;
        result = some c.result;
        after = start;
        ran = ground (arith, c.compressed);
        unpacks = back;
        same_pattern = refl;
        same_backend = refl;
        same_dedup = refl;
        same_algorithm = same;
        same_flags = (refl, refl);
      }
    ]
