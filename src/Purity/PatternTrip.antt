-- ===== src/Purity/PatternTrip.antt =====
-- purity/pattern_removal.py: decoding gives back what was encoded, and where it does not.
use storage_appliance_archit.Base.{
  ℕ, ◌<◌, ◌≤◌, ◌≡◌, ◌∙◌, refl, ap, Option, none, [], ◌∷◌, ◌++◌, Bool, true, false, arith, length,
  replicate, Bool-cases, inl, inr, ok, raise, overflow_error,
}
use storage_appliance_archit.Purity.Wire.{
  Bytes, to_bytes_lem, to_bytes_overflow, from_bytes-four_bytes, starts_with, same_bytes, last_four,
  byte_at, all_equal, four_bytes,
}
use storage_appliance_archit.Purity.Pattern.{
  size_or, PatternRemoval, zero_block_marker, pattern_block_prefix, encode, decode, is_encoded,
}

-- A block of one byte repeated is that many copies of it.
pub all_equal-replicate :
    (c : ℕ) (bs : Bytes) → all_equal c bs ≡ true → replicate (length bs) c ≡ bs
unfolding all_equal
all_equal-replicate c [] h = refl
all_equal-replicate c (b ∷ bs) h = ground (arith, all_equal-replicate c bs)

-- The bytes that `encode` puts for a repeated byte.
abbrev pattern_code : ℕ → ℕ → Bytes
pattern_code c n = pattern_block_prefix ++ (c ∷ four_bytes n)

pub decode-pattern_code :
    (r : PatternRemoval) (c n : ℕ) (size : Option ℕ)
    → n < 4294967296
    → decode r (pattern_code c n) size ≡ ok (replicate n c)
unfolding decode starts_with same_bytes last_four byte_at
decode-pattern_code r c n size h = rw (from_bytes-four_bytes n h) refl

pub decode-zero :
    (r : PatternRemoval) (size : Option ℕ)
    → decode r zero_block_marker size ≡ ok (replicate (size_or size r.min_block_size) 0)
unfolding decode
decode-zero r size = refl

-- What `encode` returns, and what `decode` makes of it.
pub record Coded (content : Bytes) (size : Option ℕ) (r : PatternRemoval) : Type 0 where
  pub code : Bytes
  pub reduced : Bool
  pub after : PatternRemoval
  pub encoded : encode content r ≡ (ok (code, reduced), after)
  pub decoded : decode after code size ≡ ok content
  pub marked : is_encoded code ≡ reduced

module _ (b : ℕ) (bs : Bytes) (size : Option ℕ) (r : PatternRemoval) where
  Coded-zero :
      all_equal 0 (b ∷ bs) ≡ true
      → size_or size r.min_block_size ≡ length (b ∷ bs)
      → Coded (b ∷ bs) size r
  unfolding encode
  Coded-zero h n = record {
    code = zero_block_marker;
    reduced = true;
    after = (encode (b ∷ bs) r).1;
    encoded = ground arith;
    decoded =
        let same : (encode (b ∷ bs) r).1.min_block_size ≡ r.min_block_size = ground arith in
        decode-zero (encode (b ∷ bs) r).1 size
        ∙ ap (λ k. ok (replicate k 0)) (ap (size_or size) same ∙ n)
        ∙ ap ok (all_equal-replicate 0 (b ∷ bs) h);
    marked = unfold is_encoded in refl;
  }

  Coded-pattern :
      all_equal 0 (b ∷ bs) ≡ false
      → all_equal b (b ∷ bs) ≡ true
      → length (b ∷ bs) < 4294967296
      → Coded (b ∷ bs) size r
  unfolding encode
  Coded-pattern h k n = record {
    code = pattern_code b (length (b ∷ bs));
    reduced = true;
    after = (encode (b ∷ bs) r).1;
    encoded = ground (arith, to_bytes_lem (length (b ∷ bs)) n);
    decoded =
        decode-pattern_code (encode (b ∷ bs) r).1 b (length (b ∷ bs)) size n
        ∙ ap ok (all_equal-replicate b (b ∷ bs) k);
    marked = unfold is_encoded in refl;
  }

  Coded-plain :
      all_equal 0 (b ∷ bs) ≡ false
      → all_equal b (b ∷ bs) ≡ false
      → is_encoded (b ∷ bs) ≡ false
      → Coded (b ∷ bs) size r
  unfolding encode
  Coded-plain h k n = record {
    code = b ∷ bs;
    reduced = false;
    after = (encode (b ∷ bs) r).1;
    encoded = ground arith;
    decoded = unfold decode is_encoded in ground arith;
    marked = n;
  }

-- `encode` of a block returns, `is_encoded` tells whether it put a code, and `decode` with a size
-- gives the block back, under three conditions: the block does not itself look like a marker; if it is
-- all zeros, the size, or else the block size, is its length; if it is another byte repeated, it is
-- shorter than 2 ^ 32 bytes.
pub encode-Coded :
    (content : Bytes) (size : Option ℕ) (r : PatternRemoval)
    → is_encoded content ≡ false
    → (all_equal 0 content ≡ true → size_or size r.min_block_size ≡ length content)
    → ((b : ℕ)
        → all_equal 0 content ≡ false
        → all_equal b content ≡ true
        → length content < 4294967296)
    → Coded content size r
unfolding encode
encode-Coded [] size r m z n = record {
  code = zero_block_marker;
  reduced = true;
  after = (encode [] r).1;
  encoded = refl;
  decoded =
      decode-zero (encode [] r).1 size
      ∙ ap (λ k. ok (replicate k 0)) (z (unfold all_equal in refl));
  marked = unfold is_encoded in refl;
}
encode-Coded (b ∷ bs) size r m z n = elim (Bool-cases (all_equal 0 (b ∷ bs))) [
  | inl e ↦ Coded-zero b bs size r e (z e)
  | inr e ↦ elim (Bool-cases (all_equal b (b ∷ bs))) [
    | inl k ↦ Coded-pattern b bs size r e k (n b e k)
    | inr k ↦ Coded-plain b bs size r e k m
  ]
]

-- Without the size, as `PurityEngine.retrieve` decodes, every block of zeros comes back as
-- `min_block_size` zeros, whatever its length was.
pub decode-forgets_length :
    (content : Bytes) (r : PatternRemoval)
    → all_equal 0 content ≡ true
    → (code : Bytes) × (after : PatternRemoval) × (encode content r ≡ (ok (code, true), after))
      × (decode after code none ≡ ok (replicate r.min_block_size 0))
unfolding encode all_equal
decode-forgets_length [] r h =
    (zero_block_marker, (encode [] r).1, refl, decode-zero (encode [] r).1 none)
decode-forgets_length (b ∷ bs) r h = (
  zero_block_marker,
  (encode (b ∷ bs) r).1,
  ground arith,
  let same : (encode (b ∷ bs) r).1.min_block_size ≡ r.min_block_size = ground arith in
      decode-zero (encode (b ∷ bs) r).1 none ∙ ap (λ k. ok (replicate k 0)) same,
)

-- A repeated byte other than zero in a block of 2 ^ 32 bytes or more raises OverflowError.
pub encode-overflow :
    (b : ℕ) (bs : Bytes) (r : PatternRemoval)
    → all_equal 0 (b ∷ bs) ≡ false
    → all_equal b (b ∷ bs) ≡ true
    → 4294967296 ≤ length (b ∷ bs)
    → (encode (b ∷ bs) r).0 ≡ raise overflow_error
unfolding encode
encode-overflow b bs r h k n = ground (arith, to_bytes_overflow (length (b ∷ bs)) n)
