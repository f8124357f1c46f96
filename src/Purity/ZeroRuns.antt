-- ===== src/Purity/ZeroRuns.antt =====
-- purity/pattern_removal.py: the scan of `find_zero_regions` misses no run of zeros, and keeps the
-- regions apart.
use storage_appliance_archit.Base.{
  ℕ, ◌+◌, ◌-◌, ◌<◌, ◌≤◌, ◌≡◌, refl, zero, suc, ap, true, false, Option, none, some, List, [], ◌∷◌,
  ◌++◌, arith, ◌==◌, length, Bool-cases, inl, inr, append_assoc, length-append, ltb, ltb→lt, ltb→le,
  ◌∙◌, ◌⊎◌,
}
use storage_appliance_archit.Purity.Wire.{Bytes, byte_at}
use storage_appliance_archit.Purity.Pattern.{zero_regions_from}

byte_at-append : (xs : Bytes) (b : ℕ) (ys : Bytes) → byte_at (length xs) (xs ++ (b ∷ ys)) ≡ some b
unfolding byte_at
byte_at-append [] b ys = refl
byte_at-append (x ∷ xs) b ys = byte_at-append xs b ys

byte_at-length : (j c : ℕ) (bs : Bytes) → byte_at j bs ≡ some c → j < length bs
unfolding byte_at
byte_at-length j c [] h = absurd (cc)
byte_at-length zero c (b ∷ bs) h = omega arith
byte_at-length (suc j) c (b ∷ bs) h = omega (arith, byte_at-length j c bs h)

-- The scan of `content` is at offset `i`, before the bytes `rest`.
pub record At (content : Bytes) (i : ℕ) (rest : Bytes) : Type 0 where
  pub done : Bytes
  pub whole : done ++ rest ≡ content
  pub offset : i ≡ length done

pub At-start : (content : Bytes) → At content 0 content
At-start content = record { done = []; whole = refl; offset = refl }

pub At-next :
    {content : Bytes} {i b : ℕ} {bs : Bytes} → At content i (b ∷ bs) → At content (i + 1) bs
At-next {b = b} {bs = bs} h = record {
  done = h.done ++ (b ∷ []);
  whole = append_assoc h.done (b ∷ []) bs ∙ h.whole;
  offset = omega (arith, h.offset, length-append h.done (b ∷ []));
}

pub At-byte :
    {content : Bytes} {i b : ℕ} {bs : Bytes} → At content i (b ∷ bs) → byte_at i content ≡ some b
At-byte {b = b} {bs = bs} h = rw (h.offset, ← h.whole) (byte_at-append h.done b bs)

At-end : {content : Bytes} {i : ℕ} → At content i [] → i ≡ length content
At-end h = omega (arith, h.offset, length-append h.done [], ap length h.whole)

-- The bytes from `a` on are `n` zeros.
abbrev pub Zeros : Bytes → ℕ → ℕ → Type 0
Zeros content a n = (j : ℕ) → a ≤ j → j < a + n → byte_at j content ≡ some 0

-- One of the regions holds the `n` bytes from `a` on.
abbrev pub Covers : ℕ → ℕ → List (ℕ × ℕ) → Type 0
Covers a n [] = true ≡ false
Covers a n ((start, size) ∷ rest) = ((start ≤ a) × (a + n ≤ start + size)) ⊎ Covers a n rest

-- The regions come in order, from an offset on, with a byte between any two.
abbrev pub IsSeparated : ℕ → List (ℕ × ℕ) → Type 0
IsSeparated from [] = Unit
IsSeparated from ((start, size) ∷ rest) = (from ≤ start) × IsSeparated (start + size + 1) rest

-- Where the zeros began that end before the offset, or the offset itself.
abbrev pub begun : ℕ → Option ℕ → ℕ
begun i none = i
begun i (some k) = k

pub regions_from-IsSeparated :
    (least from i : ℕ) (start : Option ℕ) (rest : Bytes)
    → from ≤ begun i start
    → begun i start ≤ i
    → IsSeparated from (zero_regions_from least i start rest)
unfolding zero_regions_from
regions_from-IsSeparated least from i none [] lo hi = tt
regions_from-IsSeparated least from i (some k) [] lo hi = ground arith
regions_from-IsSeparated least from i none (b ∷ bs) lo hi = elim (Bool-cases (b == 0)) [
  | inl z ↦
      rw (z, zero_regions_from)
        (regions_from-IsSeparated least from (i + 1) (some i) bs lo (omega arith))
  | inr z ↦
      rw (z, zero_regions_from)
        (regions_from-IsSeparated least from (i + 1) none bs (omega (arith, lo)) (omega arith))
]
regions_from-IsSeparated least from i (some k) (b ∷ bs) lo hi = elim (Bool-cases (b == 0)) [
  | inl z ↦
      rw (z, zero_regions_from)
        (regions_from-IsSeparated least from (i + 1) (some k) bs lo (omega (arith, hi)))
  | inr z ↦ elim (Bool-cases (ltb (i - k) least)) [
    | inl t ↦
        rw (z, t, zero_regions_from)
          (regions_from-IsSeparated least from (i + 1) none bs (omega (arith, lo, hi))
            (omega arith))
    | inr t ↦
        rw (z, t, zero_regions_from)
          (
            lo,
            regions_from-IsSeparated least (k + (i - k) + 1) (i + 1) none bs (omega (arith, hi))
                (omega arith),
          )
  ]
]

module _ (content : Bytes) (least a n : ℕ) (some_bytes : 1 ≤ n) (enough : least ≤ n)
    (zeros : Zeros content a n) where
  -- A byte that is not zero lies before or after the zeros.
  outside : (i b : ℕ) → byte_at i content ≡ some b → b == 0 ≡ false → a ≤ i → a + n ≤ i
  outside i b e z lo = elim (Bool-cases (ltb i (a + n))) [
    | inl t ↦ absurd (let here = zeros i lo (ltb→lt i (a + n) t) in ground arith)
    | inr t ↦ ltb→le i (a + n) t
  ]

  inside : a + n ≤ length content
  inside =
      let last =
        byte_at-length (a + n - 1) 0 content (zeros (a + n - 1) (omega arith) (omega arith)) in
      omega arith

  pub regions_from-Covers :
      (rest : Bytes) (i : ℕ) (start : Option ℕ)
      → At content i rest
      → begun i start ≤ a
      → begun i start ≤ i
      → Covers a n (zero_regions_from least i start rest)
  unfolding zero_regions_from
  regions_from-Covers [] i none s lo hi =
      absurd (let end = At-end s in let most = inside in omega arith)
  regions_from-Covers [] i (some k) s lo hi =
      let end = At-end s in
      let most = inside in
      elim (Bool-cases (ltb (i - k) least)) [
        | inl t ↦ absurd (let short = ltb→lt _ _ t in omega arith)
        | inr t ↦ rw (t, zero_regions_from) (inl (lo, omega arith))
      ]
  regions_from-Covers (b ∷ bs) i none s lo hi = elim (Bool-cases (b == 0)) [
    | inl z ↦
        rw (z, zero_regions_from)
          (regions_from-Covers bs (i + 1) (some i) (At-next s) lo (omega arith))
    | inr z ↦
        rw (z, zero_regions_from)
          (regions_from-Covers bs (i + 1) none (At-next s)
            (elim (Bool-cases (ltb i a)) [
              | inl t ↦ ground arith
              | inr t ↦
                  absurd
                    (let past = outside i b (At-byte s) z (ltb→le i a t) in omega (arith, past))
            ])
            (omega arith))
  ]
  regions_from-Covers (b ∷ bs) i (some k) s lo hi = elim (Bool-cases (b == 0)) [
    | inl z ↦
        rw (z, zero_regions_from)
          (regions_from-Covers bs (i + 1) (some k) (At-next s) lo (omega (arith, hi)))
    | inr z ↦ elim (Bool-cases (ltb i a)) [
      | inl later ↦
          let rest : Covers a n (zero_regions_from least (i + 1) none bs) =
            regions_from-Covers bs (i + 1) none (At-next s) (ground (arith, later)) (omega arith) in
          elim (Bool-cases (ltb (i - k) least)) [
            | inl t ↦ rw (z, t, zero_regions_from) rest
            | inr t ↦ rw (z, t, zero_regions_from) (inr rest)
          ]
      | inr here ↦
          let past = outside i b (At-byte s) z (ltb→le i a here) in
          elim (Bool-cases (ltb (i - k) least)) [
            | inl t ↦ absurd (let short = ltb→lt (i - k) least t in omega arith)
            | inr t ↦ rw (z, t, zero_regions_from) (inl (lo, omega arith))
          ]
    ]
  ]
