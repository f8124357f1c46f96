-- ===== src/Purity/Regions.antt =====
-- purity/pattern_removal.py: what `find_zero_regions` reports.
use storage_appliance_archit.Base.{
  ℕ, ◌+◌, ◌-◌, ◌<◌, ◌≤◌, ◌≡◌, refl, Option, none, some, List, [], ◌∷◌, arith, ◌==◌, Bool-cases, inl,
  inr, ltb, ltb→lt, ltb→le,
}
use storage_appliance_archit.Purity.Wire.{Bytes, byte_at}
use storage_appliance_archit.Purity.Pattern.{zero_regions_from, find_zero_regions}
use storage_appliance_archit.Purity.ZeroRuns.{
  At, At-start, At-next, At-byte, Zeros, Covers, IsSeparated, regions_from-IsSeparated,
  regions_from-Covers,
}

-- Every byte of `content` in the region is zero, and the region is as long as asked for.
pub record IsRegion (content : Bytes) (least start size : ℕ) : Type 0 where
  pub zeros : Zeros content start size
  pub enough : least ≤ size

abbrev pub AllRegions : Bytes → ℕ → List (ℕ × ℕ) → Type 0
AllRegions content least [] = Unit
AllRegions content least ((start, size) ∷ rest) =
    IsRegion content least start size × AllRegions content least rest

-- The zeros that end before offset `i`.
abbrev Run : Bytes → ℕ → Option ℕ → Type 0
Run content i none = Unit
Run content i (some start) =
    (start ≤ i) × ((j : ℕ) → start ≤ j → j < i → byte_at j content ≡ some 0)

region :
    (content : Bytes) (least i k : ℕ)
    → Run content i (some k)
    → least ≤ i - k
    → IsRegion content least k (i - k)
region content least i k r h = record {
  zeros = λ j lo hi. r.1 j lo (omega (arith, r.0));
  enough = h;
}

-- One more zero.
extend :
    (content : Bytes) (b : ℕ) (bs : Bytes) (i k : ℕ)
    → At content i (b ∷ bs)
    → b ≡ 0
    → Run content i (some k)
    → Run content (i + 1) (some k)
extend content b bs i k s z r = (
  omega (arith, r.0),
  λ j lo hi. elim (Bool-cases (ltb j i)) [
    | inl t ↦ r.1 j lo (ltb→lt j i t)
    | inr t ↦ let last : j ≡ i = omega (arith, ltb→le j i t) in rw (last, At-byte s, z) refl
  ],
)

regions_from-AllRegions :
    (content : Bytes) (least : ℕ) (rest : Bytes) (i : ℕ) (start : Option ℕ)
    → At content i rest
    → Run content i start
    → AllRegions content least (zero_regions_from least i start rest)
unfolding zero_regions_from
regions_from-AllRegions content least [] i none s r = tt
regions_from-AllRegions content least [] i (some k) s r = elim (Bool-cases (ltb (i - k) least)) [
  | inl t ↦ rw (t, zero_regions_from) tt
  | inr t ↦ rw (t, zero_regions_from) (region content least i k r (ltb→le _ _ t), tt)
]
regions_from-AllRegions content least (b ∷ bs) i none s r = elim (Bool-cases (b == 0)) [
  | inl z ↦
      rw (z, zero_regions_from)
        (regions_from-AllRegions content least bs (i + 1) (some i) (At-next s)
          (extend content b bs i i s (ground arith) (omega arith, λ j lo hi. absurd (omega arith))))
  | inr z ↦
      rw (z, zero_regions_from)
        (regions_from-AllRegions content least bs (i + 1) none (At-next s) tt)
]
regions_from-AllRegions content least (b ∷ bs) i (some k) s r = elim (Bool-cases (b == 0)) [
  | inl z ↦
      rw (z, zero_regions_from)
        (regions_from-AllRegions content least bs (i + 1) (some k) (At-next s)
          (extend content b bs i k s (ground arith) r))
  | inr z ↦
      let rest = regions_from-AllRegions content least bs (i + 1) none (At-next s) tt in
      elim (Bool-cases (ltb (i - k) least)) [
        | inl t ↦ rw (z, t, zero_regions_from) rest
        | inr t ↦ rw (z, t, zero_regions_from) (region content least i k r (ltb→le _ _ t), rest)
      ]
]

-- The regions are the runs of zeros that are long enough.
pub record AreRegions (content : Bytes) (least : ℕ) (regions : List (ℕ × ℕ)) : Type 0 where
  pub each : AllRegions content least regions
  pub separated : IsSeparated 0 regions
  pub complete : (a n : ℕ) → 1 ≤ n → least ≤ n → Zeros content a n → Covers a n regions

-- Every region that is reported lies in the data, holds zeros alone and is as long as asked for. The
-- regions come in order with a byte between any two. Any one or more zeros in a row, as many as
-- asked for or more, lie within one region.
pub find_zero_regions-AreRegions :
    (content : Bytes) (least : ℕ) → AreRegions content least (find_zero_regions content least)
unfolding find_zero_regions
find_zero_regions-AreRegions content least = record {
  each = regions_from-AllRegions content least content 0 none (At-start content) tt;
  separated = regions_from-IsSeparated least 0 0 none content (omega arith) (omega arith);
  complete = λ a n one enough z.
      regions_from-Covers content least a n one enough z content 0 none (At-start content)
        (omega arith) (omega arith);
}
