-- ===== src/Purity/Wire.antt =====
-- Bytes of the encodings in purity/pattern_removal.py and purity/compression.py: markers and
-- lengths of four bytes, most significant first.
use storage_appliance_archit.Base.{
  ℕ, zero, suc, ◌+◌, ◌*◌, ◌/◌, ◌%◌, ◌≤◌, ◌<◌, ◌≡◌, Option, none, some, List, [], ◌∷◌, Bool, true,
  false, ◌&&◌, arith, ◌==◌, length, ltb, if◌then◌else◌, Result, ok, raise, overflow_error,
}

abbrev pub Bytes : Type 0
Bytes = List ℕ

-- `n.to_bytes(4, "big")`; a number that does not fit raises OverflowError.
unfoldable pub to_bytes : ℕ → Result Bytes
to_bytes n =
    if ltb n 4294967296
    then ok (n / 16777216 ∷ n / 65536 % 256 ∷ n / 256 % 256 ∷ n % 256 ∷ [])
    else raise overflow_error

-- The loop of `int.from_bytes(bs, "big")`.
unfoldable pub from_bytes_onto : ℕ → Bytes → ℕ
from_bytes_onto n [] = n
from_bytes_onto n (b ∷ bs) = from_bytes_onto (n * 256 + b) bs

abbrev pub from_bytes : Bytes → ℕ
from_bytes = from_bytes_onto 0

-- The four bytes of a length that fits.
abbrev pub four_bytes : ℕ → Bytes
four_bytes n = n / 16777216 ∷ n / 65536 % 256 ∷ n / 256 % 256 ∷ n % 256 ∷ []

pub to_bytes_lem : (n : ℕ) → n < 4294967296 → to_bytes n ≡ ok (four_bytes n)
unfolding to_bytes
to_bytes_lem n h = ground arith

pub to_bytes_overflow : (n : ℕ) → 4294967296 ≤ n → to_bytes n ≡ raise overflow_error
unfolding to_bytes
to_bytes_overflow n h = ground arith

pub from_bytes-four_bytes : (n : ℕ) → n < 4294967296 → from_bytes (four_bytes n) ≡ n
unfolding from_bytes_onto
from_bytes-four_bytes n h = omega arith

-- `data.startswith(prefix)`
unfoldable pub starts_with : Bytes → Bytes → Bool
starts_with [] bs = true
starts_with (p ∷ ps) [] = false
starts_with (p ∷ ps) (b ∷ bs) = (p == b) && starts_with ps bs

-- `a == b`
unfoldable pub same_bytes : Bytes → Bytes → Bool
same_bytes [] [] = true
same_bytes (a ∷ as') (b ∷ bs) = (a == b) && same_bytes as' bs
same_bytes _ _ = false

-- `data[-4:]`
unfoldable pub last_four : Bytes → Bytes
last_four [] = []
last_four (b ∷ bs) = if ltb 4 (length (b ∷ bs)) then last_four bs else b ∷ bs

-- `data[i]`
unfoldable pub byte_at : ℕ → Bytes → Option ℕ
byte_at i [] = none
byte_at zero (b ∷ bs) = some b
byte_at (suc i) (b ∷ bs) = byte_at i bs

-- `all(b == c for b in data)`
unfoldable pub all_equal : ℕ → Bytes → Bool
all_equal c [] = true
all_equal c (b ∷ bs) = (b == c) && all_equal c bs
