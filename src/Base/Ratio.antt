-- ===== src/Base/Ratio.antt =====
-- The quotients that the program forms as floats, kept exact. A comparison of such a quotient
-- with a constant agrees with the float comparison while the numbers stay below 2 ^ 50 and the
-- constant is a dyadic fraction, as the defaults 0.75 and 0.5 are.
use Prim.Native.Nat.{ℕ, ◌*◌}
use mathlib.Core.Bool.{Bool, true, false}
use storage_appliance_archit.Base.Int.{ℤ, pos, negsuc}
use storage_appliance_archit.Base.Tests.{leb}

pub record Ratio : Type 0 where
  pub num : ℤ
  pub den : ℕ

-- `a <= b`, for positive denominators and a right side that is not negative.
abbrev pub leb_Ratio : Ratio → Ratio → Bool
leb_Ratio a b = leb_parts a.num b.num
  where
    leb_parts : ℤ → ℤ → Bool
    leb_parts (pos m) (pos n) = leb (m * b.den) (n * a.den)
    leb_parts (pos m) (negsuc n) = false
    leb_parts (negsuc m) _ = true
