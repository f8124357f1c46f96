-- ===== src/Base/Lists.antt =====
-- Lists measured by native numbers, and lists without repetition as sets.
use Prim.Native.Nat.{ℕ, zero, suc, ◌+◌, ◌≤◌, ◌<◌}
use mathlib.Core.Path.{◌≡◌, refl, ap}
use mathlib.Core.Logic.{◌≢◌, ite}
use mathlib.Core.Bool.{Bool, true, false}
use mathlib.Core.List.{List, [], ◌∷◌, ◌++◌}
use native.Mathlib.Decide.{ℕ_discrete}
use native.Mathlib.Omega.{arith}

module _ {ℓ} {A : Type ℓ} where
  abbrev pub length : List A → ℕ
  length [] = 0
  length (x ∷ xs) = suc (length xs)

  abbrev pub take : ℕ → List A → List A
  take zero xs = []
  take (suc n) [] = []
  take (suc n) (x ∷ xs) = x ∷ take n xs

  abbrev pub drop : ℕ → List A → List A
  drop zero xs = xs
  drop (suc n) [] = []
  drop (suc n) (x ∷ xs) = drop n xs

  abbrev pub replicate : ℕ → A → List A
  replicate zero a = []
  replicate (suc n) a = a ∷ replicate n a

  pub length-append : (xs ys : List A) → length (xs ++ ys) ≡ length xs + length ys
  length-append [] ys = omega arith
  length-append (x ∷ xs) ys = omega (arith, length-append xs ys)

  pub length-replicate : (n : ℕ) (a : A) → length (replicate n a) ≡ n
  length-replicate zero a = refl
  length-replicate (suc n) a = ap suc (length-replicate n a)

-- A Python set of small integers: a list that holds each member once. The order of the list
-- stands for the order of iteration, on which no theorem depends.
abbrev pub contains : ℕ → List ℕ → Bool
contains a [] = false
contains a (x ∷ xs) = ite (ℕ_discrete a x) true (contains a xs)

-- `s.discard(a)`, and `s.remove(a)` where `a` is a member.
abbrev pub discard : ℕ → List ℕ → List ℕ
discard a [] = []
discard a (x ∷ xs) = ite (ℕ_discrete a x) xs (x ∷ discard a xs)

-- `s.add(a)`
abbrev pub add : ℕ → List ℕ → List ℕ
add a xs = elim (contains a xs) [ true ↦ xs | false ↦ a ∷ xs ]

abbrev pub IsSimple : List ℕ → Type 0
IsSimple [] = Unit
IsSimple (x ∷ xs) = (contains x xs ≡ false) × IsSimple xs

-- `n` numbers from `i` on, in ascending order.
abbrev pub range_from : ℕ → ℕ → List ℕ
range_from i zero = []
range_from i (suc n) = i ∷ range_from (suc i) n

-- `range(n)`
abbrev pub range : ℕ → List ℕ
range n = range_from 0 n

pub contains-range_from : (a i n : ℕ) → contains a (range_from i n) ≡ true → (i ≤ a) × (a < i + n)
contains-range_from a i zero h = cc
contains-range_from a i (suc n) h = ground (arith, contains-range_from a (suc i) n)

pub contains-range_from_lt : (a i n : ℕ) → a < i → contains a (range_from i n) ≡ false
contains-range_from_lt a i zero h = refl
contains-range_from_lt a i (suc n) h = ground (arith, contains-range_from_lt a (suc i) n)

pub range_from-IsSimple : (i n : ℕ) → IsSimple (range_from i n)
range_from-IsSimple i zero = tt
range_from-IsSimple i (suc n) =
    (contains-range_from_lt i (suc i) n (omega arith), range_from-IsSimple (suc i) n)

pub length-range_from : (i n : ℕ) → length (range_from i n) ≡ n
length-range_from i zero = refl
length-range_from i (suc n) = ap suc (length-range_from (suc i) n)

pub contains-discard_ne :
    (a b : ℕ) (xs : List ℕ) → a ≢ b → contains b (discard a xs) ≡ contains b xs
contains-discard_ne a b [] h = refl
contains-discard_ne a b (x ∷ xs) h = ground (arith, contains-discard_ne a b xs h)

pub contains-discard_self : (a : ℕ) (xs : List ℕ) → IsSimple xs → contains a (discard a xs) ≡ false
contains-discard_self a [] h = refl
contains-discard_self a (x ∷ xs) h = ground (arith, contains-discard_self a xs h.1)

pub contains-discard :
    (a b : ℕ) (xs : List ℕ) → contains b (discard a xs) ≡ true → contains b xs ≡ true
contains-discard a b [] h = h
contains-discard a b (x ∷ xs) h = ground (arith, contains-discard a b xs)

pub discard-IsSimple : (a : ℕ) (xs : List ℕ) → IsSimple xs → IsSimple (discard a xs)
discard-IsSimple a [] h = tt
discard-IsSimple a (x ∷ xs) h = ground (arith, discard-IsSimple a xs h.1, contains-discard a x xs)

pub length-discard :
    (a : ℕ) (xs : List ℕ) → contains a xs ≡ true → length (discard a xs) + 1 ≡ length xs
length-discard a [] h = cc
length-discard a (x ∷ xs) h = ground (arith, length-discard a xs)
