-- ===== src/Base/Dict.antt =====
-- A Python dict, in insertion order: an association list with laws in `ite` form.
use mathlib.Core.Path.{◌≡◌, refl, subst}
use mathlib.Core.Logic.{◌≢◌, ite}
use mathlib.Core.Option.{Option, none, some}
use mathlib.Core.List.{List, [], ◌∷◌}
use Prim.Native.Nat.{ℕ, ◌+◌, ◌≤◌}
use native.Mathlib.Omega.{arith}
use storage_appliance_archit.Base.Keys.{Key}

abbrev pub Dict {ℓ} : Type ℓ → Type ℓ → Type ℓ
Dict K V = List (K × V)

-- The weight of what a lookup finds.
abbrev pub weight {ℓ} : {V : Type ℓ} → (V → ℕ) → Option V → ℕ
weight w none = 0
weight w (some v) = w v

module _ {ℓ} {K V : Type ℓ} ⦃key : Key K⦄ where
  -- `d.get(k)`
  unfoldable pub lookup : K → Dict K V → Option V
  lookup k [] = none
  lookup k ((j, v) ∷ d) = ite (key.dec j k) (some v) (lookup k d)

  -- `d[k] = v`: a key that is there keeps its place.
  unfoldable pub insert : K → V → Dict K V → Dict K V
  insert k v [] = (k, v) ∷ []
  insert k v ((j, w) ∷ d) = ite (key.dec j k) ((j, v) ∷ d) ((j, w) ∷ insert k v d)

  -- `del d[k]`, for a key that is there.
  unfoldable pub erase : K → Dict K V → Dict K V
  erase k [] = []
  erase k ((j, w) ∷ d) = ite (key.dec j k) d ((j, w) ∷ erase k d)

  pub lookup-insert :
      (k j : K) (v : V) (d : Dict K V)
      → lookup j (insert k v d) ≡ ite (key.dec k j) (some v) (lookup j d)
  unfolding lookup insert
  lookup-insert k j v [] = refl
  lookup-insert k j v ((i, w) ∷ d) = ground (arith, lookup-insert k j v d)

  pub lookup-insert_self : (k : K) (v : V) (d : Dict K V) → lookup k (insert k v d) ≡ some v
  lookup-insert_self k v d = ground (arith, lookup-insert k k v d)

  pub lookup-insert_ne :
      (k j : K) (v : V) (d : Dict K V) → k ≢ j → lookup j (insert k v d) ≡ lookup j d
  lookup-insert_ne k j v d h = ground (arith, lookup-insert k j v d)

  -- No key occurs twice.
  abbrev pub IsDict : Dict K V → Type ℓ
  IsDict [] = Unit
  IsDict ((j, w) ∷ d) = (lookup j d ≡ none) × IsDict d

  pub insert-IsDict : (k : K) (v : V) (d : Dict K V) → IsDict d → IsDict (insert k v d)
  unfolding lookup insert
  insert-IsDict k v [] h = (refl, tt)
  insert-IsDict k v ((j, w) ∷ d) h = ground (arith, insert-IsDict k v d h.1, lookup-insert k j v d)

  pub lookup-erase_ne : (k j : K) (d : Dict K V) → k ≢ j → lookup j (erase k d) ≡ lookup j d
  unfolding lookup erase
  lookup-erase_ne k j [] h = refl
  lookup-erase_ne k j ((i, w) ∷ d) h = ground (arith, lookup-erase_ne k j d h)

  pub lookup-erase_self : (k : K) (d : Dict K V) → IsDict d → lookup k (erase k d) ≡ none
  unfolding lookup erase
  lookup-erase_self k [] h = refl
  lookup-erase_self k ((i, w) ∷ d) h = ground (arith, lookup-erase_self k d h.1)

  pub lookup-erase :
      (k j : K) (d : Dict K V)
      → IsDict d
      → lookup j (erase k d) ≡ ite (key.dec k j) none (lookup j d)
  lookup-erase k j d h =
      elim (key.dec k j) as (λ t. lookup j (erase k d) ≡ ite t none (lookup j d)) [
        | yes p ↦ subst (λ q. lookup q (erase k d) ≡ none) p (lookup-erase_self k d h)
        | no p ↦ lookup-erase_ne k j d p
      ]

  pub erase-IsDict : (k : K) (d : Dict K V) → IsDict d → IsDict (erase k d)
  unfolding lookup erase
  erase-IsDict k [] h = tt
  erase-IsDict k ((j, w) ∷ d) h = ground (arith, erase-IsDict k d h.1, lookup-erase_ne k j d)

  -- The sum of a weight over the values.
  abbrev pub total : (V → ℕ) → Dict K V → ℕ
  total w [] = 0
  total w ((_, v) ∷ d) = w v + total w d

  pub total-insert :
      (w : V → ℕ) (k : K) (v : V) (d : Dict K V)
      → total w (insert k v d) + weight w (lookup k d) ≡ total w d + w v
  unfolding lookup insert
  total-insert w k v [] = omega arith
  total-insert w k v ((j, u) ∷ d) = ground (arith, total-insert w k v d)

  pub total-erase :
      (w : V → ℕ) (k : K) (d : Dict K V) → total w (erase k d) + weight w (lookup k d) ≡ total w d
  unfolding lookup erase
  total-erase w k [] = omega arith
  total-erase w k ((j, u) ∷ d) = ground (arith, total-erase w k d)

  pub weight-le-total : (w : V → ℕ) (k : K) (d : Dict K V) → weight w (lookup k d) ≤ total w d
  unfolding lookup
  weight-le-total w k [] = omega arith
  weight-le-total w k ((j, u) ∷ d) = ground (arith, weight-le-total w k d)

  -- Assignments to two keys commute where the first key is there.
  pub insert_comm :
      (k j : K) (v w : V) (d : Dict K V)
      → k ≢ j
      → lookup k d ≢ none
      → insert k v (insert j w d) ≡ insert j w (insert k v d)
  unfolding lookup insert
  insert_comm k j v w [] n h = absurd (h refl)
  insert_comm k j v w ((i, u) ∷ d) n h = ground (arith, insert_comm k j v w d n)

  -- Every entry of the second dictionary is what a lookup in the first finds.
  abbrev pub AllIn : Dict K V → Dict K V → Type ℓ
  AllIn d [] = Unit
  AllIn d ((j, w) ∷ e) = (lookup j d ≡ some w) × AllIn d e

  AllIn-cons :
      (j : K) (w : V) (d e : Dict K V) → lookup j d ≡ none → AllIn d e → AllIn ((j, w) ∷ d) e
  unfolding lookup
  AllIn-cons j w d [] h a = tt
  AllIn-cons j w d ((i, u) ∷ e) h a = (ground arith, AllIn-cons j w d e h a.1)

  pub AllIn-self : (d : Dict K V) → IsDict d → AllIn d d
  unfolding lookup
  AllIn-self [] h = tt
  AllIn-self ((j, w) ∷ d) h = (ground arith, AllIn-cons j w d d h.0 (AllIn-self d h.1))
