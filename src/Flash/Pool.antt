-- ===== src/Flash/Pool.antt =====
-- directflash/block_manager.py: the choice of the least worn free block.
use storage_appliance_archit.Base.{
  ℕ, ◌≤◌, ◌≡◌, ◌⊎◌, inl, inr, none, some, List, [], ◌∷◌, true, arith, contains, nat_key, refl,
  Option-cases, Bool-cases, ltb, ok,
}
use storage_appliance_archit.Base.Dict.{lookup, insert, lookup-insert}
use storage_appliance_archit.Flash.Block.{PhysicalBlock, least_worn_from, least_worn}
use storage_appliance_archit.Flash.Links.{Blocks, status, IsPool}

-- The erase count of a block, 0 where it is missing.
unfoldable pub wear : Blocks → ℕ → ℕ
wear blocks p = elim (lookup p blocks) [ none ↦ 0 | some b ↦ b.erase_count ]

abbrev pub Present : Blocks → ℕ → Type 0
Present blocks p = (b : PhysicalBlock) × (lookup p blocks ≡ some b)

abbrev AllPresent : Blocks → List ℕ → Type 0
AllPresent blocks [] = Unit
AllPresent blocks (p ∷ ps) = Present blocks p × AllPresent blocks ps

AllPresent-of :
    (blocks : Blocks) (ps : List ℕ)
    → ((p : ℕ) → contains p ps ≡ true → Present blocks p)
    → AllPresent blocks ps
AllPresent-of blocks [] h = tt
AllPresent-of blocks (p ∷ ps) h =
    (h p (ground arith), AllPresent-of blocks ps (λ q k. h q (ground arith)))

-- The wear of every block of a list is at least `n`.
abbrev pub AllWorn : Blocks → ℕ → List ℕ → Type 0
AllWorn blocks n [] = Unit
AllWorn blocks n (p ∷ ps) = (n ≤ wear blocks p) × AllWorn blocks n ps

-- What `min` returns: a member with the least wear.
pub record Chosen (blocks : Blocks) (ps : List ℕ) (p : ℕ) : Type 0 where
  pub member : contains p ps ≡ true
  pub least : AllWorn blocks (wear blocks p) ps

pub AllWorn-weaken :
    (blocks : Blocks) (m n : ℕ) (ps : List ℕ) → m ≤ n → AllWorn blocks n ps → AllWorn blocks m ps
AllWorn-weaken blocks m n [] h w = tt
AllWorn-weaken blocks m n (p ∷ ps) h w = (omega arith, AllWorn-weaken blocks m n ps h w.1)

least_worn_from_lem :
    (blocks : Blocks) (best count : ℕ) (ps : List ℕ)
    → AllPresent blocks ps
    → wear blocks best ≡ count
    → (p : ℕ) × (least_worn_from blocks best count ps ≡ ok p)
      × ((p ≡ best) ⊎ (contains p ps ≡ true))
      × (wear blocks p ≤ count)
      × AllWorn blocks (wear blocks p) ps
unfolding least_worn_from wear
least_worn_from_lem blocks best count [] h e = (best, refl, inl refl, omega arith, tt)
least_worn_from_lem blocks best count (q ∷ ps) ((b, k), h) e =
    elim (Bool-cases (ltb b.erase_count count)) [
      | inl t ↦
          let (p, run, from, low, all) =
            least_worn_from_lem blocks q b.erase_count ps h (ground arith) in
          (p, ground arith, ground arith, ground arith, (ground arith, all))
      | inr t ↦
          let (p, run, from, low, all) = least_worn_from_lem blocks best count ps h e in
          (p, ground arith, ground arith, low, (ground arith, all))
    ]

-- On a pool whose blocks are all there, `min` returns a member of least wear.
pub least_worn-Chosen :
    (blocks : Blocks) (q : ℕ) (ps : List ℕ)
    → ((p : ℕ) → contains p (q ∷ ps) ≡ true → Present blocks p)
    → (p : ℕ) × (least_worn blocks q ps ≡ ok p) × Chosen blocks (q ∷ ps) p
unfolding least_worn wear
least_worn-Chosen blocks q ps h =
    let (b, k) = h q (ground arith) in
    let (p, run, from, low, all) =
      least_worn_from_lem blocks q b.erase_count ps
        (AllPresent-of blocks ps (λ p c. h p (ground arith))) (ground arith) in
    (p, ground arith, record { member = ground arith; least = (ground arith, all) })

-- Every block of the pool is there.
pub IsPool-Present :
    (blocks : Blocks) (pool : List ℕ) (p : ℕ)
    → IsPool blocks pool
    → contains p pool ≡ true
    → Present blocks p
unfolding status
IsPool-Present blocks pool p h c = elim (Option-cases (lookup p blocks)) [
  | inl k ↦ absurd (ground (arith, h.pooled p c))
  | inr found ↦ found
]

-- A change that keeps the erase count of a block keeps what `min` returns.
pub wear-insert :
    (blocks : Blocks) (p q : ℕ) (b b' : PhysicalBlock)
    → lookup p blocks ≡ some b
    → b'.erase_count ≡ b.erase_count
    → wear (insert p b' blocks) q ≡ wear blocks q
unfolding wear
wear-insert blocks p q b b' k e = ground (arith, lookup-insert p q b' blocks)

AllWorn-insert :
    (blocks : Blocks) (p n : ℕ) (ps : List ℕ) (b b' : PhysicalBlock)
    → lookup p blocks ≡ some b
    → b'.erase_count ≡ b.erase_count
    → AllWorn (insert p b' blocks) n ps
    → AllWorn blocks n ps
AllWorn-insert blocks p n [] b b' k e h = tt
AllWorn-insert blocks p n (q ∷ ps) b b' k e h =
    (omega (arith, wear-insert blocks p q b b' k e, h.0), AllWorn-insert blocks p n ps b b' k e h.1)

pub Chosen-insert :
    (blocks : Blocks) (p q : ℕ) (ps : List ℕ) (b b' : PhysicalBlock)
    → lookup p blocks ≡ some b
    → b'.erase_count ≡ b.erase_count
    → Chosen (insert p b' blocks) ps q
    → Chosen blocks ps q
Chosen-insert blocks p q ps b b' k e h = record {
  member = h.member;
  least =
      rw (← wear-insert blocks p q b b' k e)
        (AllWorn-insert blocks p (wear (insert p b' blocks) q) ps b b' k e h.least);
}
