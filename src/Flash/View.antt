-- ===== src/Flash/View.antt =====
-- directflash: what a reader sees of the blocks and the table, and how each update changes it.
use storage_appliance_archit.Base.{
  inl, inr, Option-cases, ℕ, ◌≡◌, ◌≢◌, ite, Option, none, some, arith, nat_key,
}
use storage_appliance_archit.Base.Dict.{
  Dict, lookup, insert, erase, lookup-insert, lookup-erase, IsDict,
}
use storage_appliance_archit.Flash.Block.{free, valid, Bytes, PhysicalBlock, stale, programmed}
use storage_appliance_archit.Flash.Links.{Blocks, Tag, status, IsLinked}

-- The content of a valid block.
unfoldable pub held : Blocks → ℕ → Option Bytes
held blocks p = elim (lookup p blocks) [
  | none ↦ none
  | some b ↦ elim b.state [ valid ↦ some b.content | _ ↦ none ]
]

-- The content that the table leads to.
unfoldable pub view : Blocks → Dict ℕ ℕ → ℕ → Option Bytes
view blocks l2p la = elim (lookup la l2p) [ none ↦ none | some p ↦ held blocks p ]

-- What `held` sees of one block.
abbrev pub shown : PhysicalBlock → Option Bytes
shown b = elim b.state [ valid ↦ some b.content | _ ↦ none ]

pub held-insert :
    (p q : ℕ) (b : PhysicalBlock) (blocks : Blocks)
    → held (insert p b blocks) q ≡ ite (nat_key.dec p q) (shown b) (held blocks q)
unfolding held
held-insert p q b blocks = ground (arith, lookup-insert p q b blocks)

module _ (blocks : Blocks) (l2p : Dict ℕ ℕ) where
  pub view-stale :
      (la p a : ℕ) (b : PhysicalBlock)
      → lookup la l2p ≡ some p
      → IsLinked none blocks l2p
      → view (insert p (stale b) blocks) l2p a ≡ ite (nat_key.dec la a) none (view blocks l2p a)
  unfolding view
  view-stale la p a b e h = elim (Option-cases (lookup a l2p)) [
    | inl k ↦ ground (arith, held-insert p p (stale b) blocks)
    | inr (q, k) ↦ ground (
      arith,
      held-insert p q (stale b) blocks,
      h.mapped la p (λ z. cc) e,
      h.mapped a q (λ z. cc) k,
    )
  ]

  pub view-programmed :
      (la p a : ℕ) (content : Bytes) (b : PhysicalBlock) (o : Option ℕ)
      → status blocks p ≡ some (free, o)
      → IsLinked (some la) blocks l2p
      → view (insert p (programmed la content b) blocks) (insert la p l2p) a
        ≡ ite (nat_key.dec la a) (some content) (view blocks l2p a)
  unfolding view
  view-programmed la p a content b o e h = elim (Option-cases (lookup a l2p)) [
    | inl k ↦
        ground (arith, held-insert p p (programmed la content b) blocks, lookup-insert la a p l2p)
    | inr (q, k) ↦ ground (
      arith,
      held-insert p p (programmed la content b) blocks,
      held-insert p q (programmed la content b) blocks,
      lookup-insert la a p l2p,
      h.mapped a q,
    )
  ]

  pub view-erase :
      (la a : ℕ)
      → IsDict l2p
      → view blocks (erase la l2p) a ≡ ite (nat_key.dec la a) none (view blocks l2p a)
  unfolding view
  view-erase la a d = ground (arith, lookup-erase la a l2p d)

  -- A block that is not valid changes into one that is not valid.
  pub view-other :
      (p a : ℕ) (b : PhysicalBlock) (t : Tag)
      → status blocks p ≡ some t
      → t.0 ≢ valid
      → b.state ≢ valid
      → view (insert p b blocks) l2p a ≡ view blocks l2p a
  unfolding view held status
  view-other p a b t e n n' = elim (Option-cases (lookup a l2p)) [
    | inl k ↦ ground arith
    | inr (q, k) ↦ ground (arith, lookup-insert p q b blocks)
  ]
