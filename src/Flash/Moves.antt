-- ===== src/Flash/Moves.antt =====
-- directflash/wear_leveling.py: a move keeps the invariant and what every address reads, and the
-- loop of moves ends.
use storage_appliance_archit.Base.{
  nat_key, ℕ, ◌+◌, ◌≡◌, ◌≢◌, refl, none, some, [], ◌∷◌, arith, Option-cases, Bool-cases, inl, inr,
  ltb,
}
use storage_appliance_archit.Base.Int.{int_laws}
use storage_appliance_archit.Base.Dict.{
  lookup, insert, total, total-insert, insert_comm, AllIn, lookup-insert,
}
use storage_appliance_archit.Flash.Block.{
  BlockState, free, valid, invalid, PhysicalBlock, BlockManager, stale, store,
}
use storage_appliance_archit.Flash.Links.{Blocks, status}
use storage_appliance_archit.Flash.Sound.{valid_wear, IsSound}
use storage_appliance_archit.Flash.View.{view, held, view-programmed, view-stale}
use storage_appliance_archit.Flash.Write.{seen, staled, staled-IsSoundBut, store-IsSound}
use storage_appliance_archit.Flash.Leveler.{Candidate, more_worn, less_worn, scan, moved, copied}

-- Another manager over the same blocks, table and pool, with counters that agree.
pub IsSound-recount :
    (m m' : BlockManager)
    → IsSound m
    → m'.blocks ≡ m.blocks
    → m'.l2p_table ≡ m.l2p_table
    → m'.free_pool ≡ m.free_pool
    → m'.stats.free_blocks ≡ m.stats.free_blocks
    → m'.stats.valid_blocks ≡ m.stats.valid_blocks
    → m'.stats.bad_blocks ≡ m.stats.bad_blocks
    → m'.stats.invalid_blocks ≡ m.stats.invalid_blocks
    → IsSound m'
IsSound-recount m m' h e₁ e₂ e₃ e₄ e₅ e₆ e₇ = record {
  linked = rw (e₁, e₂) h.linked;
  pool = rw (e₁, e₃) h.pool;
  keyed = rw e₁ h.keyed;
  tabled = rw e₂ h.tabled;
  simple = rw e₃ h.simple;
  unreserved = rw (e₁, e₃) h.unreserved;
  free_counted = rw (e₃, e₄) h.free_counted;
  valid_counted = rw (e₁, e₅) h.valid_counted;
  bad_counted = rw (e₁, e₆) h.bad_counted;
  invalid_bounded = rw (e₁, e₇) h.invalid_bounded;
}

module _ (m : BlockManager) (p q : ℕ) (source dest : PhysicalBlock) (h : IsSound m)
    (from : lookup p m.blocks ≡ some source) (to : lookup q m.blocks ≡ some dest)
    (is_valid : source.state ≡ valid) (is_free : dest.state ≡ free) where
  distinct : p ≢ q
  distinct e = ground arith

  -- A valid block has an address.
  address : (la : ℕ) × (source.logical_address ≡ some la)
  unfolding status
  address = elim (Option-cases source.logical_address) [
    | inl e ↦ absurd (ground (arith, h.linked.tagged p))
    | inr found ↦ found
  ]

  module _ (la : ℕ) (at : source.logical_address ≡ some la) where
    mapped_at : lookup la m.l2p_table ≡ some p
    unfolding status
    mapped_at = ground (arith, h.linked.owned p la)

    abbrev rewritten : BlockManager
    rewritten = store la source.content q dest (staled p source m)

    rewritten-IsSound : IsSound rewritten
    unfolding status
    rewritten-IsSound =
        store-IsSound la q source.content dest (staled p source m)
          (staled-IsSoundBut la p source m h mapped_at from)
          (h.unreserved q dest.logical_address (ground arith))
          (ground (arith, distinct, lookup-insert p q (stale source) m.blocks))

    -- The code programs the new block first and invalidates the old one after; the dictionaries
    -- come out the same.
    same_blocks : (moved p source q dest m).blocks ≡ rewritten.blocks
    same_blocks =
        ground (arith, insert_comm p q (stale source) (copied source dest) m.blocks distinct)

    same_table : (moved p source q dest m).l2p_table ≡ rewritten.l2p_table
    same_table = ground arith

    pub moved-IsSound_at : IsSound (moved p source q dest m)
    moved-IsSound_at =
        IsSound-recount rewritten (moved p source q dest m) rewritten-IsSound same_blocks same_table
          refl refl (grind (int_laws, h.valid_counted)) refl refl

    held_source : held m.blocks p ≡ some source.content
    unfolding held
    held_source = ground arith

    pub moved-seen_at : (a : ℕ) → seen (moved p source q dest m) a ≡ seen m a
    unfolding status
    moved-seen_at a =
        let n : PhysicalBlock = stale source in
        let e₁ = view-stale m.blocks m.l2p_table la p a source mapped_at h.linked in
        let e₂ =
          view-programmed (insert p n m.blocks) m.l2p_table la q a source.content dest
            dest.logical_address (ground (arith, distinct, lookup-insert p q n m.blocks))
            (staled-IsSoundBut la p source m h mapped_at from).linked in
        rw (same_blocks, same_table) (unfold view in ground (arith, e₁, e₂, held_source, mapped_at))

  -- Moving a valid block to a free one keeps the invariant.
  pub moved-IsSound : IsSound (moved p source q dest m)
  moved-IsSound = let (la, at) = address in moved-IsSound_at la at

  pub moved-seen : (a : ℕ) → seen (moved p source q dest m) a ≡ seen m a
  moved-seen = let (la, at) = address in moved-seen_at la at

  -- The source is left invalid, and the wear of the valid blocks falls by the difference.
  pub moved-status : status (moved p source q dest m).blocks p ≡ some (invalid, none)
  unfolding status
  moved-status =
      ground (arith, lookup-insert p p (stale source) (insert q (copied source dest) m.blocks))

  pub moved-valid_wear :
      total valid_wear (moved p source q dest m).blocks + source.erase_count
      ≡ total valid_wear m.blocks + dest.erase_count
  moved-valid_wear = ground (
    arith,
    total-insert valid_wear q (copied source dest) m.blocks,
    total-insert valid_wear p (stale source) (insert q (copied source dest) m.blocks),
    lookup-insert q p (copied source dest) m.blocks,
    distinct,
  )

-- What the loop of `find_candidates` has found so far.
abbrev pub IsSource : Blocks → Candidate → Type 0
IsSource blocks none = Unit
IsSource blocks (some (p, n)) =
    (b : PhysicalBlock) × (lookup p blocks ≡ some b) × (b.state ≡ valid) × (b.erase_count ≡ n)

abbrev pub IsDest : Blocks → Candidate → Type 0
IsDest blocks none = Unit
IsDest blocks (some (p, n)) =
    (b : PhysicalBlock) × (lookup p blocks ≡ some b) × (b.state ≡ free) × (b.erase_count ≡ n)

more_worn-IsSource :
    (blocks : Blocks) (p : ℕ) (b : PhysicalBlock) (c : Candidate)
    → lookup p blocks ≡ some b
    → b.state ≡ valid
    → IsSource blocks c
    → IsSource blocks (more_worn p b c)
more_worn-IsSource blocks p b none k e h = (b, k, e, refl)
more_worn-IsSource blocks p b (some (q, n)) k e h = elim (Bool-cases (ltb n b.erase_count)) [
  | inl t ↦ rw t (b, k, e, refl)
  | inr t ↦ rw t h
]

less_worn-IsDest :
    (blocks : Blocks) (p : ℕ) (b : PhysicalBlock) (c : Candidate)
    → lookup p blocks ≡ some b
    → b.state ≡ free
    → IsDest blocks c
    → IsDest blocks (less_worn p b c)
less_worn-IsDest blocks p b none k e h = (b, k, e, refl)
less_worn-IsDest blocks p b (some (q, n)) k e h = elim (Bool-cases (ltb b.erase_count n)) [
  | inl t ↦ rw t (b, k, e, refl)
  | inr t ↦ rw t h
]

abbrev pub new_source : BlockState → ℕ → PhysicalBlock → Candidate → Candidate
new_source s p b c = elim s [ valid ↦ more_worn p b c | _ ↦ c ]

abbrev pub new_dest : BlockState → ℕ → PhysicalBlock → Candidate → Candidate
new_dest s p b c = elim s [ free ↦ less_worn p b c | _ ↦ c ]

new_source-IsSource :
    (blocks : Blocks) (s : BlockState) (p : ℕ) (b : PhysicalBlock) (c : Candidate)
    → b.state ≡ s
    → lookup p blocks ≡ some b
    → IsSource blocks c
    → IsSource blocks (new_source s p b c)
new_source-IsSource blocks valid p b c e k h = more_worn-IsSource blocks p b c k e h
new_source-IsSource blocks _ p b c e k h = h

new_dest-IsDest :
    (blocks : Blocks) (s : BlockState) (p : ℕ) (b : PhysicalBlock) (c : Candidate)
    → b.state ≡ s
    → lookup p blocks ≡ some b
    → IsDest blocks c
    → IsDest blocks (new_dest s p b c)
new_dest-IsDest blocks free p b c e k h = less_worn-IsDest blocks p b c k e h
new_dest-IsDest blocks _ p b c e k h = h

-- What the scan finds are a valid block and a free block, with their erase counts.
pub scan-IsSource :
    (blocks d : Blocks) (source dest : Candidate)
    → AllIn blocks d
    → IsSource blocks source
    → IsDest blocks dest
    → IsSource blocks (scan d source dest).0 × IsDest blocks (scan d source dest).1
unfolding scan
scan-IsSource blocks [] source dest a hs hd = (hs, hd)
scan-IsSource blocks ((p, b) ∷ d) source dest a hs hd =
    scan-IsSource blocks d (new_source b.state p b source) (new_dest b.state p b dest) a.1
      (new_source-IsSource blocks b.state p b source refl a.0 hs)
      (new_dest-IsDest blocks b.state p b dest refl a.0 hd)
