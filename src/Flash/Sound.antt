-- ===== src/Flash/Sound.antt =====
-- directflash/block_manager.py: the invariant of the block manager.
use storage_appliance_archit.Base.{
  ℕ, ◌≡◌, Option, none, some, true, arith, contains, nat_key, length, IsSimple,
}
use storage_appliance_archit.Base.Int.{pos, ◌≤ℤ◌}
use storage_appliance_archit.Base.Dict.{lookup, total, weight, IsDict}
use storage_appliance_archit.Flash.Block.{free, valid, invalid, bad, PhysicalBlock, BlockManager}
use storage_appliance_archit.Flash.Links.{Blocks, status, IsLinked, IsPool}

abbrev pub one_valid : PhysicalBlock → ℕ
one_valid b = elim b.state [ valid ↦ 1 | _ ↦ 0 ]

abbrev pub one_bad : PhysicalBlock → ℕ
one_bad b = elim b.state [ bad ↦ 1 | _ ↦ 0 ]

abbrev pub one_invalid : PhysicalBlock → ℕ
one_invalid b = elim b.state [ invalid ↦ 1 | _ ↦ 0 ]

-- The wear of the blocks that are valid.
abbrev pub valid_wear : PhysicalBlock → ℕ
valid_wear b = elim b.state [ valid ↦ b.erase_count | _ ↦ 0 ]

-- Between the two parts of `write_block` the table still maps the address `x` whose block has been
-- invalidated; at all other times `x` is `none`.
pub record IsSoundBut (x : Option ℕ) (m : BlockManager) : Type 0 where
  pub linked : IsLinked x m.blocks m.l2p_table
  pub pool : IsPool m.blocks m.free_pool
  pub keyed : IsDict m.blocks
  pub tabled : IsDict m.l2p_table
  pub simple : IsSimple m.free_pool
  -- The pool misses no free block.
  pub unreserved :
      (p : ℕ) (o : Option ℕ) → status m.blocks p ≡ some (free, o) → contains p m.free_pool ≡ true
  pub free_counted : m.stats.free_blocks ≡ pos (length m.free_pool)
  pub valid_counted : m.stats.valid_blocks ≡ pos (total one_valid m.blocks)
  pub bad_counted : m.stats.bad_blocks ≡ total one_bad m.blocks
  -- The counter of invalid blocks is never lowered when a block is erased.
  pub invalid_bounded : pos (total one_invalid m.blocks) ≤ℤ m.stats.invalid_blocks

abbrev pub IsSound : BlockManager → Type 0
IsSound m = IsSoundBut none m

-- The weight of one block, read off its status.
pub weight_of_status :
    (w : PhysicalBlock → ℕ) (blocks : Blocks) (p : ℕ) (b : PhysicalBlock)
    → lookup p blocks ≡ some b
    → weight w (lookup p blocks) ≡ w b
weight_of_status w blocks p b e = ground arith

-- The numbers of blocks that two managers were built with are the same.
abbrev pub SameTotals : BlockManager → BlockManager → Type 0
SameTotals m m' =
    (m'.total_blocks ≡ m.total_blocks) × (m'.stats.total_blocks ≡ m.stats.total_blocks)
