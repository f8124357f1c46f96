-- ===== src/Flash/Block.antt =====
-- directflash/block_manager.py: physical blocks, the logical-to-physical table and the pool of
-- free blocks. Every method runs under the manager's lock, so it is one step on the state.
use storage_appliance_archit.Base.{
  ℕ, ◌+◌, ◌/◌, Bool, true, false, Option, none, some, List, [], ◌∷◌, map, ltb, leb, if◌then◌else◌,
  length, add, discard, range, nat_key, Result, ok, raise, value_error, key_error, Exec, pure, lift,
  gets, or_key_error, modify, raise_if, ◌>>=◌, ◌>>◌,
}
use storage_appliance_archit.Base.Int.{ℤ, pos, ◌+ℤ◌, ◌-ℤ◌}
use storage_appliance_archit.Base.Dict.{Dict, lookup, insert, erase}

pub data BlockState : Type 0 where
  free valid invalid bad : BlockState

abbrev pub Bytes : Type 0
Bytes = List ℕ

pub record PhysicalBlock : Type 0 where
  pub block_id : ℕ
  pub state : BlockState
  pub erase_count : ℕ
  pub content : Bytes
  pub logical_address : Option ℕ

-- The counters that the code decrements are signed.
pub record BlockManagerStats : Type 0 where
  pub total_blocks : ℕ
  pub free_blocks : ℤ
  pub valid_blocks : ℤ
  pub invalid_blocks : ℤ
  pub bad_blocks : ℕ
  pub total_writes : ℕ
  pub total_reads : ℕ
  pub total_erases : ℕ

pub record BlockManager : Type 0 where
  pub total_blocks : ℕ
  pub block_size : ℕ
  pub page_size : ℕ
  pub pages_per_block : ℕ
  pub max_erase_count : ℕ
  pub blocks : Dict ℕ PhysicalBlock
  pub l2p_table : Dict ℕ ℕ
  pub free_pool : List ℕ
  pub stats : BlockManagerStats

abbrev pub fresh_block : ℕ → PhysicalBlock
fresh_block i = record {
  block_id = i;
  state = free;
  erase_count = 0;
  content = [];
  logical_address = none;
}

abbrev pub fresh_stats : ℕ → BlockManagerStats
fresh_stats n = record {
  total_blocks = n;
  free_blocks = pos n;
  valid_blocks = pos 0;
  invalid_blocks = pos 0;
  bad_blocks = 0;
  total_writes = 0;
  total_reads = 0;
  total_erases = 0;
}

abbrev pub fresh_blocks : List ℕ → Dict ℕ PhysicalBlock
fresh_blocks ids = map (λ i. (i, fresh_block i)) ids

-- `__init__`. The order in which the dictionary lists the blocks is that of `range`.
unfoldable pub new_manager : ℕ → ℕ → ℕ → ℕ → BlockManager
new_manager total_blocks block_size page_size max_erase_count = record {
  total_blocks = total_blocks;
  block_size = block_size;
  page_size = page_size;
  pages_per_block = block_size / page_size;
  max_erase_count = max_erase_count;
  blocks = fresh_blocks (range total_blocks);
  l2p_table = [];
  free_pool = range total_blocks;
  stats = fresh_stats total_blocks;
}

-- The loop of `min(self._free_blocks, key=...)`: the best block so far, with its erase count.
unfoldable pub least_worn_from : Dict ℕ PhysicalBlock → ℕ → ℕ → List ℕ → Result ℕ
least_worn_from blocks best count [] = ok best
least_worn_from blocks best count (b ∷ bs) = elim (lookup b blocks) [
  | none ↦ raise key_error
  | some block ↦
      let closer = ltb block.erase_count count in
      least_worn_from blocks (if closer then b else best)
        (if closer then block.erase_count else count) bs
]

-- `min(self._free_blocks, key=lambda b: self._blocks[b].erase_count)`, on a pool `b ∷ bs`.
unfoldable pub least_worn : Dict ℕ PhysicalBlock → ℕ → List ℕ → Result ℕ
unfolding least_worn_from
least_worn blocks b bs = elim (lookup b blocks) [
  | none ↦ raise key_error
  | some block ↦ least_worn_from blocks b block.erase_count bs
]

abbrev pub take_from_pool : ℕ → BlockManager → BlockManager
take_from_pool p m = record m {
  free_pool = discard p m.free_pool;
  stats = record m.stats { free_blocks = m.stats.free_blocks -ℤ pos 1 };
}

unfoldable pub allocate_block : Exec BlockManager (Option ℕ)
unfolding least_worn
allocate_block m = elim m.free_pool [
  | [] ↦ (ok none, m)
  | b ∷ bs ↦ (do p ← lift (least_worn m.blocks b bs); modify (take_from_pool p); pure (some p)) m
]

-- The counters of a block that turns from valid to invalid.
abbrev pub one_stale : BlockManagerStats → BlockManagerStats
one_stale s = record s {
  valid_blocks = s.valid_blocks -ℤ pos 1;
  invalid_blocks = s.invalid_blocks +ℤ pos 1;
}

abbrev pub stale : PhysicalBlock → PhysicalBlock
stale block = record block { state = invalid; logical_address = none }

-- The first part of `write_block`: invalidate the block that holds the address so far.
unfoldable pub invalidate_old : ℕ → Exec BlockManager (Unit {0})
invalidate_old la m = elim (lookup la m.l2p_table) [
  | none ↦ (ok tt, m)
  | some old ↦
      (do
        block ← or_key_error (lookup old m.blocks)
        modify (λ n. record n {
          blocks = insert old (stale block) n.blocks;
          stats = one_stale n.stats;
        }))
        m
]

abbrev pub programmed : ℕ → Bytes → PhysicalBlock → PhysicalBlock
programmed la content block = record block {
  content = content;
  state = valid;
  logical_address = some la;
}

-- The pool, the block, the table and the counters after a write to the block `p`.
abbrev pub store : ℕ → Bytes → ℕ → PhysicalBlock → BlockManager → BlockManager
store la content p block m = record m {
  free_pool = discard p m.free_pool;
  blocks = insert p (programmed la content block) m.blocks;
  l2p_table = insert la p m.l2p_table;
  stats = record m.stats {
    free_blocks = m.stats.free_blocks -ℤ pos 1;
    valid_blocks = m.stats.valid_blocks +ℤ pos 1;
    total_writes = m.stats.total_writes + 1;
  };
}

-- The second part of `write_block`: allocate and program a block. `none` stands for `(-1, False)`
-- and `some p` for `(p, True)`.
unfoldable pub program_block : ℕ → Bytes → Exec BlockManager (Option ℕ)
unfolding least_worn
program_block la content m = elim m.free_pool [
  | [] ↦ (ok none, m)
  | b ∷ bs ↦
      (do
        p ← lift (least_worn m.blocks b bs)
        block ← or_key_error (lookup p m.blocks)
        modify (store la content p block)
        pure (some p))
        m
]

unfoldable pub write_block : ℕ → Bytes → Exec BlockManager (Option ℕ)
unfolding invalidate_old program_block
write_block la content m =
    (do
      raise_if (ltb m.block_size (length content)) value_error
      invalidate_old la
      program_block la content)
      m

abbrev pub count_read : BlockManager → BlockManager
count_read m = record m { stats = record m.stats { total_reads = m.stats.total_reads + 1 } }

-- The test of the state in `read_block`.
abbrev pub read_content : PhysicalBlock → Exec BlockManager (Option Bytes)
read_content block m = elim block.state [
  | valid ↦ (ok (some block.content), count_read m)
  | _ ↦ (ok none, m)
]

unfoldable pub read_block : ℕ → Exec BlockManager (Option Bytes)
read_block la m = elim (lookup la m.l2p_table) [
  | none ↦ (ok none, m)
  | some p ↦ (do block ← or_key_error (lookup p m.blocks); read_content block) m
]

unfoldable pub delete_block : ℕ → Exec BlockManager Bool
delete_block la m = elim (lookup la m.l2p_table) [
  | none ↦ (ok false, m)
  | some p ↦
      (do
        block ← or_key_error (lookup p m.blocks)
        modify (λ n. record n {
          blocks = insert p (stale block) n.blocks;
          l2p_table = erase la n.l2p_table;
          stats = one_stale n.stats;
        })
        pure true)
        m
]

abbrev pub wiped : PhysicalBlock → PhysicalBlock
wiped block = record block {
  erase_count = block.erase_count + 1;
  content = [];
  state = free;
  logical_address = none;
}

abbrev pub worn_out : PhysicalBlock → PhysicalBlock
worn_out block = record block { erase_count = block.erase_count + 1; state = bad }

-- The branch of `erase_block` for a block that is not bad. The counter of invalid blocks stays:
-- the code compares the state with INVALID after it has overwritten it.
unfoldable pub erase_usable : ℕ → PhysicalBlock → Exec BlockManager Bool
erase_usable p block m =
    if leb m.max_erase_count (block.erase_count + 1)
    then (
      ok false,
      record m {
        blocks = insert p (worn_out block) m.blocks;
        stats = record m.stats { bad_blocks = m.stats.bad_blocks + 1 };
      },
    )
    else (
      ok true,
      record m {
        blocks = insert p (wiped block) m.blocks;
        free_pool = add p m.free_pool;
        stats = record m.stats {
          free_blocks = m.stats.free_blocks +ℤ pos 1;
          total_erases = m.stats.total_erases + 1;
        };
      },
    )

unfoldable pub erase_block : ℕ → Exec BlockManager Bool
unfolding erase_usable
erase_block p m = elim (lookup p m.blocks) [
  | none ↦ (ok false, m)
  | some block ↦ elim block.state [ bad ↦ (ok false, m) | _ ↦ erase_usable p block m ]
]

-- The ids of the blocks in a state, in the order of the dictionary.
unfoldable pub invalid_ids : Dict ℕ PhysicalBlock → List ℕ
invalid_ids [] = []
invalid_ids ((i, block) ∷ d) = elim block.state [ invalid ↦ i ∷ invalid_ids d | _ ↦ invalid_ids d ]

unfoldable pub get_invalid_blocks : Exec BlockManager (List ℕ)
unfolding invalid_ids
get_invalid_blocks = gets (λ m. invalid_ids m.blocks)

unfoldable pub get_block_info : ℕ → Exec BlockManager (Option PhysicalBlock)
get_block_info p = gets (λ m. lookup p m.blocks)
