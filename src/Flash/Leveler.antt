-- ===== src/Flash/Leveler.antt =====
-- directflash/wear_leveling.py.
use storage_appliance_archit.Base.{
  nat_key, ℕ, zero, suc, ◌+◌, ◌*◌, ◌/◌, Option, none, some, [], ◌∷◌, Bool, true, false,
  if◌then◌else◌, ltb, discard, ok, Exec, pure, gets, ◌>>=◌, ◌>>◌,
}
use storage_appliance_archit.Base.Int.{pos, ◌+ℤ◌, ◌-ℤ◌}
use storage_appliance_archit.Base.Dict.{Dict, lookup, insert, total}
use storage_appliance_archit.Flash.Block.{
  free, valid, PhysicalBlock, BlockManager, stale, erase_block,
}
use storage_appliance_archit.Flash.Report.{get_stats}
use storage_appliance_archit.Flash.Sound.{valid_wear}
use storage_appliance_archit.Flash.State.{Flash, on_manager}

abbrev pub write_count : ℕ → Dict ℕ ℕ → ℕ
write_count la counts = elim (lookup la counts) [ none ↦ 0 | some n ↦ n ]

unfoldable pub record_write : ℕ → Exec Flash (Unit {0})
record_write la s = (
  ok tt,
  record s {
    leveling = record s.leveling {
      write_counts = insert la (write_count la s.leveling.write_counts + 1) s.leveling.write_counts;
    };
  },
)

unfoldable pub is_hot_data : ℕ → ℕ → Exec Flash Bool
is_hot_data la threshold = gets (λ s. ltb threshold (write_count la s.leveling.write_counts))

-- `(max_erase - min_erase) > self.threshold`, without the subtraction.
unfoldable pub should_level : Exec Flash Bool
unfolding get_stats
should_level s =
    (do
      report ← on_manager get_stats
      pure (ltb (report.min_erase_count + s.leveling.threshold) report.max_erase_count))
      s

-- A candidate of the loop: a block and its erase count. `none` stands for `(None, -1)` and for
-- `(None, inf)`.
abbrev pub Candidate : Type 0
Candidate = Option (ℕ × ℕ)

abbrev pub more_worn : ℕ → PhysicalBlock → Candidate → Candidate
more_worn p b none = some (p, b.erase_count)
more_worn p b (some (q, n)) = if ltb n b.erase_count then some (p, b.erase_count) else some (q, n)

abbrev pub less_worn : ℕ → PhysicalBlock → Candidate → Candidate
less_worn p b none = some (p, b.erase_count)
less_worn p b (some (q, n)) = if ltb b.erase_count n then some (p, b.erase_count) else some (q, n)

-- The most worn valid block and the least worn free block of the dictionary.
unfoldable pub scan : Dict ℕ PhysicalBlock → Candidate → Candidate → Candidate × Candidate
scan [] source dest = (source, dest)
scan ((p, b) ∷ d) source dest =
    scan d (elim b.state [ valid ↦ more_worn p b source | _ ↦ source ])
      (elim b.state [ free ↦ less_worn p b dest | _ ↦ dest ])

-- `(max_erase - min_erase) > self.threshold`
abbrev pub far_apart : ℕ → Candidate → Candidate → Option (ℕ × ℕ)
far_apart threshold none dest = none
far_apart threshold (some source) none = none
far_apart threshold (some (p, high)) (some (q, low)) =
    if ltb (low + threshold) high then some (p, q) else none

unfoldable pub find_candidates : Exec Flash (Option (ℕ × ℕ))
unfolding scan
find_candidates s =
    let found = scan s.manager.blocks none none in
    (ok (far_apart s.leveling.threshold found.0 found.1), s)

abbrev pub copied : PhysicalBlock → PhysicalBlock → PhysicalBlock
copied source dest = record dest {
  content = source.content;
  state = valid;
  logical_address = source.logical_address;
}

-- `if source.logical_address is not None: self._l2p_table[...] = dest_id`
abbrev pub remap : Option ℕ → ℕ → Dict ℕ ℕ → Dict ℕ ℕ
remap none q l2p = l2p
remap (some la) q l2p = insert la q l2p

-- The manager after the content of the block `p` has moved to the block `q`.
abbrev pub moved : ℕ → PhysicalBlock → ℕ → PhysicalBlock → BlockManager → BlockManager
moved p source q dest m = record m {
  blocks = insert p (stale source) (insert q (copied source dest) m.blocks);
  l2p_table = remap source.logical_address q m.l2p_table;
  free_pool = discard q m.free_pool;
  stats = record m.stats {
    free_blocks = m.stats.free_blocks -ℤ pos 1;
    invalid_blocks = m.stats.invalid_blocks +ℤ pos 1;
  };
}

abbrev pub count_move : Flash → Flash
count_move s = record s {
  leveling = record s.leveling {
    stats = record s.leveling.stats { blocks_moved = s.leveling.stats.blocks_moved + 1 };
  };
}

-- The test of the two states in `level_block`.
abbrev pub is_move : PhysicalBlock → PhysicalBlock → Bool
is_move source dest = elim source.state [
  | valid ↦ elim dest.state [ free ↦ true | _ ↦ false ]
  | _ ↦ false
]

unfoldable pub level_block : ℕ → ℕ → Exec Flash Bool
level_block p q s = elim (lookup p s.manager.blocks) [
  | none ↦ (ok false, s)
  | some source ↦ elim (lookup q s.manager.blocks) [
    | none ↦ (ok false, s)
    | some dest ↦
        if is_move source dest
        then (ok true, count_move (record s { manager = moved p source q dest s.manager }))
        else (ok false, s)
  ]
]

-- The body of the `while True` loop; `again` is the next round.
unfoldable pub level_and_go : Exec Flash (Option ℕ) → ℕ → Option (ℕ × ℕ) → Exec Flash (Option ℕ)
unfolding level_block
level_and_go again n none = pure (some n)
level_and_go again n (some (p, q)) = do
  done ← level_block p q
  (if done then (on_manager (erase_block p) >> again) else pure (some n))

-- The loop, on fuel; `none` means that the fuel ran out.
unfoldable pub leveling_loop : ℕ → ℕ → Exec Flash (Option ℕ)
unfolding find_candidates level_and_go
leveling_loop zero n s = (ok none, s)
leveling_loop (suc fuel) n s =
    (do found ← find_candidates; level_and_go (leveling_loop fuel (n + 1)) n found) s

-- The fuel is one more than the wear of the valid blocks.
unfoldable pub run_leveling_pass : Exec Flash (Option ℕ)
unfolding should_level leveling_loop
run_leveling_pass s =
    (do
      needed ← should_level
      (if needed then leveling_loop (suc (total valid_wear s.manager.blocks)) 0 else pure (some 0)))
      s

-- One more block in its bucket of 100 erasures.
unfoldable pub count_bucket : Dict ℕ PhysicalBlock → Dict ℕ ℕ → Dict ℕ ℕ
count_bucket [] distribution = distribution
count_bucket ((_, b) ∷ d) distribution =
    let bucket = b.erase_count / 100 * 100 in
    count_bucket d (insert bucket (write_count bucket distribution + 1) distribution)
