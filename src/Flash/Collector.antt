-- ===== src/Flash/Collector.antt =====
-- directflash/garbage_collection.py. A cycle is run from its first lock to its last with no other
-- task between; `stop_background_gc` from another task is `stop_background_gc`, before or after.
use storage_appliance_archit.Base.{
  ℕ, ◌+◌, Option, none, some, List, [], ◌∷◌, Bool, true, false, if◌then◌else◌, ltb, ok, Exec, pure,
  modify, ◌>>=◌, ◌>>◌,
}
use storage_appliance_archit.Base.Int.{pos, ◌-ℤ◌}
use storage_appliance_archit.Base.Ratio.{Ratio, leb_Ratio}
use storage_appliance_archit.Flash.Block.{
  invalid, PhysicalBlock, erase_block, get_invalid_blocks, get_block_info,
}
use storage_appliance_archit.Flash.Report.{get_stats, BlockReport}
use storage_appliance_archit.Flash.State.{GcState, idle, running, stopped, Flash, on_manager}

-- `(total - free) / total if total > 0 else 0.0`
abbrev pub used_share : BlockReport → Ratio
used_share r =
    if ltb 0 r.stats.total_blocks
    then record {
      num = pos r.stats.total_blocks -ℤ r.stats.free_blocks;
      den = r.stats.total_blocks;
    }
    else record { num = pos 0; den = 1 }

unfoldable pub get_utilization : Exec Flash Ratio
unfolding get_stats
get_utilization = do report ← on_manager get_stats; pure (used_share report)

-- `utilization >= self.gc_threshold`
unfoldable pub should_run : Exec Flash Bool
unfolding get_utilization
should_run s =
    (do utilization ← get_utilization; pure (leb_Ratio s.collector.gc_threshold utilization)) s

abbrev pub set_state : GcState → Flash → Flash
set_state g s = record s { collector = record s.collector { state = g } }

abbrev pub count_reclaimed : Flash → Flash
count_reclaimed s = record s {
  collector = record s.collector {
    stats = record s.collector.stats {
      blocks_reclaimed = s.collector.stats.blocks_reclaimed + 1;
      bytes_reclaimed = s.collector.stats.bytes_reclaimed + s.manager.block_size;
    };
  };
}

-- The body of `if block and block.state == INVALID`; the number of reclaimed blocks.
unfoldable pub erase_if_invalid : ℕ → ℕ → Option PhysicalBlock → Exec Flash ℕ
erase_if_invalid p n none s = (ok n, s)
erase_if_invalid p n (some block) s = elim block.state [
  | invalid ↦
      (do
        done ← on_manager (erase_block p)
        (if done then (modify count_reclaimed >> pure (n + 1)) else pure n))
        s
  | _ ↦ (ok n, s)
]

unfoldable pub reclaim : ℕ → ℕ → Exec Flash ℕ
unfolding get_block_info erase_if_invalid
reclaim p n = do info ← on_manager (get_block_info p); erase_if_invalid p n info

-- The loop over the invalid blocks; it ends early when the target is reached.
unfoldable pub sweep : List ℕ → ℕ → Exec Flash ℕ
unfolding reclaim get_utilization
sweep [] n s = (ok n, s)
sweep (p ∷ ps) n s = elim s.collector.state [
  | stopped ↦ (ok n, s)
  | _ ↦
      (do
        n' ← reclaim p n
        utilization ← get_utilization
        (if leb_Ratio utilization s.collector.gc_target then pure n' else sweep ps n'))
        s
]

abbrev pub finish_cycle : Flash → Flash
finish_cycle s = record s {
  collector = record s.collector {
    stats = record s.collector.stats { gc_runs = s.collector.stats.gc_runs + 1 };
    state = elim s.collector.state [ stopped ↦ stopped | _ ↦ idle ];
  };
}

unfoldable pub run_gc_cycle : Exec Flash ℕ
unfolding get_invalid_blocks sweep
run_gc_cycle s = elim s.collector.state [
  | stopped ↦ (ok 0, s)
  | _ ↦
      (do
        modify (set_state running)
        ids ← on_manager get_invalid_blocks
        reclaimed ← sweep ids 0
        modify finish_cycle
        pure reclaimed)
        s
]

-- `trigger_gc`
abbrev pub trigger_gc : Exec Flash ℕ
trigger_gc = run_gc_cycle

-- `start_background_gc`: the task that it creates is a sequence of `background_round` steps.
unfoldable pub start_background_gc : Exec Flash (Unit {0})
start_background_gc s =
    if s.collector.has_task
    then (ok tt, s)
    else (ok tt, record s { collector = record s.collector { state = idle; has_task = true } })

-- `stop_background_gc`
unfoldable pub stop_background_gc : Exec Flash (Unit {0})
stop_background_gc s =
    (ok tt, record s { collector = record s.collector { state = stopped; has_task = false } })

-- One round of `gc_loop`.
unfoldable pub background_round : Exec Flash (Unit {0})
unfolding should_run
background_round s = elim s.collector.state [
  | stopped ↦ (ok tt, s)
  | _ ↦ (do needed ← should_run; (if needed then (run_gc_cycle >> pure tt) else pure tt)) s
]
