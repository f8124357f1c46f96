-- ===== src/Flash/State.antt =====
-- The objects that directflash/simulator.py builds over one block manager: the garbage collector
-- of garbage_collection.py, the wear leveling of wear_leveling.py and the simulator itself. They
-- share the manager, so that the state is one record.
use storage_appliance_archit.Base.{ℕ, Bool, Exec}
use storage_appliance_archit.Base.Dict.{Dict}
use storage_appliance_archit.Base.Ratio.{Ratio}
use storage_appliance_archit.Flash.Block.{BlockManager}

pub data GcState : Type 0 where
  idle running stopped : GcState

pub record GcStats : Type 0 where
  pub gc_runs : ℕ
  pub blocks_reclaimed : ℕ
  pub pages_migrated : ℕ
  pub bytes_reclaimed : ℕ

-- `has_task` says whether `_gc_task` is set.
pub record GarbageCollector : Type 0 where
  pub gc_threshold : Ratio
  pub gc_target : Ratio
  pub state : GcState
  pub stats : GcStats
  pub has_task : Bool

pub data WearLevelingStrategy : Type 0 where
  dynamic static : WearLevelingStrategy

-- `wear_variance` is never written; it is left out.
pub record WearLevelingStats : Type 0 where
  pub blocks_moved : ℕ
  pub hot_to_cold_moves : ℕ
  pub cold_to_hot_moves : ℕ

pub record WearLeveling : Type 0 where
  pub strategy : WearLevelingStrategy
  pub threshold : ℕ
  pub stats : WearLevelingStats
  pub write_counts : Dict ℕ ℕ

pub record Flash : Type 0 where
  pub manager : BlockManager
  pub leveling : WearLeveling
  pub collector : GarbageCollector
  pub initialized : Bool
  pub next_logical_address : ℕ

-- A method of the block manager, called from one of its clients.
abbrev pub on_manager : {A : Type 0} → Exec BlockManager A → Exec Flash A
on_manager f s = let (r, m) = f s.manager in (r, record s { manager = m })
