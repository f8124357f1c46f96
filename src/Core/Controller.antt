-- ===== src/Core/Controller.antt =====
-- core/controller.py. The ids that uuid4 makes, the times, and a size in bytes, which the source
-- computes as a float, are arguments; sizes stay below 2 ^ 53, so that the float division and
-- product by 1024 ** 3 of a restore are exact. Calls run one after the other.
use storage_appliance_archit.Base.{
  true, false, ok, if◌then◌else◌, ℕ, ◌%◌, Option, none, some, [], ◌∷◌, Bool, false, not, ◌==◌,
  String, string_key, length, Exec, pure, gets, modify, raise_if, value_error, zero_division_error,
  ◌>>=◌, ◌>>◌, nat_key,
}
use Prim.Native.String.{◌++◌}
use storage_appliance_archit.Base.Dict.{Dict, insert}
use storage_appliance_archit.Purity.Wire.{Bytes}
use storage_appliance_archit.Purity.Tools.{Tools}
use storage_appliance_archit.Purity.Engine
use storage_appliance_archit.Purity.Engine.{
  PurityEngine, ReductionResult, reduce_and_store, retrieve,
}
use storage_appliance_archit.Flash.State.{Flash}
use storage_appliance_archit.Flash.Simulator
use storage_appliance_archit.Storage.Backend
use storage_appliance_archit.Core.Volume
use storage_appliance_archit.Core.Volume.{
  Volume, VolumeBlock, VolumeManager, get_volume, get_block, write_block, clone_volume, copy_blocks,
}
use storage_appliance_archit.Core.Snapshot
use storage_appliance_archit.Core.Snapshot.{Snapshot, SnapshotManager, get_snapshot}

pub record WriteResult : Type 0 where
  pub volume_id : String
  pub offset : ℕ
  pub size : ℕ
  pub reduction : ReductionResult

pub record ReadResult : Type 0 where
  pub volume_id : String
  pub offset : ℕ
  pub content : Bytes
  pub size : ℕ

pub record StorageController : Type 0 where
  pub default_block_size : ℕ
  pub purity : PurityEngine
  pub directflash : Flash
  pub volume_manager : VolumeManager String
  pub snapshot_manager : SnapshotManager String
  pub initialized : Bool

-- A call of each component's.
abbrev pub on_purity : {A : Type 0} → Exec PurityEngine A → Exec StorageController A
on_purity call c = let (r, p) = call c.purity in (r, record c { purity = p })

abbrev pub on_volumes : {A : Type 0} → Exec (VolumeManager String) A → Exec StorageController A
on_volumes call c = let (r, m) = call c.volume_manager in (r, record c { volume_manager = m })

abbrev pub on_snapshots : {A : Type 0} → Exec (SnapshotManager String) A → Exec StorageController A
on_snapshots call c = let (r, m) = call c.snapshot_manager in (r, record c { snapshot_manager = m })

abbrev pub on_flash : {A : Type 0} → Exec Flash A → Exec StorageController A
on_flash call c = let (r, f) = call c.directflash in (r, record c { directflash = f })

-- `if self._initialized: return`, and the rest of `initialize`
unfoldable pub initialize : Exec StorageController (Unit {0})
unfolding Backend.initialize Simulator.initialize
initialize c =
    if c.initialized
    then (ok tt, c)
    else (do
      on_purity (Engine.on_backend Backend.initialize)
      on_flash Simulator.initialize
      modify (λ d. record d { initialized = true }))
        c

unfoldable pub shutdown : Exec StorageController (Unit {0})
unfolding Backend.shutdown Simulator.shutdown
shutdown = do
  on_flash Simulator.shutdown
  on_purity (Engine.on_backend Backend.shutdown)
  modify (λ d. record d { initialized = false })

unfoldable pub create_volume :
    String → ℕ → String → ℕ → String → Dict String String → Exec StorageController (Volume String)
unfolding Volume.create_volume
create_volume id now name size description tags =
    on_volumes (Volume.create_volume id now name size description tags)

-- The loop of `delete_volume` over the blocks.
unfoldable pub delete_blocks : Dict ℕ VolumeBlock → Exec StorageController (Unit {0})
unfolding Engine.delete
delete_blocks [] = pure tt
delete_blocks ((_, b) ∷ blocks) = do
  on_purity (Engine.delete b.block_id b.fingerprint)
  delete_blocks blocks

abbrev pub delete_found : String → Option (Volume String) → Exec StorageController Bool
delete_found id none = pure false
delete_found id (some v) = do delete_blocks v.blocks; on_volumes (Volume.delete_volume id)

unfoldable pub delete_volume : String → Exec StorageController Bool
unfolding delete_blocks Volume.delete_volume get_volume
delete_volume id = do volume ← on_volumes (get_volume id); delete_found id volume

unfoldable pub clone :
    String → String → ℕ → String → String → Exec StorageController (Option (Volume String))
unfolding clone_volume
clone source_id id now name description =
    on_volumes (clone_volume source_id id now name description)

-- `write` to a volume that was found. The block's id is `block_id` if the data is new.
unfoldable pub write_found :
    Tools → String → ℕ → Bytes → String → ℕ → Exec StorageController (Option WriteResult)
unfolding reduce_and_store write_block
write_found tools volume_id offset content block_id now = do
  block_size ← gets (λ c. c.default_block_size)
  raise_if (block_size == 0) zero_division_error
  raise_if (not (offset % block_size == 0)) value_error
  reduction ← on_purity (reduce_and_store tools content block_id)
  on_volumes (
      write_block volume_id
        (record {
          offset = offset;
          block_id = reduction.block_id;
          fingerprint = reduction.dedupe_result.fingerprint;
          size = length content;
        })
        reduction.stored_size now)
  pure (
      some (record {
        volume_id = volume_id;
        offset = offset;
        size = length content;
        reduction = reduction;
      }))

unfoldable pub write :
    Tools → String → ℕ → Bytes → String → ℕ → Exec StorageController (Option WriteResult)
unfolding write_found get_volume
write tools volume_id offset content block_id now = do
  volume ← on_volumes (get_volume volume_id)
  elim volume [
    | none ↦ pure none
    | some v ↦ write_found tools volume_id offset content block_id now
  ]

-- `read` of a block that was found.
unfoldable pub read_found :
    Tools → String → ℕ → Option VolumeBlock → Exec StorageController (Option ReadResult)
unfolding retrieve
read_found tools volume_id offset none = pure none
read_found tools volume_id offset (some b) = do
  content ← on_purity (retrieve tools b.block_id)
  pure (
      some (record {
        volume_id = volume_id;
        offset = offset;
        content = content;
        size = length content;
      }))

unfoldable pub read : Tools → String → ℕ → Exec StorageController (Option ReadResult)
unfolding read_found get_volume get_block
read tools volume_id offset = do
  volume ← on_volumes (get_volume volume_id)
  elim volume [
    | none ↦ pure none
    | some v ↦ on_volumes (get_block volume_id offset) >>= read_found tools volume_id offset
  ]

unfoldable pub create_snapshot :
    String
    → String
    → ℕ
    → String
    → Option String
    → String
    → Dict String String
    → Exec StorageController (Option (Snapshot String))
unfolding get_volume Snapshot.create_snapshot
create_snapshot volume_id id now timestamp name description tags = do
  volume ← on_volumes (get_volume volume_id)
  elim volume [
    | none ↦ pure none
    | some v ↦ (do
      s ← on_snapshots (Snapshot.create_snapshot id now timestamp v name description tags)
      pure (some s))
  ]

unfoldable pub delete_snapshot : String → Exec StorageController Bool
unfolding get_snapshot Snapshot.delete_snapshot
delete_snapshot id = do
  snapshot ← on_snapshots (get_snapshot id)
  elim snapshot [ none ↦ pure false | some s ↦ on_snapshots (Snapshot.delete_snapshot id) ]

-- `volume.blocks = snapshot.blocks.copy()` and `volume.used_bytes = snapshot.used_bytes`
abbrev pub restored : Snapshot String → Volume String → Volume String
restored s v = record v { blocks = copy_blocks s.blocks []; used_bytes = s.used_bytes }

-- The volume that the manager files under `id` is changed in place.
abbrev pub restore_at :
    String → Snapshot String → Volume String → Exec StorageController (Option (Volume String))
restore_at id s v = do
  on_volumes (modify (λ m. record m { volumes = insert id (restored s v) m.volumes }))
  pure (some (restored s v))

-- A new volume from the snapshot, under `new_id`.
unfoldable pub restore_new :
    String → ℕ → Snapshot String → Exec StorageController (Option (Volume String))
unfolding create_volume copy_blocks
restore_new new_id now s = do
  v ←
      create_volume new_id now (s.volume_name ++ "-restored") s.size_bytes
        ("Restored from snapshot " ++ s.name) []
  restore_at new_id s v

-- `if volume_id: ...`, where the empty text counts as none
unfoldable pub restore_found :
    Option String → String → ℕ → Snapshot String → Exec StorageController (Option (Volume String))
unfolding restore_new get_volume copy_blocks
restore_found none new_id now s = restore_new new_id now s
restore_found (some String.[]) new_id now s = restore_new new_id now s
restore_found (some (String.◌∷◌ x id)) new_id now s = do
  volume ← on_volumes (get_volume (String.◌∷◌ x id))
  elim volume [ none ↦ pure none | some v ↦ restore_at (String.◌∷◌ x id) s v ]

unfoldable pub restore_snapshot :
    String → Option String → String → ℕ → Exec StorageController (Option (Volume String))
unfolding restore_found get_snapshot
restore_snapshot snapshot_id volume_id new_id now = do
  snapshot ← on_snapshots (get_snapshot snapshot_id)
  elim snapshot [ none ↦ pure none | some s ↦ restore_found volume_id new_id now s ]
