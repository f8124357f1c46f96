-- ===== src/Core/SnapshotTests.antt =====
-- core/snapshot_manager.py: the theorems at inputs that meet their hypotheses.
use storage_appliance_archit.Base.{ℕ, ◌≡◌, refl, none, [], ◌∷◌, true, ok, nat_key, ℕ_discrete, ite}
use storage_appliance_archit.Base.Int.{pos}
use storage_appliance_archit.Base.Dict.{lookup, insert}
use storage_appliance_archit.Core.Volume.{VolumeBlock, Volume, available}
use storage_appliance_archit.Core.Snapshot.{
  Snapshot, SnapshotManager, new_manager, snapshot_of, create_snapshot, delete_snapshot,
}
use storage_appliance_archit.Core.SnapshotSound
use storage_appliance_archit.Core.SnapshotSound.{IsSound}

abbrev block : VolumeBlock
block = record { offset = 0; block_id = "b"; fingerprint = "f"; size = 4 }

abbrev volume : Volume ℕ
volume = record {
  id = 1;
  name = "data";
  size_bytes = 16;
  created_at = 0;
  updated_at = 0;
  state = available;
  description = "";
  blocks = (0, block) ∷ [];
  used_bytes = pos 4;
  logical_bytes = pos 4;
  physical_bytes = pos 4;
  tags = [];
}

abbrev start : SnapshotManager ℕ
start = new_manager

start-IsSound : IsSound start
unfolding new_manager lookup
start-IsSound = record { is_dict = tt; all = λ k s e. cc; counted = refl }

-- One snapshot of the volume, under the id 7.
abbrev manager : SnapshotManager ℕ
manager = (create_snapshot 7 0 "20240101" volume none "" [] start).1

manager-IsSound : IsSound manager
unfolding new_manager lookup
manager-IsSound =
    SnapshotSound.create_snapshot-IsSound 7 0 "20240101" volume none "" [] start refl start-IsSound

abbrev snapshot : Snapshot ℕ
snapshot = snapshot_of 7 0 "20240101" volume none "" []

delete_snapshot-deletes_example :
    (m' : SnapshotManager ℕ) × (delete_snapshot 7 manager ≡ (ok true, m'))
    × ((k : ℕ) → lookup k m'.snapshots ≡ ite (nat_key.dec 7 k) none (lookup k manager.snapshots))
    × IsSound m'
unfolding create_snapshot new_manager lookup insert ℕ_discrete
delete_snapshot-deletes_example =
    SnapshotSound.delete_snapshot-deletes 7 snapshot manager manager-IsSound refl
