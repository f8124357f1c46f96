-- ===== src/Api/Snapshots.antt =====
-- api/routes/snapshots.py. The ids that uuid4 makes, the times and the formatted timestamp are
-- arguments.
use storage_appliance_archit.Base.{
  ℕ, Option, none, some, [], String, string_key, string_discrete, ok, Exec, ite,
}
use storage_appliance_archit.Base.Int.{ℤ}
use storage_appliance_archit.Base.Dict.{Dict, lookup}
use storage_appliance_archit.Api.Reply.{Reply, reply, http_error, reply_found, answer}
use storage_appliance_archit.Api.Volumes.{VolumeResponse, volume_to_response, deleted_or_404}
use storage_appliance_archit.Core.Snapshot.{Snapshot, SnapshotState}
use storage_appliance_archit.Core.Controller
use storage_appliance_archit.Core.Controller.{StorageController, on_snapshots}

pub record SnapshotResponse : Type 0 where
  pub id : String
  pub name : String
  pub volume_id : String
  pub volume_name : String
  pub size_bytes : ℕ
  pub used_bytes : ℤ
  pub state : SnapshotState
  pub description : String
  pub created_at : ℕ
  pub tags : Dict String String

abbrev pub snapshot_to_response : Snapshot String → SnapshotResponse
snapshot_to_response s = record {
  id = s.id;
  name = s.name;
  volume_id = s.volume_id;
  volume_name = s.volume_name;
  size_bytes = s.size_bytes;
  used_bytes = s.used_bytes;
  state = s.state;
  description = s.description;
  created_at = s.created_at;
  tags = s.tags;
}

-- The tags of the request are not passed on.
unfoldable pub create_snapshot :
    String
    → String
    → ℕ
    → String
    → Option String
    → String
    → Dict String String
    → Exec StorageController (Reply SnapshotResponse)
unfolding Controller.create_snapshot
create_snapshot volume_id id now timestamp name description tags c =
    answer (reply_found 201 404 snapshot_to_response)
      (Controller.create_snapshot volume_id id now timestamp name description [] c)

-- `if not snapshot or snapshot.volume_id != volume_id: raise HTTPException(404, ...)`, and the rest
-- of the handler
abbrev pub with_snapshot :
    {A : Type 0}
    → String
    → Option (Snapshot String)
    → (Snapshot String → Exec StorageController (Reply A))
    → Exec StorageController (Reply A)
with_snapshot volume_id none rest c = (ok (http_error 404), c)
with_snapshot volume_id (some s) rest c =
    ite (string_discrete s.volume_id volume_id) (rest s c) (ok (http_error 404), c)

unfoldable pub get_snapshot : String → String → Exec StorageController (Reply SnapshotResponse)
get_snapshot volume_id snapshot_id c =
    with_snapshot volume_id (lookup snapshot_id c.snapshot_manager.snapshots)
      (λ s d. (ok (reply 200 (snapshot_to_response s)), d)) c

unfoldable pub delete_snapshot : String → String → Exec StorageController (Reply (Unit {0}))
unfolding Controller.delete_snapshot
delete_snapshot volume_id snapshot_id c =
    with_snapshot volume_id (lookup snapshot_id c.snapshot_manager.snapshots)
      (λ s d. answer deleted_or_404 (Controller.delete_snapshot snapshot_id d)) c

unfoldable pub restore_snapshot :
    String → String → Option String → String → ℕ → Exec StorageController (Reply VolumeResponse)
unfolding Controller.restore_snapshot
restore_snapshot volume_id snapshot_id target_volume_id new_id now c =
    with_snapshot volume_id (lookup snapshot_id c.snapshot_manager.snapshots)
      (λ s d.
        answer (reply_found 200 500 volume_to_response)
          (Controller.restore_snapshot snapshot_id target_volume_id new_id now d))
      c
