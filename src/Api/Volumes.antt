-- ===== src/Api/Volumes.antt =====
-- api/routes/volumes.py. The ids that uuid4 makes, the times, and the sizes in bytes that the code
-- computes as floats are arguments.
use storage_appliance_archit.Base.{
  ℕ, Option, none, some, String, string_key, Bool, ok, Exec, if◌then◌else◌,
}
use storage_appliance_archit.Base.Int.{ℤ}
use storage_appliance_archit.Base.Dict.{Dict}
use storage_appliance_archit.Purity.Tools.{Tools}
use storage_appliance_archit.Api.Reply.{
  Base64, Reply, reply, http_error, reply_found, answer, catch_value_error,
}
use storage_appliance_archit.Core.Volume
use storage_appliance_archit.Core.Volume.{Volume, VolumeState}
use storage_appliance_archit.Core.Controller
use storage_appliance_archit.Core.Controller.{
  StorageController, WriteResult, ReadResult, on_volumes,
}

pub record VolumeResponse : Type 0 where
  pub id : String
  pub name : String
  pub size_bytes : ℕ
  pub used_bytes : ℤ
  pub state : VolumeState
  pub description : String
  pub created_at : ℕ
  pub updated_at : ℕ
  pub tags : Dict String String

pub record WriteResponse : Type 0 where
  pub volume_id : String
  pub offset : ℕ
  pub size : ℕ
  pub was_deduplicated : Bool
  pub was_compressed : Bool

pub record ReadResponse : Type 0 where
  pub volume_id : String
  pub offset : ℕ
  pub size : ℕ
  pub encoded : String

abbrev pub volume_to_response : Volume String → VolumeResponse
volume_to_response v = record {
  id = v.id;
  name = v.name;
  size_bytes = v.size_bytes;
  used_bytes = v.used_bytes;
  state = v.state;
  description = v.description;
  created_at = v.created_at;
  updated_at = v.updated_at;
  tags = v.tags;
}

abbrev pub write_to_response : WriteResult → WriteResponse
write_to_response r = record {
  volume_id = r.volume_id;
  offset = r.offset;
  size = r.size;
  was_deduplicated = r.reduction.was_deduplicated;
  was_compressed = r.reduction.was_compressed;
}

abbrev pub read_to_response : Base64 → ReadResult → ReadResponse
read_to_response codec r = record {
  volume_id = r.volume_id;
  offset = r.offset;
  size = r.size;
  encoded = codec.b64encode r.content;
}

-- A volume or 404.
abbrev pub volume_or_404 : Option (Volume String) → Reply VolumeResponse
volume_or_404 = reply_found 200 404 volume_to_response

-- `if not await ...delete...: raise HTTPException(404, ...)`
abbrev pub deleted_or_404 : Bool → Reply (Unit {0})
deleted_or_404 done = if done then reply 204 tt else http_error 404

unfoldable pub create_volume :
    String
    → ℕ
    → String
    → ℕ
    → String
    → Dict String String
    → Exec StorageController (Reply VolumeResponse)
unfolding Controller.create_volume
create_volume id now name size description tags c =
    answer (λ v. reply 201 (volume_to_response v))
      (Controller.create_volume id now name size description tags c)

unfoldable pub get_volume : String → Exec StorageController (Reply VolumeResponse)
unfolding Volume.get_volume
get_volume id c = answer volume_or_404 (on_volumes (Volume.get_volume id) c)

unfoldable pub update_volume :
    String
    → Option String
    → Option String
    → Option (Dict String String)
    → ℕ
    → Exec StorageController (Reply VolumeResponse)
unfolding Volume.update_volume
update_volume id name description tags now c =
    answer volume_or_404 (on_volumes (Volume.update_volume id name description tags now) c)

unfoldable pub delete_volume : String → Exec StorageController (Reply (Unit {0}))
unfolding Controller.delete_volume
delete_volume id c = answer deleted_or_404 (Controller.delete_volume id c)

unfoldable pub resize_volume : String → ℕ → ℕ → Exec StorageController (Reply VolumeResponse)
unfolding Volume.resize_volume
resize_volume id size now c =
    catch_value_error (answer volume_or_404 (on_volumes (Volume.resize_volume id size now) c))

unfoldable pub clone_volume :
    String → String → ℕ → String → String → Exec StorageController (Reply VolumeResponse)
unfolding Controller.clone
clone_volume source_id id now name description c =
    answer volume_or_404 (Controller.clone source_id id now name description c)

unfoldable pub write_data :
    Tools → Base64 → String → ℕ → String → String → ℕ → Exec StorageController (Reply WriteResponse)
unfolding Controller.write
write_data tools codec volume_id offset encoded block_id now c = elim (codec.b64decode encoded) [
  | none ↦ (ok (http_error 400), c)
  | some content ↦ catch_value_error (
      answer (reply_found 200 404 write_to_response)
        (Controller.write tools volume_id offset content block_id now c))
]

unfoldable pub read_data : Tools → Base64 → String → ℕ → Exec StorageController (Reply ReadResponse)
unfolding Controller.read
read_data tools codec volume_id offset c =
    answer (reply_found 200 404 (read_to_response codec)) (Controller.read tools volume_id offset c)
