-- ===== src/Api/RoundTrip.antt =====
-- api/routes/volumes.py: what a client writes is what it reads.
use storage_appliance_archit.Base.{
  ℕ, ◌+◌, ◌%◌, ◌≤◌, ◌≡◌, ◌≢◌, refl, ap, Option, none, some, String, string_key, length, arith,
  Result, ok, raise,
}
use storage_appliance_archit.Base.Dict.{lookup}
use storage_appliance_archit.Purity.Wire.{Bytes}
use storage_appliance_archit.Purity.Tools.{Tools, IsLossless}
use storage_appliance_archit.Purity.EngineStages.{IsPlain}
use storage_appliance_archit.Purity.EngineTrip.{IsSound, IsCollisionFree}
use storage_appliance_archit.Storage.BackendSound.{view}
use storage_appliance_archit.Core.Volume.{Volume}
use storage_appliance_archit.Core.Controller.{StorageController, ReadResult, WriteResult}
use storage_appliance_archit.Core.Controller
use storage_appliance_archit.Core.ControllerTrip.{Written, write-Written, seen, content_of}
use storage_appliance_archit.Api.Reply.{Base64, IsInverse, reply}
use storage_appliance_archit.Api.Volumes.{
  WriteResponse, ReadResponse, write_to_response, read_to_response, write_data, read_data,
}

content_found :
    (o : Result (Option ReadResult)) (d : Bytes)
    → content_of o ≡ ok (some d)
    → (r : ReadResult) × (o ≡ ok (some r)) × (r.content ≡ d)
content_found (raise e) d q = absurd (ground arith)
content_found (ok none) d q = absurd (ground arith)
content_found (ok (some r)) d q = (r, refl, ground arith)

-- Where base64 decoding undoes encoding, `write_data` of encoded data answers with 200 under the
-- conditions of a write that succeeds, and `read_data` at the same offset then answers with 200
-- and the same encoding; all data that was read at another offset or from another volume is
-- still read.
pub write_data-read_data :
    (tools : Tools) (codec : Base64) (id : String) (offset : ℕ) (content : Bytes)
    (c : StorageController) (l : IsLossless tools) (free : IsCollisionFree tools)
    (inverse : IsInverse codec) (block_id : String) (now : ℕ) (v : Volume String)
    → IsSound tools c.purity
    → IsPlain c.purity.pattern_removal content
    → view c.purity.backend block_id ≡ none
    → lookup id c.volume_manager.volumes ≡ some v
    → c.default_block_size ≢ 0
    → offset % c.default_block_size ≡ 0
    → offset + length content ≤ v.size_bytes
    → (w : WriteResponse) × (r : ReadResponse) × (after : StorageController) × (write_data tools
          codec id offset
          (codec.b64encode content)
          block_id
          now
          c
        ≡ (ok (reply 200 w), after))
      × ((read_data tools codec id offset after).0 ≡ ok (reply 200 r))
      × (r.encoded ≡ codec.b64encode content)
      × Written tools id offset content c after
unfolding write_data read_data seen
write_data-read_data tools codec id offset content c l free inverse block_id now v h plain fresh e
      size aligned fits =
    let (w, after, run, wr) =
      write-Written tools id offset content c l free block_id now v h plain fresh e size aligned
        fits in
    let (r, found, same) =
      content_found (Controller.read tools id offset after).0 content wr.back in
    let decodes = inverse.decodes content in
    (
      write_to_response w,
      read_to_response codec r,
      after,
      ground arith,
      ground arith,
      ap codec.b64encode same,
      wr,
    )
