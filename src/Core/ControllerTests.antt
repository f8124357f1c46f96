-- ===== src/Core/ControllerTests.antt =====
-- core/controller.py: a controller with one volume, and the theorems at inputs that meet their
-- hypotheses.
use storage_appliance_archit.Base.{
  ◌≡◌, ◌≢◌, refl, some, ap, sym, subst, key_error, [], ◌∷◌, String, string_discrete, string_key,
  arith, suc, ok, raise, value_error, nat_key, ℕ_discrete,
}
use storage_appliance_archit.Base.Int.{◌+ℤ◌, ◌-ℤ◌}
use storage_appliance_archit.Base.Dict.{lookup, insert, erase}
use storage_appliance_archit.Purity.Wire.{starts_with, same_bytes, all_equal, byte_at, to_bytes}
use storage_appliance_archit.Purity.Pattern.{encode, decode, is_encoded}
use storage_appliance_archit.Purity.Compression.{compress, decompress}
use storage_appliance_archit.Purity.Dedup.{new_engine}
use storage_appliance_archit.Purity.Engine.{reduce_and_store}
use storage_appliance_archit.Purity.EngineTrip.{IsSound, reads}
use storage_appliance_archit.Purity.Samples.{
  digest, first_code, digest-injective, tools, tools-IsLossless, empty-IsSound, first_data,
  first_data-IsPlain,
}
use storage_appliance_archit.Storage.Backend.{new_backend}
use storage_appliance_archit.Storage.BackendSound.{view}
use storage_appliance_archit.Core.Volume
use storage_appliance_archit.Core.Volume.{VolumeBlock}
use storage_appliance_archit.Core.Snapshot
use storage_appliance_archit.Core.Controller.{
  read, create_snapshot, restore_snapshot, clone, delete_volume, StorageController, WriteResult,
  create_volume, write,
}
use storage_appliance_archit.Core.ControllerTrip
use storage_appliance_archit.Core.ControllerTrip.{Written, seen}
use storage_appliance_archit.Core.ControllerRestore
use storage_appliance_archit.Core.ControllerClone
use storage_appliance_archit.Purity.Wire.{Bytes}
use storage_appliance_archit.Base.Int.{pos}
use storage_appliance_archit.Purity.Dedup.{DedupEntry}
use storage_appliance_archit.Core.Samples.{one_volume, volume}

-- What the tests compute with.
program : Unit {0}
unfolding lookup insert erase string_discrete ℕ_discrete reduce_and_store view new_engine
    new_backend encode decode is_encoded compress decompress starts_with same_bytes all_equal
    byte_at to_bytes create_volume write Volume.new_manager Snapshot.new_manager ◌+ℤ◌ ◌-ℤ◌
program = tt

write-Written_example :
    (w : WriteResult) × (after : StorageController) × (write tools "v" 4 first_data "a" 6 one_volume
      ≡ (ok (some w), after))
    × Written tools "v" 4 first_data one_volume after
unfolding program
write-Written_example =
    ControllerTrip.write-Written tools "v" 4 first_data one_volume tools-IsLossless digest-injective
      "a" 6 volume empty-IsSound first_data-IsPlain refl refl (λ e. omega arith) refl (omega arith)

write-beyond_leaks_example :
    (after : StorageController) × (stored : String) × (write tools "v" 16 first_data "a" 6
        one_volume
      ≡ (raise value_error, after))
    × (after.volume_manager ≡ one_volume.volume_manager)
    × (reads tools after.purity stored ≡ ok first_data)
unfolding program
write-beyond_leaks_example =
    ControllerRestore.write-beyond_leaks tools "v" 16 first_data one_volume tools-IsLossless
      digest-injective "a" 6 volume empty-IsSound first_data-IsPlain refl refl (λ e. omega arith)
      refl (omega arith)

-- The volume after a write, and the sound engine.
abbrev written_once : StorageController
written_once = (write tools "v" 4 first_data "a" 6 one_volume).1

written_once-IsSound : IsSound tools written_once.purity
unfolding program
written_once-IsSound =
    let (w, after, run, wr) =
      ControllerTrip.write-Written tools "v" 4 first_data one_volume tools-IsLossless
        digest-injective "a" 6 volume empty-IsSound first_data-IsPlain refl refl (λ e. omega arith)
        refl (omega arith) in
    subst (λ o. IsSound tools o.purity) (sym (ap (λ o. o.1) run)) wr.sound

v_nonempty : ◌≢◌ {A = String} "v" ""
v_nonempty e = different (ap first_code e)
  where
    different : suc 117 ≡ 0 → ⊥
    different c = omega arith

v_not_b : ◌≢◌ {A = String} "v" "b"
v_not_b e = different (ap first_code e)
  where
    different : suc 117 ≡ 98 → ⊥
    different c = omega arith

abbrev entry : DedupEntry
entry = record { fingerprint = digest first_data; block_id = "a"; size = 3; reference_count = 1 }

abbrev block : VolumeBlock
block = record { offset = 4; block_id = "a"; fingerprint = digest first_data; size = 3 }

abbrev volume_once : Volume.Volume String
volume_once = record volume {
  updated_at = 6;
  blocks = (4, block) ∷ [];
  used_bytes = pos 3;
  logical_bytes = pos 3;
  physical_bytes = pos 9;
}

-- The data with the header of four bytes' length and an algorithm.
abbrev stored_data : Bytes
stored_data = 1 ∷ 0 ∷ 0 ∷ 0 ∷ 3 ∷ 1 ∷ first_data

first_seen : seen tools written_once "v" 4 ≡ ok (some first_data)
unfolding program seen read
first_seen = refl

snapshot_write_restore_example :
    let c1 = (create_snapshot "v" "s" 7 "now" (some "before") "" [] written_once).1 in
    let c2 = (write tools "v" 4 (1 ∷ 2 ∷ []) "b" 7 c1).1 in
    seen tools (restore_snapshot "s" (some "v") "w" 7 c2).1 "v" 4 ≡ ok (some first_data)
unfolding program
snapshot_write_restore_example =
    ControllerRestore.snapshot_write_restore tools tools-IsLossless digest-injective "v" "s" "b" "w"
      "now" "" (some "before") [] 4 7 (1 ∷ 2 ∷ []) volume_once written_once v_nonempty
      written_once-IsSound
      (record { not_encoded = refl; small = omega arith; zeros = λ e. absurd (ground arith) }) refl
      refl (refl, tt) (λ e. omega arith) refl (omega arith) 4 first_data first_seen

clone_then_delete-loses_example :
    seen tools (delete_volume "b" (clone "v" "b" 8 "copy" "" written_once).1).1 "v" 4
    ≡ raise key_error
unfolding program
clone_then_delete-loses_example =
    ControllerClone.clone_then_delete-loses tools digest-injective "v" "b" "copy" "" 8 4 volume_once
      block entry stored_data written_once written_once-IsSound v_not_b refl refl refl refl refl
      refl
