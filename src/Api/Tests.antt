-- ===== src/Api/Tests.antt =====
-- api/routes: a client's write and read of a small controller, with a codec that spells data out.
use storage_appliance_archit.Base.{
  ℕ, zero, suc, ◌+◌, ◌==◌, ◌≡◌, refl, ◌∙◌, ap, Option, some, none, [], ◌∷◌, String, string_discrete,
  ℕ_discrete, if◌then◌else◌, arith, ok,
}
use storage_appliance_archit.Base.Int.{◌+ℤ◌, ◌-ℤ◌}
use Prim.Native.Char.{code}
use storage_appliance_archit.Base.Dict.{lookup, insert}
use storage_appliance_archit.Purity.Wire.{Bytes}
use storage_appliance_archit.Purity.Samples.{
  tally, digest, digest-injective, tools, tools-IsLossless, empty-IsSound, first_data,
  first_data-IsPlain,
}
use storage_appliance_archit.Purity.Dedup.{new_engine}
use storage_appliance_archit.Storage.Backend.{new_backend}
use storage_appliance_archit.Storage.BackendSound.{view}
use storage_appliance_archit.Core.Volume
use storage_appliance_archit.Core.Controller.{StorageController, create_volume}
use storage_appliance_archit.Core.ControllerTrip.{Written}
use storage_appliance_archit.Core.Samples.{one_volume, volume}
use storage_appliance_archit.Api.Reply.{Base64, IsInverse, reply}
use storage_appliance_archit.Api.Volumes.{WriteResponse, ReadResponse, write_data, read_data}
use storage_appliance_archit.Api.RoundTrip

abbrev push : ℕ → Option Bytes → Option Bytes
push n none = none
push n (some bs) = some (n ∷ bs)

-- The byte so far, and the rest of the text.
abbrev spelled : ℕ → String → Option Bytes
spelled n String.[] = some []
spelled n (String.◌∷◌ c s) = if code c == 97 then spelled (n + 1) s else push n (spelled 0 s)

abbrev codec : Base64
codec = record { b64encode = digest; b64decode = spelled 0 }

spelled-tally : (m n : ℕ) (s : String) → spelled n (tally m s) ≡ push (n + m) (spelled 0 s)
spelled-tally zero n s = ground arith
spelled-tally (suc m) n s = spelled-tally m (n + 1) s ∙ ap (λ k. push k (spelled 0 s)) (omega arith)

spelled-digest : (bs : Bytes) → spelled 0 (digest bs) ≡ some bs
spelled-digest [] = refl
spelled-digest (b ∷ bs) = let r = spelled-digest bs in spelled-tally b 0 (digest bs) ∙ ground arith

codec-IsInverse : IsInverse codec
codec-IsInverse = record { decodes = spelled-digest }

-- What the tests compute with.
program : Unit {0}
unfolding lookup insert string_discrete ℕ_discrete view new_engine new_backend create_volume
    Volume.create_volume Volume.new_manager ◌+ℤ◌ ◌-ℤ◌
program = tt

write_data-read_data_example :
    (w : WriteResponse) × (r : ReadResponse) × (after : StorageController) × (write_data tools codec
        "v" 4
        (digest first_data)
        "a"
        6
        one_volume
      ≡ (ok (reply 200 w), after))
    × ((read_data tools codec "v" 4 after).0 ≡ ok (reply 200 r))
    × (r.encoded ≡ digest first_data)
    × Written tools "v" 4 first_data one_volume after
unfolding program
write_data-read_data_example =
    RoundTrip.write_data-read_data tools codec "v" 4 first_data one_volume tools-IsLossless
      digest-injective codec-IsInverse "a" 6 volume empty-IsSound first_data-IsPlain refl refl
      (λ e. omega arith) refl (omega arith)
