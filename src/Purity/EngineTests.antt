-- ===== src/Purity/EngineTests.antt =====
-- purity/engine.py: the theorems at a small engine, with a digest that tells all data apart.
use storage_appliance_archit.Base.{
  ◌≡◌, refl, ap, sym, subst, List, map, [], ◌∷◌, String, string_discrete, string_key, arith, ok,
}
use storage_appliance_archit.Purity.Pattern.{encode, decode, is_encoded}
use storage_appliance_archit.Purity.Compression.{compress, decompress}
use storage_appliance_archit.Purity.Wire.{
  Bytes, starts_with, same_bytes, all_equal, byte_at, to_bytes,
}
use storage_appliance_archit.Purity.Dedup.{new_engine, DedupEntry}
use storage_appliance_archit.Base.Dict.{lookup, insert, erase}
use storage_appliance_archit.Purity.Engine.{
  PurityEngine, ReductionResult, reduce_and_store, retrieve, delete,
}
use storage_appliance_archit.Purity.EngineTrip.{IsSound, reads}
use storage_appliance_archit.Purity.EngineKeeps.{Reduced}
use storage_appliance_archit.Purity.EngineStores
use storage_appliance_archit.Purity.EngineStores.{Batch, store_all, IsReady}
use storage_appliance_archit.Purity.EngineDelete
use storage_appliance_archit.Purity.EngineZeros
use storage_appliance_archit.Storage.Backend.{new_backend}
use storage_appliance_archit.Storage.BackendSound.{view}
use storage_appliance_archit.Purity.Samples.{
  digest, digest-injective, tools, tools-IsLossless, empty, empty-IsSound, first_data,
  first_data-IsPlain, a_not_b,
}

-- What the tests compute with.
program : Unit {0}
unfolding lookup insert erase string_discrete reduce_and_store store_all retrieve delete view
    new_engine new_backend encode decode is_encoded compress decompress starts_with same_bytes
    all_equal byte_at to_bytes
program = tt

reduce_and_store-Reduced_example :
    Reduced tools first_data "a" empty (reduce_and_store tools first_data "a" empty)
unfolding program
reduce_and_store-Reduced_example =
    EngineStores.reduce_and_store-Reduced tools tools-IsLossless digest-injective first_data "a"
      empty first_data-IsPlain refl empty-IsSound

-- The second call finds the data of the first one.
abbrev batch : Batch
batch = (first_data, "a") ∷ (first_data, "b") ∷ []

stored_once : (store_all tools batch empty).0 ≡ ok ("a" ∷ "a" ∷ [])
unfolding program
stored_once = refl

batch-IsReady : IsReady empty batch
unfolding program
batch-IsReady = (first_data-IsPlain, refl, (a_not_b, tt), (first_data-IsPlain, refl, tt, tt))

store_all-retrieve_example :
    (ids : List String) × (after : PurityEngine) × (store_all tools batch empty ≡ (ok ids, after))
    × (map (λ id. (retrieve tools id after).0) ids ≡ ok first_data ∷ ok first_data ∷ [])
store_all-retrieve_example =
    EngineStores.store_all-retrieve tools tools-IsLossless digest-injective batch empty
      batch-IsReady empty-IsSound

-- The engine after both calls.
abbrev twice : PurityEngine
twice = (store_all tools batch empty).1

twice-IsSound : IsSound tools twice
twice-IsSound =
    let s =
      EngineStores.store_all-AllStored tools tools-IsLossless digest-injective batch empty
        batch-IsReady empty-IsSound in
    subst (λ e. IsSound tools e) (sym (ap (λ o. o.1) s.ran)) s.sound

abbrev entry : DedupEntry
entry = record { fingerprint = digest first_data; block_id = "a"; size = 3; reference_count = 2 }

delete-reads_example :
    IsSound tools (delete "a" (digest first_data) twice).1
    × (reads tools (delete "a" (digest first_data) twice).1 "a" ≡ reads tools twice "a")
unfolding program
delete-reads_example =
    EngineDelete.delete-reads tools digest-injective (digest first_data) twice entry twice-IsSound
      refl "a" (λ e. omega arith)

-- Eight zeros, where a block has four bytes.
abbrev eight_zeros : Bytes
eight_zeros = 0 ∷ 0 ∷ 0 ∷ 0 ∷ 0 ∷ 0 ∷ 0 ∷ 0 ∷ []

reduce_and_store-misreads_example :
    (result : ReductionResult) × (after : PurityEngine) × (reduce_and_store tools eight_zeros "a"
        empty
      ≡ (ok result, after))
    × ((retrieve tools result.block_id after).0 ≡ ok (0 ∷ 0 ∷ 0 ∷ 0 ∷ []))
unfolding program
reduce_and_store-misreads_example =
    EngineZeros.reduce_and_store-misreads tools tools-IsLossless digest-injective eight_zeros "a"
      empty refl refl refl empty-IsSound
