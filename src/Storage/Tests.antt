-- ===== src/Storage/Tests.antt =====
-- storage: the refinement on a run of calls.
use storage_appliance_archit.Base.{List, false, Result, [], ◌∷◌}
use storage_appliance_archit.Purity.Tools.{Tools}
use storage_appliance_archit.Storage.Backend.{new_backend}
use storage_appliance_archit.Storage.BackendRuns
use storage_appliance_archit.Storage.BackendRuns.{Call, Refines}

abbrev tools : Tools
tools = record {
  sha256 = λ bs. "digest";
  lz4_compress = λ bs. bs;
  lz4_decompress = λ bs. Result.ok bs;
  zstd_compress = λ bs. bs;
  zstd_decompress = λ bs. Result.ok bs;
  ratio_below_minimum = λ a b. false;
}

-- A block written twice keeps its data through one deletion.
abbrev calls : List Call
calls =
    Call.write "a" (1 ∷ [])
    ∷ Call.write "a" (1 ∷ [])
    ∷ Call.delete "a"
    ∷ Call.read "a"
    ∷ Call.delete "a"
    ∷ Call.read "a"
    ∷ []

run-Refines_example : Refines tools new_backend calls
run-Refines_example = BackendRuns.run-Refines tools calls
