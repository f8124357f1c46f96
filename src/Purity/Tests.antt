-- ===== src/Purity/Tests.antt =====
-- purity: the methods on small inputs, and the theorems at inputs that meet their hypotheses.
use storage_appliance_archit.Base.{
  ◌≡◌, refl, none, [], ◌∷◌, false, arith, ok, raise, Result, key_error,
}
use storage_appliance_archit.Base.Int.{pos}
use storage_appliance_archit.Purity.Wire.{
  Bytes, starts_with, same_bytes, all_equal, byte_at, to_bytes,
}
use storage_appliance_archit.Purity.Tools.{Tools, IsLossless}
use storage_appliance_archit.Purity.Pattern.{
  PatternRemoval, encode, decode, is_encoded, find_zero_regions,
}
use storage_appliance_archit.Purity.PatternTrip
use storage_appliance_archit.Purity.PatternTrip.{Coded}
use storage_appliance_archit.Purity.Compression.{
  CompressionEngine, CompressionAlgorithm, lz4, compress, decompress,
}
use storage_appliance_archit.Purity.CompressionTrip
use storage_appliance_archit.Purity.CompressionTrip.{Packed}
use storage_appliance_archit.Purity.Regions
use storage_appliance_archit.Purity.Regions.{AreRegions}

-- What the tests compute with.
program : Unit {0}
unfolding encode decode is_encoded find_zero_regions compress decompress starts_with same_bytes
    all_equal byte_at to_bytes
program = tt

abbrev pub removal : PatternRemoval
removal = record {
  min_block_size = 4;
  stats = record {
    blocks_analyzed = 0;
    zero_blocks_found = 0;
    pattern_blocks_found = 0;
    bytes_saved = pos 0;
  };
}

abbrev sevens : Bytes
sevens = 7 ∷ 7 ∷ 7 ∷ []

encode-Coded_example : Coded sevens none removal
unfolding program
encode-Coded_example =
    PatternTrip.encode-Coded sevens none removal refl (λ e. absurd (ground arith))
      (λ b z k. omega arith)

two_regions : find_zero_regions (0 ∷ 0 ∷ 5 ∷ 0 ∷ 6 ∷ 0 ∷ 0 ∷ 0 ∷ []) 2 ≡ (0, 2) ∷ (5, 3) ∷ []
unfolding program
two_regions = refl

find_zero_regions-AreRegions_example :
    AreRegions (0 ∷ 0 ∷ 5 ∷ 0 ∷ []) 2 (find_zero_regions (0 ∷ 0 ∷ 5 ∷ 0 ∷ []) 2)
find_zero_regions-AreRegions_example = Regions.find_zero_regions-AreRegions (0 ∷ 0 ∷ 5 ∷ 0 ∷ []) 2

two_zeros : find_zero_regions (0 ∷ 0 ∷ 5 ∷ 0 ∷ []) 2 ≡ (0, 2) ∷ []
unfolding program
two_zeros = refl

-- A codec that puts one byte in front.
abbrev unwrap : Bytes → Result Bytes
unwrap [] = raise key_error
unwrap (b ∷ bs) = ok bs

abbrev pub wrapping : Tools
wrapping = record {
  sha256 = λ bs. "digest";
  lz4_compress = λ bs. 1 ∷ bs;
  lz4_decompress = unwrap;
  zstd_compress = λ bs. 2 ∷ bs;
  zstd_decompress = unwrap;
  ratio_below_minimum = λ a b. false;
}

pub wrapping-IsLossless : IsLossless wrapping
wrapping-IsLossless = record { lz4 = λ bs. refl; zstd = λ bs. refl }

abbrev pub engine_of : CompressionAlgorithm → CompressionEngine
engine_of a = record {
  algorithm = a;
  stats = record { blocks_compressed = 0; blocks_skipped = 0; bytes_before = 0; bytes_after = 0 };
}

compress-Packed_example : Packed wrapping sevens (engine_of lz4)
compress-Packed_example =
    CompressionTrip.compress-Packed wrapping sevens (engine_of lz4) wrapping-IsLossless (λ e. cc)
      (omega arith)
