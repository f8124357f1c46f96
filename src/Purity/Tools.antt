-- ===== src/Purity/Tools.antt =====
-- What the reduction layer calls from other packages: the SHA-256 digest of hashlib, the lz4 and
-- zstandard codecs at the configured level, and the float comparison of a compression ratio.
use storage_appliance_archit.Base.{ℕ, ◌≡◌, String, Bool, Result, ok}
use storage_appliance_archit.Purity.Wire.{Bytes}

pub record Tools : Type 0 where
  pub sha256 : Bytes → String
  pub lz4_compress : Bytes → Bytes
  pub lz4_decompress : Bytes → Result Bytes
  pub zstd_compress : Bytes → Bytes
  pub zstd_decompress : Bytes → Result Bytes
  -- `ratio < self.min_compression_ratio`, for `original / compressed`, or 1.0 where `compressed`
  -- is 0
  pub ratio_below_minimum : ℕ → ℕ → Bool

-- The documented behaviour of the codecs: decompression undoes compression.
pub record IsLossless (tools : Tools) : Type 0 where
  pub lz4 : (bs : Bytes) → tools.lz4_decompress (tools.lz4_compress bs) ≡ ok bs
  pub zstd : (bs : Bytes) → tools.zstd_decompress (tools.zstd_compress bs) ≡ ok bs
