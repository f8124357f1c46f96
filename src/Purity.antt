-- ===== src/Purity.antt =====
-- The data reduction layer (pstorage/src/pstorage/purity): pattern removal, deduplication,
-- compression and the engine that chains them.
pub mod Wire
pub mod Pattern
pub mod PatternTrip
pub mod Tools
pub mod Compression
pub mod CompressionTrip
pub mod ZeroRuns
pub mod Regions
pub mod Dedup
pub mod DedupSound
pub mod DedupRuns
mod Tests
pub mod Engine
pub mod EngineStages
pub mod EngineTrip
pub mod EngineKeeps
pub mod EngineStores
pub mod EngineZeros
pub mod EngineDelete
pub mod Samples
mod EngineTests
mod DedupTests
