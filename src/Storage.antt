-- ===== src/Storage.antt =====
-- The storage backend (pstorage/src/pstorage/storage): blocks as files, with reference counts.
pub mod Backend
pub mod BackendSound
pub mod BackendRuns
mod Tests
