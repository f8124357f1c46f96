-- ===== src/Api.antt =====
-- The HTTP API (pstorage/src/pstorage/api): the routes of volumes, of snapshots and of the
-- cluster.
pub mod Reply
pub mod Volumes
pub mod Snapshots
pub mod RoundTrip
pub mod Cluster
mod Tests
