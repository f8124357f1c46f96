-- ===== src/Core.antt =====
-- The core of the appliance (pstorage/src/pstorage/core): the volume and snapshot managers.
pub mod Volume
pub mod VolumeSound
pub mod VolumeBlocks
pub mod VolumeRuns
pub mod Snapshot
pub mod SnapshotSound
pub mod Controller
pub mod ControllerTrip
pub mod ControllerRestore
pub mod ControllerClone
mod Tests
mod SnapshotTests
pub mod Samples
mod ControllerTests
