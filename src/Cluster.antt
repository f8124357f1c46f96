-- ===== src/Cluster.antt =====
-- The active cluster (pstorage/src/pstorage/activecluster): the mediator, which keeps the
-- membership and chooses the primary, and the failover controller, which steers it.
pub mod Order
pub mod Mediator
pub mod Quorum
pub mod Election
pub mod Settled
pub mod Calls
pub mod Failover
pub mod Replication
pub mod Sends
pub mod Journal
pub mod JournalRuns
pub mod JournalLog
pub mod FailoverLog
pub mod FailoverRuns
pub mod Active
pub mod ActiveSafe
pub mod ActiveStart
mod Tests
mod FailoverTests
mod ReplicationTests
mod ActiveTests
