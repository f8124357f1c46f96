-- ===== src/Lib.antt =====
-- pstorage: the storage appliance in pstorage/src/pstorage, modelled and verified.
--
-- The program is an asyncio service. Its methods run to completion under a lock, so a run is a
-- sequence of calls and of rounds of the background tasks; a method is a function of the state, of
-- type `Exec S A`, which returns a value or an error, and in both cases the state that is left.
--
-- Base: what the components share. `Base.Outcome` has `Exec` and the exceptions, `Base.Int` the
-- signed counters, `Base.Ratio` the quotients that the code compares as floats, `Base.Dict` a
-- dictionary as an association list in insertion order.
-- Flash: directflash. `Flash.Block` is block_manager.py (write_block, read_block, delete_block,
-- erase_block over the tables of a BlockManager), `Flash.Report` its get_stats, `Flash.Collector`
-- garbage_collection.py, `Flash.Leveler` wear_leveling.py and `Flash.Simulator` simulator.py.
-- `Flash.Sound` is the invariant of the tables, pool and counters, `Flash.View` what an address
-- reads, `Flash.Leveling` is about the loop of wear leveling and `Flash.Extremes` about the blocks
-- that its scan finds, `Flash.Ready` has the contents of a simulator as a map from addresses and the
-- invariant of a simulator, and `Flash.Runs` is about runs of calls, with the rounds of the background
-- collection between.
-- Storage: storage. `Storage.Backend` is file_backend.py: the block files and the metadata files as
-- two dictionaries. `Storage.BackendSound` says when they agree and what each call does to the
-- stored blocks, and `Storage.BackendRuns` compares runs with a map from ids to counted contents.
-- Purity: `Purity.Pattern` is pattern_removal.py and `Purity.Compression` compression.py, over
-- the byte formats of `Purity.Wire`, with `Purity.Regions` and `Purity.ZeroRuns` about the regions of
-- zeros; `Purity.Dedup` is deduplication.py. `Purity.Engine` is
-- engine.py, which chains them over the backend: `Purity.EngineStages` is about its stages one by
-- one, `Purity.EngineTrip` has the invariant of an engine and what a block reads,
-- `Purity.EngineKeeps` and `Purity.EngineStores` are about reduce_and_store and sequences of it,
-- `Purity.EngineZeros` about blocks of zeros, and `Purity.EngineDelete` about delete.
-- Core: core. `Core.Volume` is volume_manager.py; `Core.VolumeSound` is about its calls one by one,
-- `Core.VolumeBlocks` about the blocks under writes and clones, `Core.VolumeRuns` about runs.
-- `Core.Snapshot` is snapshot_manager.py and `Core.SnapshotSound` about its calls.
-- `Core.Controller` is controller.py, over both managers, the reduction engine and the simulator;
-- `Core.ControllerTrip` is about a write and the reads after it, `Core.ControllerRestore` about
-- writes that fail and restored snapshots, and `Core.ControllerClone` about deleted clones.
-- Cluster: activecluster. `Cluster.Mediator` is mediator.py; `Cluster.Quorum`, `Cluster.Election`
-- and `Cluster.Settled` are about the quorum test, the winner of an election and the single calls,
-- and `Cluster.Calls` about runs of calls. `Cluster.Failover` is failover.py, `Cluster.FailoverLog`
-- about its calls one by one and `Cluster.FailoverRuns` about runs of failovers and mediator calls.
-- `Cluster.Replication` is replication.py: `Cluster.Sends` is about a synchronous replication,
-- `Cluster.Journal` about a pass over the journal, `Cluster.JournalRuns` and `Cluster.JournalLog`
-- about runs. `Cluster.Active` is cluster.py, with `Cluster.ActiveSafe` about its monitor and
-- `Cluster.ActiveStart` about initialize.
-- Api: api. `Api.Volumes` is routes/volumes.py and `Api.Snapshots` routes/snapshots.py, over the
-- replies of `Api.Reply`; `Api.RoundTrip` is about a client's write and read. `Api.Cluster` is
-- routes/replication.py.
--
-- Parameters: `Purity.Tools` stands for hashlib, lz4 and zstandard, and for the float comparison of
-- a compression ratio, `Cluster.Order` for the order of node ids; `IsLossless` is the documented
-- behaviour of the codecs, and `IsCollisionFree` what deduplication relies on of SHA-256, which the
-- tests meet by a digest that spells the data out. The answers of replication peers are a function
-- of the peer and the operation (`Answers`), and the id that `hash` makes of a peer's URL one of the
-- URL. `Api.Reply.Base64` is Python's base64, with `IsInverse` its documented behaviour.
--
-- Bounds and fuel: bytes are numbers, lengths of four bytes keep their limit of 2 ^ 32. The loop of
-- run_leveling_pass is on fuel, one more than the erase counts of the valid blocks together, which
-- each move reduces, and that of chunk_data on one more than the length of the data, from which each
-- chunk takes a byte where the block size is not zero (where it is, the code does not end); `none`
-- stands for exhausted fuel.
--
-- Not modelled: durations and latencies, errors of the file system, the read-only reports made of
-- floats, the API routes of metrics and of analytics, the analytics (floats), and the Go and C++
-- demonstrations beside the Python service.
pub mod Base
pub mod Flash
pub mod Purity
pub mod Storage
pub mod Core
pub mod Cluster
pub mod Api
