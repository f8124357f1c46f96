-- ===== src/Flash.antt =====
-- The flash layer (pstorage/src/pstorage/directflash): block manager, garbage collector, wear
-- leveling and the simulator that drives them.
pub mod Block
pub mod Links
pub mod View
pub mod Pool
pub mod Sound
pub mod Write
pub mod Erase
pub mod Report
pub mod State
pub mod Collector
pub mod Leveler
pub mod Simulator
pub mod Steady
pub mod Moves
pub mod Extremes
pub mod Leveling
pub mod Writes
pub mod Ready
pub mod Init
pub mod Runs
mod Tests
