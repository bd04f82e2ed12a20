-- ===== src/Db.antt =====
-- filedb: the database's state in memory and on disk, its index of names, and its reads and writes.
pub mod State
pub mod Cache
pub mod Reads
pub mod Writes
pub mod Rebuild
pub mod Index
pub mod CacheEntries
pub mod CacheBound
pub mod Coherent
pub mod Saved
pub mod Flushed
pub mod Recovered
pub mod Flushes
pub mod StaleRead
pub mod Runs
pub mod IndexedRuns
mod Tests
pub mod RebuiltIndex
