-- ===== src/Store.antt =====
-- filedb: the torrents of the database, and how a parsed torrent is merged into a stored one.
pub mod Details
pub mod Names
pub mod Merge
pub mod New
pub mod Record
pub mod Stamps
pub mod Due
pub mod Computed
mod Tests
