-- ===== src/Bencode.antt =====
-- core/torrent_bencode.go: the bencode reader of .torrent files, and the magnets made from it.
pub mod Cursor
pub mod Skip
pub mod Meta
pub mod Encode
pub mod Decimal
pub mod ByteStrings
pub mod SkipEncoded
pub mod Total
pub mod MetaTotal
pub mod Torrent
pub mod ReadsTorrent
pub mod ReadsName
pub mod Magnet
pub mod Trackers
pub mod Private
pub mod Oversized
mod Tests
