-- ===== src/Cache.antt =====
-- server/cache.go: the cache of search answers.
pub mod Search
pub mod Bounded
mod Tests
