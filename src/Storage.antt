-- ===== src/Storage.antt =====
-- src/storage.rs: the quota of the providers and the cache.
pub mod Types
pub mod Quota
pub mod Service
pub mod Cache
pub mod Example
mod Tests
