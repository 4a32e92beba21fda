-- ===== src/Cache.antt =====
-- The record cache: backend/leanstore/storage/record-cache.
pub mod Entry
pub mod Sieve
pub mod Slab
pub mod Table
pub mod Promotion
pub mod Evict
pub mod Rescue
pub mod Epoch
mod Tests
