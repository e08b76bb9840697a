-- ===== src/Cache.antt =====
-- cache/: an in-memory cache of 256 buckets with 256 entry cells each.
pub mod Bucket
pub mod Store
pub mod Slot
pub mod Direct
pub mod Refine
pub mod Sound
pub mod Stored
pub mod Runs
pub mod Laws
pub mod Removal
pub mod Counters
mod Tests
