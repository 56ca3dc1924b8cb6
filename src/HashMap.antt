-- ===== src/HashMap.antt =====
-- src/concurrent/concurrent_hashmap_detail.h: the segment of the concurrent hash map.
mod Tests
pub mod Store
pub mod Segment
pub mod Chains
pub mod Keeps
pub mod Search
pub mod Splice
pub mod Table
pub mod Grow
pub mod Overlay
pub mod Rehash
pub mod Update
pub mod Methods
pub mod Locate
pub mod Unlink
pub mod Erase
pub mod Fresh
pub mod Insert
pub mod Sharded
pub mod Shards
pub mod Whole
pub mod Reserve
pub mod Iterator
