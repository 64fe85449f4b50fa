-- ===== src/Cache.antt =====
-- The package edgerag/cache, without its tensors: the pool of blocks, the tables that map a
-- sequence's positions into it, and the cache of prompt prefixes.
pub mod Allocator
pub mod BlockTable
pub mod Sequences
pub mod Prefix
pub mod Paged
pub mod Naive
pub mod Preemption
pub mod Samples
mod Tests
mod StoreTests
