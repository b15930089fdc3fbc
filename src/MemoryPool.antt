-- ===== src/MemoryPool.antt =====
-- ConcurrentMemoryPool: the allocator with thread caches, a central cache and a page cache.
pub mod Carve
pub mod CentralCache
pub mod FreeList
pub mod Memory
pub mod PageMap
pub mod SizeClass
pub mod ThreadCache
mod Tests
pub mod PageCache
