-- ===== src/Storage/MemoryPool.antt =====
-- The pool of aligned buffers (uhcr/storage/memory_pool.py).
pub mod Defs
pub mod Classes
pub mod Counts
pub mod World
pub mod Buffers
pub mod Taken
pub mod Invariant
pub mod Reset
pub mod Reach
pub mod Twice
