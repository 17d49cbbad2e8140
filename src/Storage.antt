-- ===== src/Storage.antt =====
-- The storage subsystem (uhcr/storage).
pub mod MemoryPool
