-- ===== src/Runtime.antt =====
-- The runtime's data structures (uhcr/runtime).
pub mod ListRuntime
pub mod StringPool
pub mod Scheduler
