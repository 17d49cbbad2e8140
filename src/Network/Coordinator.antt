-- ===== src/Network/Coordinator.antt =====
-- The coordinator of workers (uhcr/network/coordinator.py).
pub mod Defs
pub mod Assign
pub mod Choice
pub mod Registry
pub mod Turns
