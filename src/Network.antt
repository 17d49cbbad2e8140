-- ===== src/Network.antt =====
-- The network subsystem (uhcr/network).
pub mod Jobs
pub mod Coordinator
