-- ===== src/Compiler/Ir.antt =====
-- The intermediate representation, uhcr/compiler/ir.py.
pub mod Types
pub mod Function
pub mod Machine
pub mod Numbering
pub mod Paths
