-- ===== src/Compiler/Passes/Cse.antt =====
-- The common subexpression pass, uhcr/compiler/passes/cse.py.
pub mod Defs
pub mod Sound
pub mod Entries
pub mod Step
pub mod Run
