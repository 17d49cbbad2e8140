-- ===== src/Compiler/Passes/DeadCode.antt =====
-- The dead code elimination pass, uhcr/compiler/passes/dead_code.py.
pub mod Defs
pub mod Sound
pub mod Rounds
pub mod Run
