-- ===== src/Compiler/Passes/StrengthReduction.antt =====
-- The strength reduction pass, uhcr/compiler/passes/strength_reduction.py. Two operands that are
-- constants are two objects, as `IRBuilder` makes them.
pub mod Defs
pub mod Sound
pub mod Run
