-- ===== src/Compiler/Passes/ConstantFolding.antt =====
-- The constant folding pass, uhcr/compiler/passes/constant_folding.py. Constants that hold a string
-- are not folded: `IRBuilder` gives them to CMP, BR, JMP and BREAK alone, never to arithmetic.
pub mod Defs
pub mod Sound
pub mod Run
