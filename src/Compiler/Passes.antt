-- ===== src/Compiler/Passes.antt =====
-- The optimisation passes, uhcr/compiler/passes.
pub mod Substitution
pub mod Sweep
pub mod Tables
pub mod Numbers
pub mod ConstantFolding
pub mod StrengthReduction
pub mod DeadCode
pub mod Cse
pub mod Pipeline
