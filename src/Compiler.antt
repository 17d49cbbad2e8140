-- ===== src/Compiler.antt =====
-- The compiler (uhcr/compiler).
pub mod Ir
pub mod IrBuilder
pub mod Passes
pub mod X86
