-- ===== src/Compiler/X86.antt =====
-- The x86-64 assembler (uhcr/compiler/x86_64/assembler.py).
pub mod Assembler
pub mod Methods
pub mod Fields
pub mod Decoder
pub mod Writes
pub mod Operands
pub mod Instructions
pub mod Encodings
pub mod Patching
pub mod Program
pub mod Calls
pub mod Branches
pub mod Running
pub mod Assembly
pub mod Completeness
pub mod Stack
pub mod Undeclared
