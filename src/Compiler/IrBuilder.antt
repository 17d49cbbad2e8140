-- ===== src/Compiler/IrBuilder.antt =====
-- The builder of the intermediate representation (uhcr/compiler/ir_builder.py).
pub mod State
pub mod Methods
pub mod Structured
pub mod Typing
pub mod Rules
pub mod Emission
pub mod Fits
pub mod EmissionStructured
pub mod EmissionPhi
pub mod Program
pub mod Validated
