-- ===== src/Compiler/Passes/Pipeline.antt =====
-- The pipeline that chains the passes, uhcr/compiler/passes/pipeline.py.
pub mod Defs
pub mod Sound
pub mod Rounds
