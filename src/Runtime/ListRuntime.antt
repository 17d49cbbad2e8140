-- ===== src/Runtime/ListRuntime.antt =====
-- The dynamic array (uhcr/runtime/list_runtime.py).
pub mod Defs
pub mod Loops
pub mod Layout
pub mod Searches
pub mod Calls
pub mod Agreement
pub mod Slices
pub mod Refines
