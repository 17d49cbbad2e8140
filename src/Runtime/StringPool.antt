-- ===== src/Runtime/StringPool.antt =====
-- The pool of interned strings (uhcr/runtime/string_pool.py).
pub mod Defs
pub mod Canonical
pub mod Held
pub mod Counted
pub mod Reached
