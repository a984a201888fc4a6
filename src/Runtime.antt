-- ===== src/Runtime.antt =====
-- The runtime of an instantiated module, src/wasmjit/runtime.c and runtime.h.
pub mod Store
pub mod Typecheck
pub mod Indirect
mod Tests
