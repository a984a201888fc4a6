-- ===== src/Instantiate.antt =====
-- src/wasmjit/instantiate.c: wasmjit_instantiate, from its steps to the whole.
pub mod State
pub mod Constant
pub mod Create
pub mod Segment
pub mod Gives
pub mod Import
pub mod Define
pub mod Export
pub mod Code
pub mod Whole
mod Tests
