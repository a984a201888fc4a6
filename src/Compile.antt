-- ===== src/Compile.antt =====
-- src/wasmjit/compile.c: the translation of functions to machine code.
pub mod State
pub mod Stack
pub mod Retpoline
pub mod Branch
pub mod Control
pub mod Call
pub mod Variable
pub mod Memory
pub mod Numeric
pub mod Instruction
pub mod Sequence
pub mod Frame
pub mod Function
pub mod Emits
pub mod Laws
mod Tests
pub mod Typing
pub mod Bytes
pub mod Spill
pub mod Invoker
pub mod Hostfunc
