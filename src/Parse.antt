-- ===== src/Parse.antt =====
-- The binary format reader, src/wasmjit/parse.c. `State` has the parser state and the outcomes of
-- a reader, `Leb` the variable-length integers.
pub mod State
pub mod Leb
pub mod Instruction
pub mod Instructions
pub mod Types
pub mod Section
pub mod Module
pub mod Takes
pub mod Format
mod Tests
