-- ===== src/Ast.antt =====
-- src/wasmjit/ast.h: the module as it is read. A `uintN_t` is a number; a float is its bit pattern.
-- `Instruction` has `struct Instr`, `Path` the places of its vectors, `Section` the rest of
-- `struct Module`, `Opcode` and `Valtype` the numbers of the enumerations.
pub mod Instruction
pub mod Opcode
pub mod Valtype
pub mod Path
pub mod Section
