-- ===== src/Ast/Opcode.antt =====
-- src/wasmjit/ast.h and parse.c: the opcodes by their numbers.
use wasmjit.Prelude.{ℕ, Bool, ◌&&◌, ◌||◌, leb, ◌==◌}

abbrev pub block : ℕ
block = 0x02

abbrev pub loop : ℕ
loop = 0x03

abbrev pub if_ : ℕ
if_ = 0x04

-- ELSE_TERMINAL and BLOCK_TERMINAL
abbrev pub else_terminal : ℕ
else_terminal = 0x05

abbrev pub block_terminal : ℕ
block_terminal = 0x0b

abbrev pub br : ℕ
br = 0x0c

abbrev pub br_if : ℕ
br_if = 0x0d

abbrev pub br_table : ℕ
br_table = 0x0e

abbrev pub call : ℕ
call = 0x10

abbrev pub call_indirect : ℕ
call_indirect = 0x11

abbrev pub get_local : ℕ
get_local = 0x20

abbrev pub set_local : ℕ
set_local = 0x21

abbrev pub tee_local : ℕ
tee_local = 0x22

abbrev pub get_global : ℕ
get_global = 0x23

abbrev pub set_global : ℕ
set_global = 0x24

abbrev pub i32_const : ℕ
i32_const = 0x41

abbrev pub i64_const : ℕ
i64_const = 0x42

abbrev pub f32_const : ℕ
f32_const = 0x43

abbrev pub f64_const : ℕ
f64_const = 0x44

-- The loads and stores, OPCODE_I32_LOAD to OPCODE_I64_STORE32.
unfoldable pub is_load_store : ℕ → Bool
is_load_store op = leb 0x28 op && leb op 0x3e

-- The opcodes with no operand: OPCODE_UNREACHABLE, NOP, RETURN, DROP, SELECT, MEMORY_SIZE,
-- MEMORY_GROW, and all from OPCODE_I32_EQZ to OPCODE_F64_REINTERPRET_I64.
unfoldable pub is_plain : ℕ → Bool
is_plain op =
    leb op 0x01
    || op == 0x0f
    || op == 0x1a
    || op == 0x1b
    || op == 0x3f
    || op == 0x40
    || (leb 0x45 op && leb op 0xbf)

-- memory.size and memory.grow, of which the specification has a byte 0 behind the opcode.
abbrev pub has_reserved : ℕ → Bool
has_reserved op = op == 0x3f || op == 0x40
