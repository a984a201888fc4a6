-- ===== src/Parse/Instruction.antt =====
-- src/wasmjit/parse.c: read_instruction, the opcode and its immediate operands. The bodies of
-- `block`, `loop` and `if` come after it and are read by `read_instructions`.
use wasmjit.Prelude.{ℕ, ◌*◌, ◌||◌, List, [], ◌==◌, if◌then◌else◌}
use wasmjit.Ast.Instruction.{
  Instr, plain, block, loop, if_, br, br_if, br_table, call, call_indirect, get_local, set_local,
  tee_local, get_global, set_global, load_store, i32_const, i64_const, f32_const, f64_const, nil,
}
use wasmjit.Ast.Opcode
use wasmjit.Parse.State.{
  Reader, pure, failed, check, ◌>>=◌, ◌>>◌, Allocator, request, read_uint8, read_float, read_double,
  read_items,
}
use wasmjit.Parse.Leb.{read_uleb_uint32, read_leb_uint32, read_leb_uint64}

-- A vector of `n` items that is allocated, unless it is empty, at `size` bytes an item.
unfoldable pub read_vector {ℓ} : {A : Type ℓ} → Allocator → ℕ → ℕ → Reader A → Reader (List A)
read_vector alloc size n read =
    if n == 0 then pure [] else (request alloc (n * size) >> read_items n read)

-- An instruction with one immediate operand.
abbrev pub operand : Reader ℕ → (ℕ → Instr) → Reader Instr
operand read instr = do value ← read; pure (instr value)

unfoldable pub read_br_table : Allocator → Reader Instr
read_br_table alloc = do
  n_labelidxs ← read_uleb_uint32
  labelidxs ← read_vector alloc 4 n_labelidxs read_uleb_uint32
  labelidx ← read_uleb_uint32
  pure (br_table labelidxs labelidx)

unfoldable pub read_call_indirect : Reader Instr
read_call_indirect = do
  typeidx ← read_uleb_uint32
  nullb ← read_uint8
  check (nullb == 0)
  pure (call_indirect typeidx)

unfoldable pub read_load_store : ℕ → Reader Instr
read_load_store op = do
  align ← read_uleb_uint32
  offset ← read_uleb_uint32
  pure (load_store op align offset)

-- The cases for constants, and the default, which is an error.
unfoldable pub read_constant : ℕ → Reader Instr
read_constant op =
    if op == Opcode.i32_const
    then operand read_leb_uint32 i32_const
    else if op == Opcode.i64_const
    then operand read_leb_uint64 i64_const
    else if op == Opcode.f32_const
    then operand read_float f32_const
    else if op == Opcode.f64_const
    then operand read_double f64_const
    else failed

unfoldable pub read_variable : ℕ → Reader Instr
unfolding read_constant
read_variable op =
    if op == Opcode.get_local
    then operand read_uleb_uint32 get_local
    else if op == Opcode.set_local
    then operand read_uleb_uint32 set_local
    else if op == Opcode.tee_local
    then operand read_uleb_uint32 tee_local
    else if op == Opcode.get_global
    then operand read_uleb_uint32 get_global
    else if op == Opcode.set_global
    then operand read_uleb_uint32 set_global
    else read_constant op

unfoldable pub read_branch : Allocator → ℕ → Reader Instr
unfolding read_variable
read_branch alloc op =
    if op == Opcode.br
    then operand read_uleb_uint32 br
    else if op == Opcode.br_if
    then operand read_uleb_uint32 br_if
    else if op == Opcode.br_table
    then read_br_table alloc
    else if op == Opcode.call
    then operand read_uleb_uint32 call
    else if op == Opcode.call_indirect
    then read_call_indirect
    else read_variable op

-- The switch on the opcode.
unfoldable pub read_operands : Allocator → ℕ → Reader Instr
unfolding read_branch Opcode.is_plain Opcode.is_load_store
read_operands alloc op =
    if op == Opcode.block_terminal || op == Opcode.else_terminal || Opcode.is_plain op
    then pure (plain op)
    else if op == Opcode.block
    then operand read_uint8 (λ blocktype. block blocktype nil)
    else if op == Opcode.loop
    then operand read_uint8 (λ blocktype. loop blocktype nil)
    else if op == Opcode.if_
    then operand read_uint8 (λ blocktype. if_ blocktype nil nil)
    else if Opcode.is_load_store op
    then read_load_store op
    else read_branch alloc op

unfoldable pub read_instruction : Allocator → Reader Instr
unfolding read_operands
read_instruction alloc = do op ← read_uint8; read_operands alloc op
