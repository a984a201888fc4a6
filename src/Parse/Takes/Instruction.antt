-- ===== src/Parse/Takes/Instruction.antt =====
-- `Takes` for read_instruction of src/wasmjit/parse.c, case by case of its switch.
use wasmjit.Prelude.{ℕ, ◌==◌, if◌then◌else◌}
use wasmjit.Ast.Instruction.{Instr}
use wasmjit.Parse.State.{ParseState, Reader, Allocator}
use wasmjit.Parse.Instruction.{
  operand, read_br_table, read_call_indirect, read_load_store, read_constant, read_variable,
  read_branch, read_operands, read_instruction,
}
use wasmjit.Parse.Takes.{
  Takes, Runs, fails, bind-Takes, if_reader-Takes, pure-Takes, check-Takes, read_uint8-Takes,
  read_uint8-Runs, read_uleb-Runs, read_leb-Runs, read_float-Runs, read_double-Runs,
  read_vector-Takes,
}

operand-Runs : (read : Reader ℕ) (instr : ℕ → Instr) → Runs read → Runs (operand read instr)
operand-Runs read instr h s = bind-Takes (h s) λ _. pure-Takes _

read_br_table-Runs : (alloc : Allocator) → Runs (read_br_table alloc)
unfolding read_br_table
read_br_table-Runs alloc s = bind-Takes (read_uleb-Runs 32 s) λ n s₁.
    bind-Takes (read_vector-Takes alloc 4 n (read_uleb-Runs 32) s₁)
      λ _ s₂. bind-Takes (read_uleb-Runs 32 s₂) λ _. pure-Takes _

read_call_indirect-Runs : Runs read_call_indirect
unfolding read_call_indirect
read_call_indirect-Runs s = bind-Takes (read_uleb-Runs 32 s) λ n s₁.
    bind-Takes (read_uint8-Runs s₁) λ b s₂. bind-Takes (check-Takes (b == 0) s₂) λ _. pure-Takes _

read_load_store-Runs : (op : ℕ) → Runs (read_load_store op)
unfolding read_load_store
read_load_store-Runs op s =
    bind-Takes (read_uleb-Runs 32 s) λ _ s₁. bind-Takes (read_uleb-Runs 32 s₁) λ _. pure-Takes _

-- A switch with one operand in each case.
case-Runs :
    (op c : ℕ) (read : Reader ℕ) (instr : ℕ → Instr) (rest : Reader Instr)
    → Runs read
    → Runs rest
    → Runs (if op == c then operand read instr else rest)
case-Runs op c read instr rest h k s =
    if_reader-Takes (op == c) (operand read instr) rest (operand-Runs read instr h s) (k s)

read_constant-Runs : (op : ℕ) → Runs (read_constant op)
unfolding read_constant
read_constant-Runs op = case-Runs op _ _ _ _ (read_leb-Runs 32) (
    case-Runs op _ _ _ _ (read_leb-Runs 64)
      (case-Runs op _ _ _ _ read_float-Runs (case-Runs op _ _ _ _ read_double-Runs (λ s. fails))))

read_variable-Runs : (op : ℕ) → Runs (read_variable op)
unfolding read_variable
read_variable-Runs op = case-Runs op _ _ _ _ (read_uleb-Runs 32) (
    case-Runs op _ _ _ _ (read_uleb-Runs 32) (
      case-Runs op _ _ _ _ (read_uleb-Runs 32) (
        case-Runs op _ _ _ _ (read_uleb-Runs 32)
          (case-Runs op _ _ _ _ (read_uleb-Runs 32) (read_constant-Runs op)))))

-- A switch with a reader of its own in the case.
other_case-Runs :
    (op c : ℕ) (read rest : Reader Instr)
    → Runs read
    → Runs rest
    → Runs (if op == c then read else rest)
other_case-Runs op c read rest h k s = if_reader-Takes (op == c) read rest (h s) (k s)

read_branch-Runs : (alloc : Allocator) (op : ℕ) → Runs (read_branch alloc op)
unfolding read_branch
read_branch-Runs alloc op = case-Runs op _ _ _ _ (read_uleb-Runs 32) (
    case-Runs op _ _ _ _ (read_uleb-Runs 32) (
      other_case-Runs op _ _ _ (read_br_table-Runs alloc) (
        case-Runs op _ _ _ _ (read_uleb-Runs 32)
          (other_case-Runs op _ _ _ read_call_indirect-Runs (read_variable-Runs op)))))

pub read_operands-Runs : (alloc : Allocator) (op : ℕ) → Runs (read_operands alloc op)
unfolding read_operands
read_operands-Runs alloc op s =
    search
      (
        if_reader-Takes, bind-Takes, read_uint8-Runs, pure-Takes, read_load_store-Runs,
        read_branch-Runs,
      )
      depth 9

-- `read_instruction` takes the opcode at least.
pub read_instruction-Takes :
    (alloc : Allocator) (s : ParseState) → Takes 1 s (read_instruction alloc s)
unfolding read_instruction
read_instruction-Takes alloc s = bind-Takes (read_uint8-Takes s) (read_operands-Runs alloc)
