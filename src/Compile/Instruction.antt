-- ===== src/Compile/Instruction.antt =====
-- src/wasmjit/compile.c: wasmjit_compile_instruction. Its failures end in `assert(0)`, so that a
-- caller never sees one.
use wasmjit.Prelude.{ℕ, [], ◌∷◌, Option, none, some, lookup, ◌==◌, if◌then◌else◌}
use wasmjit.Ast.Valtype
use wasmjit.Ast.Instruction.{
  Instr, plain, block, loop, if_, br, br_if, br_table, call, call_indirect, get_local, set_local,
  tee_local, get_global, set_global, load_store, i32_const, i64_const, f32_const, f64_const,
}
use wasmjit.Compile.State.{Emit, skip, wrong, unchecked, Allocator}
use wasmjit.Compile.Retpoline.{emit_trap}
use wasmjit.Compile.Control.{Env, emit_br, emit_br_if, emit_br_table, emit_return}
use wasmjit.Compile.Call.{emit_call, emit_call_indirect}
use wasmjit.Compile.Variable.{
  emit_drop, emit_select, emit_get_local, emit_set_local, emit_tee_local, emit_get_global,
  emit_set_global, emit_const,
}
use wasmjit.Compile.Memory.{emit_load_store}
use wasmjit.Compile.Numeric.{Numeric, emit_numeric}
use wasmjit.Compile.Numeric.Cases.{numerics}

-- WASMJIT_TRAP_UNREACHABLE
abbrev pub trap_unreachable : ℕ
trap_unreachable = 1

abbrev pub numeric_of : Allocator → Option Numeric → Emit (Unit {0})
numeric_of alloc none = wrong
numeric_of alloc (some n) = emit_numeric alloc n

unfoldable pub numeric_case : Allocator → ℕ → Emit (Unit {0})
numeric_case alloc op = numeric_of alloc (lookup op numerics)

-- The opcodes with no operand: OPCODE_UNREACHABLE, NOP, RETURN, DROP, SELECT and the numeric ones.
unfoldable pub emit_plain : Allocator → Env → ℕ → Emit (Unit {0})
unfolding numeric_case
emit_plain alloc env op =
    if op == 0x00
    then emit_trap alloc env.flags trap_unreachable
    else if op == 0x01
    then skip
    else if op == 0x0f
    then emit_return alloc env.type env.n_frame_locals
    else if op == 0x1a
    then emit_drop alloc
    else if op == 0x1b
    then emit_select alloc
    else numeric_case alloc op

-- The cases of the switch. Blocks never get here.
unfoldable pub emit_instruction : Allocator → Env → Instr → Emit (Unit {0})
unfolding emit_plain
emit_instruction alloc env (plain op) = emit_plain alloc env op
emit_instruction alloc env (block _ _) = wrong
emit_instruction alloc env (loop _ _) = wrong
emit_instruction alloc env (if_ _ _ _) = wrong
emit_instruction alloc env (br labelidx) = emit_br alloc labelidx
emit_instruction alloc env (br_if labelidx) = emit_br_if alloc labelidx
emit_instruction alloc env (br_table labelidxs labelidx) =
    emit_br_table alloc env.flags labelidxs labelidx
emit_instruction alloc env (call funcidx) = emit_call alloc env funcidx
emit_instruction alloc env (call_indirect typeidx) = emit_call_indirect alloc env typeidx
emit_instruction alloc env (get_local localidx) = emit_get_local alloc env.locals_md localidx
emit_instruction alloc env (set_local localidx) = emit_set_local alloc env.locals_md localidx
emit_instruction alloc env (tee_local localidx) = emit_tee_local alloc env.locals_md localidx
emit_instruction alloc env (get_global globalidx) = emit_get_global alloc env globalidx
emit_instruction alloc env (set_global globalidx) = emit_set_global alloc env globalidx
emit_instruction alloc env (load_store op align offset) = emit_load_store alloc env.flags op offset
emit_instruction alloc env (i32_const value) = emit_const alloc (0xb8 ∷ []) 4 value Valtype.i32
emit_instruction alloc env (i64_const value) =
    emit_const alloc (0x48 ∷ 0xb8 ∷ []) 8 value Valtype.i64
emit_instruction alloc env (f32_const value) = emit_const alloc (0xb8 ∷ []) 4 value Valtype.f32
emit_instruction alloc env (f64_const value) =
    emit_const alloc (0x48 ∷ 0xb8 ∷ []) 8 value Valtype.f64

unfoldable pub compile_instruction : Allocator → Env → Instr → Emit (Unit {0})
unfolding emit_instruction
compile_instruction alloc env instruction = unchecked (emit_instruction alloc env instruction)
