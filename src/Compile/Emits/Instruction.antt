-- ===== src/Compile/Emits/Instruction.antt =====
-- The postcondition for wasmjit_compile_instruction of src/wasmjit/compile.c, case by case.
use wasmjit.Prelude.{ℕ, ◌+◌, List, [], ◌∷◌, none, some, Option, lookup}
use wasmjit.Ast.Instruction.{
  Instr, plain, block, loop, if_, br, br_if, br_table, call, call_indirect, get_local, set_local,
  tee_local, get_global, set_global, load_store, i32_const, i64_const, f32_const, f64_const,
}
use wasmjit.Ast.Section.{FuncType}
use wasmjit.Compile.State.{Flags, Allocator}
use wasmjit.Compile.Control.{Env, LocalMd}
use wasmjit.Compile.Call.{
  Passed, emit_args, emit_resolve, emit_check_stack, emit_result, emit_call_of, emit_call,
  emit_call_indirect, pass,
}
use wasmjit.Compile.Variable.{
  emit_drop, emit_select, emit_get_local, emit_set_local, emit_tee_local, emit_get_global,
  emit_set_global, emit_const,
}
use wasmjit.Compile.Memory.{
  Access, loads, stores, emit_address, emit_load, emit_store, access_case, emit_load_store,
}
use wasmjit.Compile.Numeric.{
  Numeric, eqz, compare, compare_f64, arithmetic, divide, shift, negate_f64, arithmetic_f64,
  convert, outs_wide, emit_numeric,
}
use wasmjit.Compile.Numeric.Cases.{numerics}
use wasmjit.Compile.Instruction.{
  numeric_of, numeric_case, emit_plain, emit_instruction, compile_instruction,
}
use wasmjit.Compile.Emits.{Emits}
use wasmjit.Compile.Emits.Rules.{Emits-pure, Emits-wrong, Emits-unchecked}
use wasmjit.Compile.Emits.Stack.{stack_rules}
use wasmjit.Compile.Emits.Branch.{
  emit_br-Emits, emit_br_if-Emits, emit_br_table-Emits, emit_return-Emits, emit_indirect_call-Emits,
  emit_trap-Emits,
}

ruleset code_rules = (stack_rules, emit_indirect_call-Emits, emit_trap-Emits)

module _ (alloc : Allocator) where
  emit_args-Emits :
      (n_inputs aligned i : ℕ) (ts : List ℕ) (p : Passed)
      → Emits (emit_args alloc n_inputs aligned i ts p)
  unfolding emit_args
  emit_args-Emits n_inputs aligned i [] p = Emits-pure p
  emit_args-Emits n_inputs aligned i (t ∷ ts) p =
      let rest = emit_args-Emits n_inputs aligned (i + 1) ts (pass t p) in
      search code_rules depth 12

  emit_resolve-Emits :
      (flags : Flags) (typeidx depth : ℕ) → Emits (emit_resolve alloc flags typeidx depth)
  unfolding emit_resolve
  emit_resolve-Emits flags typeidx depth = search code_rules depth 20

  emit_check_stack-Emits :
      (flags : Flags) (depth extra : ℕ) → Emits (emit_check_stack alloc flags depth extra)
  unfolding emit_check_stack
  emit_check_stack-Emits flags depth extra = search code_rules depth 20

  emit_result-Emits : (ft : FuncType) → Emits (emit_result alloc ft)
  unfolding emit_result
  emit_result-Emits ft = search code_rules depth 9

  emit_call_of-Emits :
      (env : Env) (ft : FuncType) (depth : ℕ) → Emits (emit_call_of alloc env ft depth)
  unfolding emit_call_of
  emit_call_of-Emits env ft depth =
      search (code_rules, emit_args-Emits, emit_check_stack-Emits, emit_result-Emits) depth 20

  emit_call-Emits : (env : Env) (funcidx : ℕ) → Emits (emit_call alloc env funcidx)
  unfolding emit_call
  emit_call-Emits env funcidx = search (code_rules, emit_call_of-Emits) depth 9

  emit_call_indirect-Emits :
      (env : Env) (typeidx : ℕ) → Emits (emit_call_indirect alloc env typeidx)
  unfolding emit_call_indirect
  emit_call_indirect-Emits env typeidx =
      search (code_rules, emit_resolve-Emits, emit_call_of-Emits) depth 9

  emit_drop-Emits : Emits (emit_drop alloc)
  unfolding emit_drop
  emit_drop-Emits = search code_rules

  emit_select-Emits : Emits (emit_select alloc)
  unfolding emit_select
  emit_select-Emits = search code_rules

  emit_get_local-Emits :
      (locals_md : List LocalMd) (i : ℕ) → Emits (emit_get_local alloc locals_md i)
  unfolding emit_get_local
  emit_get_local-Emits locals_md i = search code_rules depth 9

  emit_set_local-Emits :
      (locals_md : List LocalMd) (i : ℕ) → Emits (emit_set_local alloc locals_md i)
  unfolding emit_set_local
  emit_set_local-Emits locals_md i = search code_rules depth 9

  emit_tee_local-Emits :
      (locals_md : List LocalMd) (i : ℕ) → Emits (emit_tee_local alloc locals_md i)
  unfolding emit_tee_local
  emit_tee_local-Emits locals_md i = search code_rules depth 9

  emit_get_global-Emits : (env : Env) (i : ℕ) → Emits (emit_get_global alloc env i)
  unfolding emit_get_global
  emit_get_global-Emits env i = search code_rules depth 9

  emit_set_global-Emits : (env : Env) (i : ℕ) → Emits (emit_set_global alloc env i)
  unfolding emit_set_global
  emit_set_global-Emits env i = search code_rules depth 9

  emit_const-Emits : (code : List ℕ) (n value type : ℕ) → Emits (emit_const alloc code n value type)
  unfolding emit_const
  emit_const-Emits code n value type = search code_rules depth 9

  emit_address-Emits :
      (flags : Flags) (mem_size offset : ℕ) → Emits (emit_address alloc flags mem_size offset)
  unfolding emit_address
  emit_address-Emits flags mem_size offset = search code_rules depth 20

  emit_load-Emits :
      (flags : Flags) (offset : ℕ) (a : Access) → Emits (emit_load alloc flags offset a)
  unfolding emit_load
  emit_load-Emits flags offset a = search (code_rules, emit_address-Emits) depth 9

  emit_store-Emits :
      (flags : Flags) (offset : ℕ) (a : Access) → Emits (emit_store alloc flags offset a)
  unfolding emit_store
  emit_store-Emits flags offset a = search (code_rules, emit_address-Emits) depth 9

  access_case-Emits :
      (flags : Flags) (offset : ℕ) (load store : Option Access)
      → Emits (access_case alloc flags offset load store)
  access_case-Emits flags offset (some a) store = emit_load-Emits flags offset a
  access_case-Emits flags offset none (some a) = emit_store-Emits flags offset a
  access_case-Emits flags offset none none = Emits-wrong

  emit_load_store-Emits :
      (flags : Flags) (op offset : ℕ) → Emits (emit_load_store alloc flags op offset)
  unfolding emit_load_store
  emit_load_store-Emits flags op offset =
      access_case-Emits flags offset (lookup op loads) (lookup op stores)

  outs_wide-Emits : (type : ℕ) (codes : List (List ℕ)) → Emits (outs_wide alloc type codes)
  unfolding outs_wide
  outs_wide-Emits type [] = Emits-pure tt
  outs_wide-Emits type (code ∷ codes) =
      let rest = outs_wide-Emits type codes in search code_rules depth 7

  emit_numeric-Emits : (n : Numeric) → Emits (emit_numeric alloc n)
  unfolding emit_numeric
  emit_numeric-Emits eqz = search code_rules depth 12
  emit_numeric-Emits (compare t set) = search (code_rules, outs_wide-Emits) depth 12
  emit_numeric-Emits (compare_f64 before after) = search code_rules depth 12
  emit_numeric-Emits (arithmetic t codes) = search (code_rules, outs_wide-Emits) depth 12
  emit_numeric-Emits (divide t codes) = search (code_rules, outs_wide-Emits) depth 12
  emit_numeric-Emits (shift t code) = search (code_rules, outs_wide-Emits) depth 12
  emit_numeric-Emits negate_f64 = search code_rules depth 12
  emit_numeric-Emits (arithmetic_f64 code) = search code_rules depth 12
  emit_numeric-Emits (convert from to codes) = search code_rules depth 12

  numeric_of-Emits : (n : Option Numeric) → Emits (numeric_of alloc n)
  numeric_of-Emits (some n) = emit_numeric-Emits n
  numeric_of-Emits none = Emits-wrong

  numeric_case-Emits : (op : ℕ) → Emits (numeric_case alloc op)
  unfolding numeric_case
  numeric_case-Emits op = numeric_of-Emits (lookup op numerics)

  emit_plain-Emits : (env : Env) (op : ℕ) → Emits (emit_plain alloc env op)
  unfolding emit_plain
  emit_plain-Emits env op =
      search (code_rules, emit_return-Emits, emit_drop-Emits, emit_select-Emits, numeric_case-Emits)
        depth 9

  emit_instruction-Emits : (env : Env) (i : Instr) → Emits (emit_instruction alloc env i)
  unfolding emit_instruction
  emit_instruction-Emits env (plain op) = emit_plain-Emits env op
  emit_instruction-Emits env (block _ _) = Emits-wrong
  emit_instruction-Emits env (loop _ _) = Emits-wrong
  emit_instruction-Emits env (if_ _ _ _) = Emits-wrong
  emit_instruction-Emits env (br i) = emit_br-Emits alloc i
  emit_instruction-Emits env (br_if i) = emit_br_if-Emits alloc i
  emit_instruction-Emits env (br_table is i) = emit_br_table-Emits alloc env.flags is i
  emit_instruction-Emits env (call i) = emit_call-Emits env i
  emit_instruction-Emits env (call_indirect i) = emit_call_indirect-Emits env i
  emit_instruction-Emits env (get_local i) = emit_get_local-Emits env.locals_md i
  emit_instruction-Emits env (set_local i) = emit_set_local-Emits env.locals_md i
  emit_instruction-Emits env (tee_local i) = emit_tee_local-Emits env.locals_md i
  emit_instruction-Emits env (get_global i) = emit_get_global-Emits env i
  emit_instruction-Emits env (set_global i) = emit_set_global-Emits env i
  emit_instruction-Emits env (load_store op a o) = emit_load_store-Emits env.flags op o
  emit_instruction-Emits env (i32_const v) = emit_const-Emits _ 4 v _
  emit_instruction-Emits env (i64_const v) = emit_const-Emits _ 8 v _
  emit_instruction-Emits env (f32_const v) = emit_const-Emits _ 4 v _
  emit_instruction-Emits env (f64_const v) = emit_const-Emits _ 8 v _

  pub compile_instruction-Emits : (env : Env) (i : Instr) → Emits (compile_instruction alloc env i)
  unfolding compile_instruction
  compile_instruction-Emits env i = Emits-unchecked (emit_instruction-Emits env i)
