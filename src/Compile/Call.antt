-- ===== src/Compile/Call.antt =====
-- src/wasmjit/compile.c: OPCODE_CALL and OPCODE_CALL_INDIRECT of wasmjit_compile_instruction. The
-- first arguments go to registers, the others are pushed again; the callee's stack usage is tested
-- where `check_stack` is set.
use wasmjit.Prelude.{
  ℕ, ◌+◌, ◌-◌, ◌*◌, ◌%◌, ◌^◌, Bool, ◌&&◌, ◌||◌, List, [], ◌∷◌, Option, none, some, length,
  get_elem?, ltb, ◌==◌, if◌then◌else◌,
}
use wasmjit.Ast.Valtype
use wasmjit.Ast.Section.{FuncType}
use wasmjit.Parse.Types.{n_outputs_of}
use wasmjit.Compile.State.{
  Flags, memref_type, memref_func, memref_table, memref_resolve_indirect_call, memref_stack_top,
  Emit, pure, skip, assert, get, found, unchecked, ◌>>=◌, ◌>>◌, Allocator, out, outs, out_uint32,
  out_memref,
}
use wasmjit.Compile.Stack.{push_stack, pop_type, stack_truncate, stack_depth}
use wasmjit.Compile.Retpoline.{trap_size, emit_trap, emit_indirect_call}
use wasmjit.Compile.Control.{Env}

-- WASMJIT_TRAP_STACK_OVERFLOW
abbrev pub trap_stack_overflow : ℕ
trap_stack_overflow = 7

-- Offsets of the fields of `struct FuncInst` on x86-64.
abbrev pub funcinst_compiled_code : ℕ
funcinst_compiled_code = 8

abbrev pub funcinst_stack_usage : ℕ
funcinst_stack_usage = 40

abbrev pub is_int : ℕ → Bool
is_int t = t == Valtype.i32 || t == Valtype.i64

-- How many arguments went to which registers, and to the stack, so far.
pub record Passed : Type 0 where
  pub n_movs : ℕ
  pub n_xmm_movs : ℕ
  pub n_stack : ℕ

abbrev pub none_passed : Passed
none_passed = record { n_movs = 0; n_xmm_movs = 0; n_stack = 0 }

-- One argument more that goes to no register of integers.
abbrev pub pass_float : ℕ → Passed → Passed
pass_float t p =
    if t == Valtype.f32 && ltb p.n_xmm_movs 8
    then record p { n_xmm_movs = p.n_xmm_movs + 1 }
    else if t == Valtype.f64 && ltb p.n_xmm_movs 8
    then record p { n_xmm_movs = p.n_xmm_movs + 1 }
    else record p { n_stack = p.n_stack + 1 }

-- One argument more.
abbrev pub pass : ℕ → Passed → Passed
pass t p = if is_int t && ltb p.n_movs 6 then record p { n_movs = p.n_movs + 1 } else pass_float t p

abbrev pub pass_all : List ℕ → Passed → Passed
pass_all [] p = p
pass_all (t ∷ ts) p = pass_all ts (pass t p)

-- `mov N(%rsp), …` for the registers of integers, and `movss` and `movsd` for the others.
abbrev pub int_movs : List (List ℕ)
int_movs =
    (0x48 ∷ 0x8b ∷ 0xbc ∷ 0x24 ∷ [])
    ∷ (0x48 ∷ 0x8b ∷ 0xb4 ∷ 0x24 ∷ [])
    ∷ (0x48 ∷ 0x8b ∷ 0x94 ∷ 0x24 ∷ [])
    ∷ (0x48 ∷ 0x8b ∷ 0x8c ∷ 0x24 ∷ [])
    ∷ (0x4c ∷ 0x8b ∷ 0x84 ∷ 0x24 ∷ [])
    ∷ (0x4c ∷ 0x8b ∷ 0x8c ∷ 0x24 ∷ [])
    ∷ []

abbrev pub f32_movs : List (List ℕ)
f32_movs =
    (0xf3 ∷ 0x0f ∷ 0x10 ∷ 0x84 ∷ 0x24 ∷ [])
    ∷ (0xf3 ∷ 0x0f ∷ 0x10 ∷ 0x8c ∷ 0x24 ∷ [])
    ∷ (0xf3 ∷ 0x0f ∷ 0x10 ∷ 0x94 ∷ 0x24 ∷ [])
    ∷ (0xf3 ∷ 0x0f ∷ 0x10 ∷ 0x9c ∷ 0x24 ∷ [])
    ∷ (0xf3 ∷ 0x0f ∷ 0x10 ∷ 0xa4 ∷ 0x24 ∷ [])
    ∷ (0xf3 ∷ 0x0f ∷ 0x10 ∷ 0xac ∷ 0x24 ∷ [])
    ∷ (0xf3 ∷ 0x0f ∷ 0x10 ∷ 0xb4 ∷ 0x24 ∷ [])
    ∷ (0xf3 ∷ 0x0f ∷ 0x10 ∷ 0xbc ∷ 0x24 ∷ [])
    ∷ []

abbrev pub f64_movs : List (List ℕ)
f64_movs =
    (0xf2 ∷ 0x0f ∷ 0x10 ∷ 0x84 ∷ 0x24 ∷ [])
    ∷ (0xf2 ∷ 0x0f ∷ 0x10 ∷ 0x8c ∷ 0x24 ∷ [])
    ∷ (0xf2 ∷ 0x0f ∷ 0x10 ∷ 0x94 ∷ 0x24 ∷ [])
    ∷ (0xf2 ∷ 0x0f ∷ 0x10 ∷ 0x9c ∷ 0x24 ∷ [])
    ∷ (0xf2 ∷ 0x0f ∷ 0x10 ∷ 0xa4 ∷ 0x24 ∷ [])
    ∷ (0xf2 ∷ 0x0f ∷ 0x10 ∷ 0xac ∷ 0x24 ∷ [])
    ∷ (0xf2 ∷ 0x0f ∷ 0x10 ∷ 0xb4 ∷ 0x24 ∷ [])
    ∷ (0xf2 ∷ 0x0f ∷ 0x10 ∷ 0xbc ∷ 0x24 ∷ [])
    ∷ []

-- The instruction for an argument, and its operand.
pub record Move : Type 0 where
  pub code : Option (List ℕ)
  pub stack_offset : ℕ

-- The offset of an argument that goes to a register.
abbrev pub register_offset : ℕ → ℕ → ℕ → Passed → ℕ
register_offset n_inputs i aligned p = (n_inputs - i - 1 + p.n_stack + aligned) * 8

-- That of one that is pushed, on numbers that wrap around.
abbrev pub pushed_offset : ℕ → ℕ → ℕ → Passed → ℕ
pushed_offset n_inputs i aligned p =
    (i + p.n_stack + aligned + 2 ^ 64 - (n_inputs - 1)) * 8 % 2 ^ 32

abbrev pub move_of : ℕ → ℕ → ℕ → ℕ → Passed → Move
move_of n_inputs i aligned t p =
    let offset = register_offset n_inputs i aligned p in
    if is_int t && ltb p.n_movs 6
    then record { code = get_elem? int_movs p.n_movs; stack_offset = offset }
    else if t == Valtype.f32 && ltb p.n_xmm_movs 8
    then record { code = get_elem? f32_movs p.n_xmm_movs; stack_offset = offset }
    else if t == Valtype.f64 && ltb p.n_xmm_movs 8
    then record { code = get_elem? f64_movs p.n_xmm_movs; stack_offset = offset }
    else record {
      code = some (0xff ∷ 0xb4 ∷ 0x24 ∷ []);
      stack_offset = pushed_offset n_inputs i aligned p;
    }

-- The arguments from the `i`th on.
unfoldable pub emit_args : Allocator → ℕ → ℕ → ℕ → List ℕ → Passed → Emit Passed
emit_args alloc n_inputs aligned i [] p = pure p
emit_args alloc n_inputs aligned i (t ∷ ts) p = do
  s ← get
  elt ← found (get_elem? s.stack (n_inputs - 1 - i))
  assert (elt.type == t)
  let move = move_of n_inputs i aligned t p
  code ← found move.code
  out alloc code
  out_uint32 alloc move.stack_offset
  emit_args alloc n_inputs aligned (i + 1) ts (pass t p)

-- A call with the stack aligned to 16 bytes, where it holds so many words.
abbrev pub emit_aligned_call : Allocator → Flags → ℕ → Emit (Unit {0})
emit_aligned_call alloc flags depth = do
  if depth % 2 == 0 then skip else out alloc (0x48 ∷ 0x83 ∷ 0xec ∷ 0x08 ∷ [])
  emit_indirect_call alloc flags
  if depth % 2 == 0 then skip else out alloc (0x48 ∷ 0x83 ∷ 0xc4 ∷ 0x08 ∷ [])

-- The function's address from the table, by a call of the runtime.
unfoldable pub emit_resolve : Allocator → Flags → ℕ → ℕ → Emit (Unit {0})
emit_resolve alloc flags typeidx depth = do
  pop_type alloc Valtype.i32
  out alloc (0x48 ∷ 0xbf ∷ [])
  out_memref alloc memref_table (some 0)
  out alloc (0x48 ∷ 0xbe ∷ [])
  out_memref alloc memref_type (some typeidx)
  out alloc (0x5a ∷ [])
  out alloc (0x48 ∷ 0xb8 ∷ [])
  out_memref alloc memref_resolve_indirect_call none
  emit_aligned_call alloc flags (depth - 1)

-- The test of the callee's stack usage, with `depth` counting the word that is pushed here.
unfoldable pub emit_check_stack : Allocator → Flags → ℕ → ℕ → Emit (Unit {0})
emit_check_stack alloc flags depth extra = do
  out alloc (0x53 ∷ [])
  out alloc (0x48 ∷ 0x89 ∷ 0xc3 ∷ [])
  out alloc (0x48 ∷ 0xb8 ∷ [])
  out_memref alloc memref_stack_top none
  emit_aligned_call alloc flags depth
  outs alloc
      ((0x48 ∷ 0x8b ∷ 0x53 ∷ []) ∷ (funcinst_stack_usage ∷ []) ∷ (0x48 ∷ 0x89 ∷ 0xe7 ∷ []) ∷ [])
  if extra == 0
      then skip
      else (do out alloc (0x48 ∷ 0x81 ∷ 0xc2 ∷ []); out_uint32 alloc (extra * 8))
  outs alloc (
      (0x48 ∷ 0x29 ∷ 0xd7 ∷ [])
      ∷ (0x72 ∷ [])
      ∷ (0x05 ∷ [])
      ∷ (0x48 ∷ 0x39 ∷ 0xf8 ∷ [])
      ∷ (0x76 ∷ [])
      ∷ (trap_size flags ∷ [])
      ∷ [])
  unchecked (emit_trap alloc flags trap_stack_overflow)
  outs alloc ((0x48 ∷ 0x89 ∷ 0xd8 ∷ []) ∷ (0x5b ∷ []) ∷ [])

-- The result goes to the stack.
unfoldable pub emit_result : Allocator → FuncType → Emit (Unit {0})
emit_result alloc ft = if n_outputs_of ft == 0 then skip else (do
  if ft.output_type == Valtype.f32
      then out alloc (0x66 ∷ 0x0f ∷ 0x7e ∷ 0xc0 ∷ [])
      else (if ft.output_type == Valtype.f64
          then out alloc (0x66 ∷ 0x48 ∷ 0x0f ∷ 0x7e ∷ 0xc0 ∷ [])
          else skip)
  out alloc (0x50 ∷ [])
  push_stack alloc ft.output_type)

-- What both opcodes share, once the instance of the callee is in %rax.
unfoldable pub emit_call_of : Allocator → Env → FuncType → ℕ → Emit (Unit {0})
unfolding emit_args emit_check_stack emit_result
emit_call_of alloc env ft depth = do
  let n_inputs = length ft.input_types
  let spilled = pass_all ft.input_types none_passed
  let aligned = (depth + spilled.n_stack) % 2
  if env.check_stack
      then emit_check_stack alloc env.flags (depth + 1) (spilled.n_stack + aligned)
      else skip
  outs alloc ((0x48 ∷ 0x8b ∷ 0x40 ∷ []) ∷ (funcinst_compiled_code ∷ []) ∷ [])
  if aligned == 0 then skip else out alloc (0x48 ∷ 0x83 ∷ 0xec ∷ 0x08 ∷ [])
  passed ← emit_args alloc n_inputs aligned 0 ft.input_types none_passed
  emit_indirect_call alloc env.flags
  out alloc (0x48 ∷ 0x81 ∷ 0xc4 ∷ [])
  out_uint32 alloc ((passed.n_stack + n_inputs + aligned) * 8)
  s ← get
  stack_truncate alloc (length s.stack - n_inputs)
  emit_result alloc ft

unfoldable pub emit_call : Allocator → Env → ℕ → Emit (Unit {0})
unfolding emit_call_of
emit_call alloc env funcidx = do
  s ← get
  ft ← found (get_elem? env.functypes funcidx)
  out alloc (0x48 ∷ 0xb8 ∷ [])
  out_memref alloc memref_func (some funcidx)
  emit_call_of alloc env ft (env.n_frame_locals + stack_depth s.stack)

unfoldable pub emit_call_indirect : Allocator → Env → ℕ → Emit (Unit {0})
unfolding emit_resolve emit_call_of
emit_call_indirect alloc env typeidx = do
  s ← get
  ft ← found (get_elem? env.func_types typeidx)
  emit_resolve alloc env.flags typeidx (env.n_frame_locals + stack_depth s.stack)
  emit_call_of alloc env ft (env.n_frame_locals + stack_depth s.stack - 1)
