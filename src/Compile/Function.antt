-- ===== src/Compile/Function.antt =====
-- src/wasmjit/compile.c: wasmjit_compile_function. `Frame` has the places of the locals; the freeing
-- of the vectors at the end is left out, and so is the code under WASMJIT_DEBUG_STACK, which is 0.
use wasmjit.Prelude.{
  ℕ, ◌+◌, ◌-◌, ◌*◌, ◌%◌, ◌^◌, List, [], ◌∷◌, length, get_elem?, leb, ltb, ◌==◌, if◌then◌else◌,
}
use wasmjit.Ast.Valtype
use wasmjit.Ast.Section.{FuncType, Code}
use wasmjit.Parse.Types.{n_outputs_of}
use wasmjit.Compile.State.{
  BranchPoint, func_exit_cont, Emit, pure, skip, ensure, assert, get, found, ◌>>=◌, ◌>>◌, Allocator,
  le_bytes, negative, out, outs, out_uint32,
}
use wasmjit.Compile.Stack.{take_top}
use wasmjit.Compile.Control.{Env, LocalMd, FpOffset, below, above, patch}
use wasmjit.Compile.Sequence.{compile_instructions}
use wasmjit.Compile.Frame.{Frame, frame_of, args_of}

-- `mov` of the registers of integers to the frame, and to %rax first.
abbrev pub arg_movs : List (List ℕ)
arg_movs =
    (0x48 ∷ 0x89 ∷ 0x7d ∷ [])
    ∷ (0x48 ∷ 0x89 ∷ 0x75 ∷ [])
    ∷ (0x48 ∷ 0x89 ∷ 0x55 ∷ [])
    ∷ (0x48 ∷ 0x89 ∷ 0x4d ∷ [])
    ∷ (0x4c ∷ 0x89 ∷ 0x45 ∷ [])
    ∷ (0x4c ∷ 0x89 ∷ 0x4d ∷ [])
    ∷ []

abbrev pub i32_arg_movs : List (List ℕ)
i32_arg_movs =
    (0x89 ∷ 0xf8 ∷ [])
    ∷ (0x89 ∷ 0xf0 ∷ [])
    ∷ (0x89 ∷ 0xd0 ∷ [])
    ∷ (0x89 ∷ 0xc8 ∷ [])
    ∷ (0x44 ∷ 0x89 ∷ 0xc0 ∷ [])
    ∷ (0x44 ∷ 0x89 ∷ 0xc8 ∷ [])
    ∷ []

abbrev pub f32_arg_movs : List (List ℕ)
f32_arg_movs =
    (0xf3 ∷ 0x0f ∷ 0x11 ∷ 0x45 ∷ [])
    ∷ (0xf3 ∷ 0x0f ∷ 0x11 ∷ 0x4d ∷ [])
    ∷ (0xf3 ∷ 0x0f ∷ 0x11 ∷ 0x55 ∷ [])
    ∷ (0xf3 ∷ 0x0f ∷ 0x11 ∷ 0x5d ∷ [])
    ∷ (0xf3 ∷ 0x0f ∷ 0x11 ∷ 0x65 ∷ [])
    ∷ (0xf3 ∷ 0x0f ∷ 0x11 ∷ 0x6d ∷ [])
    ∷ (0xf3 ∷ 0x0f ∷ 0x11 ∷ 0x75 ∷ [])
    ∷ (0xf3 ∷ 0x0f ∷ 0x11 ∷ 0x7d ∷ [])
    ∷ []

abbrev pub f64_arg_movs : List (List ℕ)
f64_arg_movs =
    (0xf2 ∷ 0x0f ∷ 0x11 ∷ 0x45 ∷ [])
    ∷ (0xf2 ∷ 0x0f ∷ 0x11 ∷ 0x4d ∷ [])
    ∷ (0xf2 ∷ 0x0f ∷ 0x11 ∷ 0x55 ∷ [])
    ∷ (0xf2 ∷ 0x0f ∷ 0x11 ∷ 0x5d ∷ [])
    ∷ (0xf2 ∷ 0x0f ∷ 0x11 ∷ 0x65 ∷ [])
    ∷ (0xf2 ∷ 0x0f ∷ 0x11 ∷ 0x6d ∷ [])
    ∷ (0xf2 ∷ 0x0f ∷ 0x11 ∷ 0x75 ∷ [])
    ∷ (0xf2 ∷ 0x0f ∷ 0x11 ∷ 0x7d ∷ [])
    ∷ []

abbrev pub emit_mov : Allocator → List (List ℕ) → ℕ → Emit (Unit {0})
emit_mov alloc movs n = do code ← found (get_elem? movs n); out alloc code

-- An argument in a register goes to its place in the frame; the counts are of the registers of
-- integers and the others that are done with.
unfoldable pub emit_save : Allocator → ℕ → ℕ → ℕ → FpOffset → Emit (ℕ × ℕ)
emit_save alloc n_movs n_xmm_movs valtype (above n) = pure (n_movs, n_xmm_movs)
emit_save alloc n_movs n_xmm_movs valtype (below n) = do
  counts ←
      if valtype == Valtype.i64
      then (do emit_mov alloc arg_movs n_movs; pure (n_movs + 1, n_xmm_movs))
      else if valtype == Valtype.i32
      then (do
        emit_mov alloc i32_arg_movs n_movs
        out alloc (0x48 ∷ 0x89 ∷ 0x45 ∷ [])
        pure (n_movs + 1, n_xmm_movs))
      else (do
        if valtype == Valtype.f32
            then emit_mov alloc f32_arg_movs n_xmm_movs
            else (do assert (valtype == Valtype.f64); emit_mov alloc f64_arg_movs n_xmm_movs)
        pure (n_movs, n_xmm_movs + 1))
  assert (leb n 128)
  out alloc (negative 8 n ∷ [])
  pure counts

unfoldable pub emit_save_args : Allocator → ℕ → ℕ → List LocalMd → Emit (Unit {0})
unfolding emit_save
emit_save_args alloc n_movs n_xmm_movs [] = skip
emit_save_args alloc n_movs n_xmm_movs (local ∷ locals) = do
  counts ← emit_save alloc n_movs n_xmm_movs local.valtype local.fp_offset
  emit_save_args alloc counts.0 counts.1 locals

-- `sub` or `add` of the frame's size and %rsp, by the opcode.
abbrev pub emit_adjust : Allocator → List ℕ → ℕ → Emit (Unit {0})
emit_adjust alloc code n_frame_locals = if n_frame_locals == 0 then skip else (do
  out alloc code
  ensure (ltb (n_frame_locals * 8) (2 ^ 31))
  out_uint32 alloc (n_frame_locals * 8))

-- The locals that are no arguments start as 0.
abbrev pub emit_clear : Allocator → ℕ → Emit (Unit {0})
emit_clear alloc n =
    if n == 0
    then skip
    else if n == 1
    then out alloc (0x48 ∷ 0xc7 ∷ 0x04 ∷ 0x24 ∷ 0x00 ∷ 0x00 ∷ 0x00 ∷ 0x00 ∷ [])
    else (do
      outs alloc
          ((0x48 ∷ 0x89 ∷ 0xe7 ∷ []) ∷ (0x48 ∷ 0x31 ∷ 0xc0 ∷ []) ∷ (0x48 ∷ 0xc7 ∷ 0xc1 ∷ []) ∷ [])
      ensure (ltb n (2 ^ 31))
      out_uint32 alloc n
      out alloc (0xf3 ∷ 0x48 ∷ 0xab ∷ []))

unfoldable pub emit_prologue : Allocator → FuncType → Frame → Emit (Unit {0})
unfolding emit_save_args
emit_prologue alloc type frame = do
  outs alloc ((0x55 ∷ []) ∷ (0x48 ∷ 0x89 ∷ 0xe5 ∷ []) ∷ [])
  emit_adjust alloc (0x48 ∷ 0x81 ∷ 0xec ∷ []) frame.n_frame_locals
  emit_save_args alloc 0 0 (args_of type frame)
  emit_clear alloc (length frame.locals_md - length type.input_types)

-- Where a branch goes: to the end of the code so far, or to its label's place.
abbrev pub continuation_offset : ℕ → Emit ℕ
continuation_offset continuation_idx = do
  s ← get
  if continuation_idx == func_exit_cont
      then pure (length s.output)
      else (do label ← found (get_elem? s.labels continuation_idx); found label)

-- The jumps' operands are written.
unfoldable pub fix_branches : List BranchPoint → Emit (Unit {0})
fix_branches [] = skip
fix_branches (branch ∷ branches) = do
  place ← continuation_offset branch.continuation_idx
  patch branch.branch_offset
      (0xe9 ∷ le_bytes 4 ((place + 2 ^ 64 - branch.branch_offset - 5) % 2 ^ 32))
  fix_branches branches

-- The result goes to its register, and the frame ends.
unfoldable pub emit_epilogue : Allocator → FuncType → ℕ → Emit (Unit {0})
emit_epilogue alloc type n_frame_locals = do
  s ← get
  assert (length s.stack == n_outputs_of type)
  if n_outputs_of type == 0 then skip else (do
    take_top alloc type.output_type
    if type.output_type == Valtype.f32
        then outs alloc
            ((0xf3 ∷ 0x0f ∷ 0x10 ∷ 0x04 ∷ 0x24 ∷ []) ∷ (0x48 ∷ 0x8d ∷ 0x47 ∷ 0x08 ∷ []) ∷ [])
        else (if type.output_type == Valtype.f64
            then outs alloc
                ((0xf2 ∷ 0x0f ∷ 0x10 ∷ 0x04 ∷ 0x24 ∷ []) ∷ (0x48 ∷ 0x83 ∷ 0xc4 ∷ 0x08 ∷ []) ∷ [])
            else out alloc (0x58 ∷ [])))
  emit_adjust alloc (0x48 ∷ 0x81 ∷ 0xc4 ∷ []) n_frame_locals
  outs alloc ((0x5d ∷ []) ∷ (0xc3 ∷ []) ∷ [])

-- What `*stack_usage` is set to, where it is asked for.
abbrev pub usage_of : ℕ → ℕ → ℕ
usage_of max_stack n_frame_locals = (max_stack + n_frame_locals + 1 + 1) * 8 + 128

-- What follows the instructions: the branches' operands and the epilogue.
unfoldable pub finish_function : Allocator → FuncType → ℕ → ℕ → Emit ℕ
unfolding fix_branches emit_epilogue
finish_function alloc type n_frame_locals max_stack = do
  s ← get
  fix_branches s.branches
  emit_epilogue alloc type n_frame_locals
  pure (usage_of max_stack n_frame_locals)

-- The result is the stack's usage, and the code is the output. `env` is what
-- wasmjit_compile_instructions is given, less what the frame says.
unfoldable pub compile_function : Allocator → Env → ℕ → Code → Emit ℕ
unfolding emit_prologue finish_function
compile_function alloc env fuel code = do
  frame ← frame_of alloc env.type code.locals
  emit_prologue alloc env.type frame
  max_stack ←
      compile_instructions alloc
        (record env { locals_md = frame.locals_md; n_frame_locals = frame.n_frame_locals }) fuel
        code.instructions
  finish_function alloc env.type frame.n_frame_locals max_stack
