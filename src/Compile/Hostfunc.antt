-- ===== src/Compile/Hostfunc.antt =====
-- src/wasmjit/compile.c: wasmjit_compile_hostfunc, the code by which translated code calls a function of
-- the host, with the instance as one argument more. `malloc` is whether so many bytes are given.
pub mod Size
use wasmjit.Prelude.{
  ℕ, zero, suc, ◌+◌, ◌*◌, ◌%◌, Bool, List, [], ◌∷◌, ◌++◌, Option, none, some, length, get_elem?,
  ◌==◌, if◌then◌else◌,
}
use wasmjit.Ast.Section.{FuncType}
use wasmjit.Compile.State.{
  Flags, State, Emit, Result, pure, get, ensure, assert, ◌>>=◌, ◌>>◌, Allocator, le_bytes,
}
use wasmjit.Compile.Retpoline.{
  emit_indirect_call, indirect_call_size, emit_indirect_jump, indirect_jump_size,
}
use wasmjit.Compile.Call.{Passed, none_passed}
use wasmjit.Compile.Invoker.{invoker_pass_all}

-- `mov $const, …` to the first register of integers that no argument is in, if there is one.
abbrev pub movabs : List (List ℕ)
movabs =
    (0x48 ∷ 0xbf ∷ [])
    ∷ (0x48 ∷ 0xbe ∷ [])
    ∷ (0x48 ∷ 0xba ∷ [])
    ∷ (0x48 ∷ 0xb9 ∷ [])
    ∷ (0x49 ∷ 0xb8 ∷ [])
    ∷ (0x49 ∷ 0xb9 ∷ [])
    ∷ []

-- The code of `n` pushes from the same offset: each moves what the offset is from.
abbrev pub push_args : ℕ → ℕ → List ℕ
push_args offset zero = []
push_args offset (suc n) = 0xff ∷ 0xb4 ∷ 0x24 ∷ le_bytes 4 offset ++ push_args offset n

-- `*out_size`, with the instance on the stack and with it in a register.
abbrev pub call_size : Flags → ℕ → ℕ
call_size flags n_stack =
    (if n_stack % 2 == 0 then 0 else 4)
    + 10
    + 1
    + 7 * n_stack
    + 10
    + indirect_call_size flags
    + 7
    + 1

abbrev pub jump_size : Flags → ℕ
jump_size flags = 10 + 10 + indirect_jump_size flags

-- The code up to the indirect call, and that after it.
abbrev pub before_call : ℕ → ℕ → ℕ → List ℕ
before_call n_stack hostfunc funcinst =
    (if n_stack % 2 == 0 then [] else 0x48 ∷ 0x83 ∷ 0xec ∷ 0x08 ∷ [])
    ++ (0x48 ∷ 0xb8 ∷ le_bytes 8 funcinst
        ++ (0x50 ∷ push_args (8 * (n_stack % 2 + n_stack + 1)) n_stack
            ++ (0x48 ∷ 0xb8 ∷ le_bytes 8 hostfunc)))

abbrev pub after_call : ℕ → List ℕ
after_call n_stack =
    0x48 ∷ 0x81 ∷ 0xc4 ∷ le_bytes 4 ((n_stack % 2 + 1 + n_stack) * 8) ++ (0xc3 ∷ [])

unfoldable pub hostfunc_call : Allocator → (ℕ → Bool) → Flags → ℕ → ℕ → ℕ → Emit (List ℕ)
hostfunc_call alloc malloc flags n_stack hostfunc funcinst = do
  ensure (malloc (call_size flags n_stack))
  emit_indirect_call alloc flags
  s ← get
  assert (length s.output == indirect_call_size flags)
  let code = before_call n_stack hostfunc funcinst ++ (s.output ++ after_call n_stack)
  assert (length code == call_size flags n_stack)
  pure code

unfoldable pub hostfunc_jump : Allocator → (ℕ → Bool) → Flags → List ℕ → ℕ → ℕ → Emit (List ℕ)
hostfunc_jump alloc malloc flags movabs_str hostfunc funcinst = do
  assert (length movabs_str == 2)
  ensure (malloc (jump_size flags))
  emit_indirect_jump alloc flags
  s ← get
  assert (length s.output == indirect_jump_size flags)
  pure (movabs_str ++ (le_bytes 8 funcinst ++ (0x48 ∷ 0xb8 ∷ le_bytes 8 hostfunc ++ s.output)))

-- The `outputv` of the source, before anything is written to it.
abbrev pub no_output : State
no_output = record { output = []; memrefs = []; branches = []; labels = []; stack = [] }

abbrev pub hostfunc_code :
    Allocator → (ℕ → Bool) → Flags → Option (List ℕ) → ℕ → ℕ → ℕ → Result (List ℕ)
hostfunc_code alloc malloc flags none n_stack hostfunc funcinst =
    hostfunc_call alloc malloc flags n_stack hostfunc funcinst no_output
hostfunc_code alloc malloc flags (some movabs_str) n_stack hostfunc funcinst =
    hostfunc_jump alloc malloc flags movabs_str hostfunc funcinst no_output

-- The result is the code; the state with it holds its indirect call or jump alone.
abbrev pub compile_hostfunc : Allocator → (ℕ → Bool) → Flags → FuncType → ℕ → ℕ → Result (List ℕ)
compile_hostfunc alloc malloc flags type hostfunc funcinst =
    let passed = invoker_pass_all type.input_types none_passed in
    hostfunc_code alloc malloc flags (get_elem? movabs passed.n_movs) passed.n_stack hostfunc
      funcinst
