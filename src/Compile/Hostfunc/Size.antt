-- ===== src/Compile/Hostfunc/Size.antt =====
-- The size of what wasmjit_compile_hostfunc of src/wasmjit/compile.c makes.
use wasmjit.Prelude.{
  ℕ, zero, suc, ◌+◌, ◌*◌, ◌%◌, ◌≡◌, refl, ap, Bool, true, false, ◌||◌, not, List, [], ◌∷◌, ◌++◌,
  Option, none, some, length, get_elem?, get_elem?-All, length-append, ◌==◌, ==_iff, if◌then◌else◌,
  arith,
}
use wasmjit.Ast.Section.{FuncType}
use wasmjit.Compile.State.{
  Flags, State, Result, done, error, undefined, out_of_fuel, pure, assert, ◌>>◌, out, le_bytes,
}
use wasmjit.Compile.Retpoline.{emit_indirect_call, emit_indirect_jump, retpoline}
use wasmjit.Compile.Retpoline.Size.{Made, made, broken, unfinished, enough_memory, flags_of}
use wasmjit.Compile.Call.{none_passed}
use wasmjit.Compile.Invoker.{invoker_pass_all}
use wasmjit.Compile.Hostfunc.{
  movabs, push_args, call_size, jump_size, before_call, after_call, hostfunc_call, hostfunc_jump,
  hostfunc_code, compile_hostfunc, no_output,
}

abbrev pub enough : ℕ → Bool
enough n = true

abbrev pub code_length : Result (List ℕ) → Made
code_length (done code s) = made (length code)
code_length error = Made.refused
code_length undefined = broken
code_length out_of_fuel = unfinished

length-push_args : (offset n : ℕ) → length (push_args offset n) ≡ 7 * n
unfolding le_bytes
length-push_args offset zero = refl
length-push_args offset (suc n) = omega (arith, length-push_args offset n)

-- The code that makes the stack aligned, where it is not.
abbrev alignment : Bool → List ℕ
alignment b = if b then [] else 0x48 ∷ 0x83 ∷ 0xec ∷ 0x08 ∷ []

length-alignment : (b : Bool) → length (alignment b) ≡ (if b then 0 else 4)
length-alignment true = refl
length-alignment false = refl

length-call :
    (n_stack hostfunc funcinst : ℕ) (call : List ℕ)
    → length (before_call n_stack hostfunc funcinst ++ (call ++ after_call n_stack))
      ≡ (if n_stack % 2 == 0 then 0 else 4) + 10 + 1 + 7 * n_stack + 10 + length call + 7 + 1
unfolding le_bytes
length-call n_stack hostfunc funcinst call =
    let pushes = length-push_args (8 * (n_stack % 2 + n_stack + 1)) n_stack in
    let align = length-alignment (n_stack % 2 == 0) in grind (arith, length-append, pushes, align)

-- The code is what the assertion on its length lets through.
checked :
    (code : List ℕ) (size : ℕ) (t : State)
    → length code ≡ size
    → code_length ((assert (length code == size) >> pure code) t) ≡ made size
checked code size t same = rw ((==_iff (length code) size).1 same) (ap made same)

abbrev intel_call : List ℕ
intel_call = 0xeb ∷ 0x11 ∷ retpoline ++ (0xe8 ∷ 0xea ∷ 0xff ∷ 0xff ∷ 0xff ∷ [])

jump_code :
    (intel amd : Bool) (m : List ℕ) (hostfunc funcinst : ℕ)
    → length m ≡ 2
    → code_length
        (hostfunc_jump enough_memory enough (flags_of intel amd) m hostfunc funcinst no_output)
      ≡ (if not amd || intel then made (jump_size (flags_of intel amd)) else broken)
unfolding hostfunc_jump emit_indirect_jump out le_bytes
jump_code true true m hostfunc funcinst two =
    rw ((==_iff (length m) 2).1 two) (ap made (grind (arith, length-append)))
jump_code true false m hostfunc funcinst two =
    rw ((==_iff (length m) 2).1 two) (ap made (grind (arith, length-append)))
jump_code false true m hostfunc funcinst two = rw ((==_iff (length m) 2).1 two) refl
jump_code false false m hostfunc funcinst two =
    rw ((==_iff (length m) 2).1 two) (ap made (grind (arith, length-append)))

call_code :
    (intel amd : Bool) (n_stack hostfunc funcinst : ℕ)
    → code_length (
        hostfunc_call enough_memory enough (flags_of intel amd) n_stack hostfunc funcinst no_output)
      ≡ (if not amd || intel then made (call_size (flags_of intel amd) n_stack) else broken)
unfolding hostfunc_call emit_indirect_call out
call_code true true n hostfunc funcinst = checked _ _ _ (length-call n hostfunc funcinst intel_call)
call_code true false n hostfunc funcinst =
    checked _ _ _ (length-call n hostfunc funcinst intel_call)
call_code false true n hostfunc funcinst = refl
call_code false false n hostfunc funcinst =
    checked _ _ _ (length-call n hostfunc funcinst (0xff ∷ 0xd0 ∷ []))

-- `*out_size`, given the code for a register that is left.
abbrev pub size_of : Flags → Option (List ℕ) → ℕ → ℕ
size_of flags none n_stack = call_size flags n_stack
size_of flags (some movabs_str) n_stack = jump_size flags

movabs_lem : (n : ℕ) (m : List ℕ) → get_elem? movabs n ≡ some m → length m ≡ 2
movabs_lem n m e =
    get_elem?-All (λ (c : List ℕ). length c ≡ 2) movabs n
      (refl, (refl, (refl, (refl, (refl, (refl, tt)))))) e

hostfunc_code_lem :
    (intel amd : Bool) (m : Option (List ℕ)) (n_stack hostfunc funcinst : ℕ)
    → ((c : List ℕ) → m ≡ some c → length c ≡ 2)
    → code_length
        (hostfunc_code enough_memory enough (flags_of intel amd) m n_stack hostfunc funcinst)
      ≡ (if not amd || intel then made (size_of (flags_of intel amd) m n_stack) else broken)
hostfunc_code_lem intel amd none n_stack hostfunc funcinst two =
    call_code intel amd n_stack hostfunc funcinst
hostfunc_code_lem intel amd (some c) n_stack hostfunc funcinst two =
    jump_code intel amd c hostfunc funcinst (two c refl)

-- With enough memory, the code that calls a function of the host has the size that was asked for it,
-- for any argument types, where the flags ask for no retpoline or for Intel's: all of it is written,
-- and nothing beyond it. Where they ask only for AMD's, it is not reported as a failure:
-- an assertion on the code fails.
pub compile_hostfunc-size_of :
    (intel amd : Bool) (type : FuncType) (hostfunc funcinst : ℕ)
    → code_length
        (compile_hostfunc enough_memory enough (flags_of intel amd) type hostfunc funcinst)
      ≡ (if not amd || intel
          then made (
              size_of
                (flags_of intel amd)
                (get_elem? movabs (invoker_pass_all type.input_types none_passed).n_movs)
                (invoker_pass_all type.input_types none_passed).n_stack)
          else broken)
compile_hostfunc-size_of intel amd type hostfunc funcinst =
    hostfunc_code_lem intel amd
      (get_elem? movabs (invoker_pass_all type.input_types none_passed).n_movs)
      (invoker_pass_all type.input_types none_passed).n_stack hostfunc funcinst
      (movabs_lem (invoker_pass_all type.input_types none_passed).n_movs)
