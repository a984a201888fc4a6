-- ===== src/Emscripten/Program/Tests.antt =====
-- src/wasmjit/emscripten_runtime.c: an environment of one variable in a memory of 40 bytes.
use wasmjit.Prelude.{
  ℕ, ◌≡◌, refl, Bool, true, false, List, [], ◌∷◌, Option, none, some, drop, take, ◌++◌, subst,
  some_inj, ◌==◌, if◌then◌else◌, arith,
}
use wasmjit.Ast.Section.{FuncType}
use wasmjit.Runtime.Store.{MemInst}
use wasmjit.Compile.State.{le_bytes}
use wasmjit.Emscripten.Memory.{Outcome, done, check_range, copy_to_user, write_host, pure}
use wasmjit.Emscripten.Memory.Copies.{IsMemory}
use wasmjit.Emscripten.Memory.Keeps.{Safe, Keeps-pure}
use wasmjit.Emscripten.Program.{
  Program, get_memory, write_environment, build_environment, get_env, invoke_main,
}
use wasmjit.Emscripten.Program.Requests.{IsProgram}
use wasmjit.Emscripten.Program.Safety.{program-Safe}

-- Eight bytes are given at 20, others at 12.
abbrev place : ℕ → ℕ
place amount = if amount == 8 then 20 else 12

abbrev give_place : ℕ → MemInst → Option ℕ × MemInst
give_place amount m = (some (place amount), m)

abbrev take_back : ℕ → MemInst → Bool × MemInst
take_back ptr m = (true, m)

abbrev shell : Program
shell = record {
  malloc_inst = some give_place;
  free_inst = some take_back;
  stack_alloc = λ _. pure 30;
  main = λ _ m. ((0, 3), m);
  environ = (65 ∷ 61 ∷ 98 ∷ []) ∷ [];
  getenv = λ _. none;
}

shell-IsProgram : IsProgram 40 shell
shell-IsProgram = record {
  mallocs = λ malloc amount m e k.
      subst (λ (f : ℕ → MemInst → Option ℕ × MemInst). IsMemory 40 (f amount m).1) (some_inj e) k;
  frees = λ free ptr m e k.
      subst (λ (f : ℕ → MemInst → Bool × MemInst). IsMemory 40 (f ptr m).1) (some_inj e) k;
  stack_allocs = λ amount m. Keeps-pure 30 m tt;
  mains = λ args m k. k;
  values = λ path value e. cc;
  pool_bound = omega arith;
  pointers_bound = omega arith;
}

program-Safe_example :
    ((called : Bool) (environ_arg : ℕ) → Safe 40 (build_environment shell called environ_arg))
    × ((name buffer : ℕ) → Safe 40 (get_env shell name buffer))
    × ((stack_alloc_type main_type : FuncType) (argv : List (List ℕ))
        → Safe 40 (invoke_main shell stack_alloc_type main_type argv))
program-Safe_example = program-Safe 40 shell shell-IsProgram

abbrev blank : MemInst
blank = record {
  bytes =
      (0 ∷ 0 ∷ 0 ∷ 0 ∷ 0 ∷ 0 ∷ 0 ∷ 0 ∷ 0 ∷ 0 ∷ 0 ∷ 0 ∷ 0 ∷ 0 ∷ 0 ∷ 0 ∷ 0 ∷ 0 ∷ 0 ∷ 0 ∷ [])
      ++ (0 ∷ 0 ∷ 0 ∷ 0 ∷ 0 ∷ 0 ∷ 0 ∷ 0 ∷ 0 ∷ 0 ∷ 0 ∷ 0 ∷ 0 ∷ 0 ∷ 0 ∷ 0 ∷ 0 ∷ 0 ∷ 0 ∷ 0 ∷ []);
  size = 40;
  max = 0;
}

abbrev environ_of : Outcome (Unit {0}) → List ℕ
environ_of (done _ m) = drop 4 (take 28 m.bytes)
environ_of _ = []

-- The address of the table at 4, `A=b` at 12, and the table at 20.
build_environment_runs :
    environ_of (build_environment shell false 4 blank)
    ≡ (20 ∷ 0 ∷ 0 ∷ 0 ∷ 0 ∷ 0 ∷ 0 ∷ 0 ∷ 65 ∷ 61 ∷ 98 ∷ 0 ∷ 0 ∷ 0 ∷ 0 ∷ 0 ∷ [])
      ++ (12 ∷ 0 ∷ 0 ∷ 0 ∷ 0 ∷ 0 ∷ 0 ∷ 0 ∷ [])
unfolding build_environment get_memory check_range copy_to_user write_host write_environment
    le_bytes
build_environment_runs = refl
