-- ===== src/Emscripten/Program.antt =====
-- src/wasmjit/emscripten_runtime.c: the environment and the arguments of a program, which are copied to
-- memory that the module's own functions give. What those functions do is a parameter: a call
-- gives nothing where it traps, and changes the memory in any case. Strings are the bytes before their 0.
pub mod Requests
pub mod Safety
mod Tests
use wasmjit.Prelude.{
  ℕ, ◌+◌, ◌-◌, ◌*◌, ◌/◌, ◌%◌, ◌^◌, Bool, true, false, not, ◌&&◌, ◌||◌, List, [], ◌∷◌, ◌++◌, Option,
  none, some, length, ◌==◌, if◌then◌else◌,
}
use wasmjit.Ast.Section.{FuncType}
use wasmjit.Ast.Valtype
use wasmjit.Runtime.Store.{MemInst}
use wasmjit.Compile.State.{le_bytes}
use wasmjit.Emscripten.Memory.{
  Trap, memory_overflow, aborted, Outcome, done, Step, bind, ◌>>=◌, ◌>>◌, pure, skip, trap,
  write_host, check_range, path_max, copy_to_user, copy_from_user, check_string, arg,
}
use wasmjit.Emscripten.Syscall.{c_text}
use wasmjit.Emscripten.Syscall.Named.{read_path}

pub record Program : Type 0 where
  pub malloc_inst : Option (ℕ → MemInst → Option ℕ × MemInst)
  pub free_inst : Option (ℕ → MemInst → Bool × MemInst)
  pub stack_alloc : ℕ → Step ℕ
  -- What wasmjit_invoke_function returns, and the result.
  pub main : List ℕ → MemInst → (ℕ × ℕ) × MemInst
  pub environ : List (List ℕ)
  pub getenv : List ℕ → Option (List ℕ)

-- What is given is not trusted.
abbrev pub granted : ℕ → Option ℕ → Step ℕ
granted amount none m = done 0 m
granted amount (some ptr) m =
    done (if check_range (ptr % 2 ^ 32) amount m then ptr % 2 ^ 32 else 0) m

unfoldable pub get_memory : Option (ℕ → MemInst → Option ℕ × MemInst) → ℕ → Step ℕ
get_memory none amount m = done 0 m
get_memory (some malloc) amount m = let answer = malloc amount m in granted amount answer.0 answer.1

abbrev pub or_aborted : Bool → Step (Unit {0})
or_aborted true = skip
or_aborted false = trap aborted

unfoldable pub free_memory : Option (ℕ → MemInst → Bool × MemInst) → ℕ → Step (Unit {0})
free_memory none ptr m = trap aborted m
free_memory (some free) ptr m = let answer = free ptr m in or_aborted answer.0 answer.1

abbrev pub some_or_overflow : Option (List ℕ) → Step (List ℕ)
some_or_overflow none = trap memory_overflow
some_or_overflow (some bytes) = pure bytes

unfoldable pub load_pointer : ℕ → Step ℕ
unfolding copy_from_user arg
load_pointer ptr = do
  copied ← copy_from_user ptr 4
  bytes ← some_or_overflow copied
  pure (arg bytes 0)

-- The loop over the environment: its size, in 32 bits.
abbrev pub pool_size : List (List ℕ) → ℕ → ℕ
pool_size [] size = size
pool_size (env ∷ envs) size = pool_size envs ((size + length env + 1) % 2 ^ 32)

-- The strings, one after another, and the pointers to them, with a 0 after the last.
unfoldable pub write_environment : List (List ℕ) → ℕ → ℕ → ℕ → Step (Unit {0})
unfolding le_bytes
write_environment [] envPtr poolPtr i = write_host (envPtr + i * 4) (le_bytes 4 0)
write_environment (env ∷ envs) envPtr poolPtr i = do
  write_host poolPtr (c_text env)
  write_host (envPtr + i * 4) (le_bytes 4 poolPtr)
  write_environment envs envPtr ((poolPtr + length env + 1) % 2 ^ 32) (i + 1)

abbrev pub all_i32 : List ℕ → Bool
all_i32 [] = true
all_i32 (t ∷ types) = (t == Valtype.i32) && all_i32 types

-- The test of the type of the function that gives memory on the stack.
abbrev pub is_stack_alloc : FuncType → Bool
is_stack_alloc type =
    (length type.input_types == 1) && all_i32 type.input_types && not (type.output_type == 0)

abbrev pub takes_nothing : FuncType → Bool
takes_nothing type = (length type.input_types == 0) && (type.output_type == Valtype.i32)

abbrev pub takes_arguments : FuncType → Bool
takes_arguments type =
    ((length type.input_types == 2) || (length type.input_types == 3))
    && all_i32 type.input_types
    && (type.output_type == Valtype.i32)

-- WASMJIT_TRAP_EXIT is 9.
abbrev pub exit_status : ℕ → ℕ → ℕ
exit_status ret out =
    if ret == 0 then out % 2 ^ 8 else if ret / 2 ^ 8 == 9 then ret % 2 ^ 8 else ret

module _ (program : Program) where
  open program use {malloc_inst, free_inst, stack_alloc, main, environ, getenv}

  unfoldable pub free_environment : ℕ → Step (Unit {0})
  unfolding load_pointer free_memory
  free_environment environ_arg = do
    envPtr ← load_pointer environ_arg
    free_memory free_inst envPtr
    poolPtr ← load_pointer envPtr
    free_memory free_inst poolPtr

  -- wasmjit_emscripten____buildEnvironment: whether it was called before, and where the answer goes.
  unfoldable pub build_environment : Bool → ℕ → Step (Unit {0})
  unfolding free_environment get_memory copy_to_user write_environment le_bytes
  build_environment called environ_arg = do
    if called then free_environment environ_arg else skip
    poolPtr ← get_memory malloc_inst (pool_size environ 0)
    or_aborted (not (poolPtr == 0))
    envPtr ← get_memory malloc_inst ((length environ + 1) * 4 % 2 ^ 32)
    or_aborted (not (envPtr == 0))
    failed ← copy_to_user environ_arg (le_bytes 4 envPtr)
    if failed then trap memory_overflow else skip
    write_environment environ envPtr poolPtr 0

  -- A copy of a variable takes the place of the last one, at `buffer`: the answer and what `buffer` is then.
  unfoldable pub copy_env : Option (List ℕ) → ℕ → Step (ℕ × ℕ)
  unfolding get_memory free_memory
  copy_env none buffer = pure (0, buffer)
  copy_env (some env) buffer = do
    if buffer == 0 then skip else free_memory free_inst buffer
    ret ← get_memory malloc_inst ((length env + 1) % 2 ^ 32)
    if ret == 0 then skip else write_host ret (c_text env)
    pure (ret, ret)

  -- wasmjit_emscripten__getenv
  unfoldable pub get_env : ℕ → ℕ → Step (ℕ × ℕ)
  unfolding check_string read_path copy_env
  get_env name buffer = do
    ok ← check_string name path_max
    if ok then (do path ← read_path name; copy_env (getenv path) buffer) else pure (0, buffer)

  -- The arguments from the `i`th on: whether copying them failed.
  unfoldable pub write_arguments : ℕ → ℕ → List (List ℕ) → Step Bool
  unfolding copy_to_user le_bytes
  write_arguments argv_i i [] = copy_to_user ((argv_i + i * 4) % 2 ^ 32) (le_bytes 4 0)
  write_arguments argv_i i (a ∷ argv) = do
    ret ← stack_alloc ((length a + 1) % 2 ^ 32)
    failed ← copy_to_user (ret % 2 ^ 32) (c_text a)
    lost ← if failed then pure true else copy_to_user ((argv_i + i * 4) % 2 ^ 32) (le_bytes 4 ret)
    if lost then pure true else write_arguments argv_i (i + 1) argv

  abbrev pub run_main : List ℕ → Step ℕ
  run_main args m = let answer = main args m in done (exit_status answer.0.0 answer.0.1) answer.1

  -- wasmjit_emscripten_invoke_main: -1 is its 32 bits.
  unfoldable pub invoke_main : FuncType → FuncType → List (List ℕ) → Step ℕ
  unfolding write_arguments
  invoke_main stack_alloc_type main_type argv =
      if not (is_stack_alloc stack_alloc_type)
      then pure (2 ^ 32 - 1)
      else if takes_nothing main_type
      then run_main []
      else if takes_arguments main_type
      then (do
        argv_i ← stack_alloc ((length argv + 1) * 4 % 2 ^ 32)
        failed ← write_arguments argv_i 0 argv
        if failed then pure (2 ^ 32 - 1) else run_main (length argv ∷ argv_i % 2 ^ 32 ∷ 0 ∷ []))
      else pure (2 ^ 32 - 1)
