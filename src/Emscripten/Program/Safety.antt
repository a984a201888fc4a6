-- ===== src/Emscripten/Program/Safety.antt =====
-- src/wasmjit/emscripten_runtime.c: the copies of a program's environment and arguments, which are not checked
-- one by one.
use wasmjit.Prelude.{
  ℕ, ◌+◌, ◌*◌, ◌%◌, ◌^◌, ◌≤◌, ◌<◌, ◌≡◌, refl, ◌∙◌, Bool, true, not, List, [], ◌∷◌, Option, none,
  some, length, ◌==◌, arith,
}
use wasmjit.Emscripten.Memory.{path_max}
use wasmjit.Runtime.Store.{MemInst}
use wasmjit.Compile.State.{le_bytes}
use wasmjit.Emscripten.Memory.Keeps.{
  holds, Keeps, Anything, Safe, Keeps-bind, Keeps-if, Keeps-pure, Keeps-trap, write_host-Keeps,
  copy_to_user-Keeps,
}
use wasmjit.Emscripten.Program.Requests.{
  IsProgram, total, pool_size-total, negation_false, Gave, get_memory-Keeps, or_aborted-Keeps,
  free_memory-Safe, load_pointer-Safe, length-c_text, write_environment-Safe,
}
use wasmjit.Emscripten.Syscall.{c_text}
use wasmjit.Emscripten.Syscall.Paths.{check_string-Keeps, read_path-Keeps}
use wasmjit.Ast.Section.{FuncType}
use wasmjit.Emscripten.Program.{
  Program, get_memory, free_memory, pool_size, free_environment, build_environment, copy_env,
  get_env, write_arguments, run_main, invoke_main, is_stack_alloc, takes_nothing, takes_arguments,
}

module _ (n : ℕ) (program : Program) (ok : IsProgram n program) where
  free_environment-Safe : (environ_arg : ℕ) → Safe n (free_environment program environ_arg)
  unfolding free_environment
  free_environment-Safe environ_arg m = Keeps-bind (load_pointer-Safe n environ_arg m) λ envPtr t _.
      Keeps-bind
        (free_memory-Safe n program.free_inst envPtr t λ free e k. ok.frees free envPtr t e k)
        λ _ u _. Keeps-bind (load_pointer-Safe n envPtr u) λ poolPtr v _.
          free_memory-Safe n program.free_inst poolPtr v λ free e k. ok.frees free poolPtr v e k

  get_memory-Program :
      (amount : ℕ) (m : MemInst) → Keeps n (Gave n amount) (get_memory program.malloc_inst amount) m
  get_memory-Program amount m =
      get_memory-Keeps n program.malloc_inst amount m λ malloc e k. ok.mallocs malloc amount m e k

  free_memory-Program : (ptr : ℕ) → Safe n (free_memory program.free_inst ptr)
  free_memory-Program ptr m =
      free_memory-Safe n program.free_inst ptr m λ free e k. ok.frees free ptr m e k

  -- The environment is built, where both requests for memory are met.
  build_environment-Keeps :
      (called : Bool) (environ_arg : ℕ) (m : MemInst)
      → n < 2 ^ 32
      → Keeps n Anything (build_environment program called environ_arg) m
  unfolding build_environment le_bytes
  build_environment-Keeps called environ_arg m below =
      let envs = program.environ in
      let pool : pool_size envs 0 ≡ total envs =
        pool_size-total envs 0 (omega (arith, ok.pool_bound)) ∙ omega arith in
      let pointers : (length envs + 1) * 4 % 2 ^ 32 ≡ (length envs + 1) * 4 =
        omega (arith, ok.pointers_bound) in
      Keeps-bind {P = Anything}
        (Keeps-if called (λ _. free_environment-Safe environ_arg m) (λ _. Keeps-pure tt m tt))
        λ _ t _. Keeps-bind (get_memory-Program (pool_size envs 0) t) λ poolPtr u gave.
          Keeps-bind (or_aborted-Keeps n (not (poolPtr == 0)) u) λ _ v a.
            Keeps-bind (get_memory-Program ((length envs + 1) * 4 % 2 ^ 32) v) λ envPtr w given.
              Keeps-bind (or_aborted-Keeps n (not (envPtr == 0)) w) λ _ x b.
                Keeps-bind (copy_to_user-Keeps n environ_arg (le_bytes 4 envPtr) x) λ failed y _.
                  Keeps-bind {P = Anything}
                    (Keeps-if failed (λ _. Keeps-trap _ y) (λ _. Keeps-pure tt y tt))
                    λ _ z _.
                      let strings : poolPtr + pool_size envs 0 ≤ n =
                        gave (negation_false (poolPtr == 0) a) in
                      let table : envPtr + (length envs + 1) * 4 % 2 ^ 32 ≤ n =
                        given (negation_false (envPtr == 0) b) in
                      write_environment-Safe n envs envPtr poolPtr 0 below
                        (omega (arith, strings, pool)) (omega (arith, table, pointers)) z

  build_environment-Safe :
      (called : Bool) (environ_arg : ℕ) → Safe n (build_environment program called environ_arg)
  build_environment-Safe called environ_arg m = record {
    at = λ k. (build_environment-Keeps called environ_arg m k.bound).at k;
  }

  copy_env-Safe :
      (env : Option (List ℕ)) (buffer : ℕ)
      → ((value : List ℕ) → env ≡ some value → length value + 1 < 2 ^ 32)
      → Safe n (copy_env program env buffer)
  unfolding copy_env
  copy_env-Safe none buffer h m = Keeps-pure _ m tt
  copy_env-Safe (some env) buffer h m =
      let whole : (length env + 1) % 2 ^ 32 ≡ length env + 1 = omega (arith, h env refl) in
      Keeps-bind {P = Anything}
        (Keeps-if (buffer == 0) (λ _. Keeps-pure tt m tt) (λ _. free_memory-Program buffer m))
        λ _ t _. Keeps-bind (get_memory-Program ((length env + 1) % 2 ^ 32) t) λ ret u gave.
          Keeps-bind {P = Anything}
            (Keeps-if (ret == 0) (λ _. Keeps-pure tt u tt)
              λ found.
                let room : ret + (length env + 1) % 2 ^ 32 ≤ n = gave found in
                write_host-Keeps n ret (c_text env) u
                  (omega (arith, room, whole, length-c_text n env)))
            λ _ v _. Keeps-pure (ret, ret) v tt

  get_env-Safe : (name buffer : ℕ) → Safe n (get_env program name buffer)
  unfolding get_env
  get_env-Safe name buffer m = Keeps-bind (check_string-Keeps n m name path_max) λ found t p.
      Keeps-if found
        (λ e.
          Keeps-bind (read_path-Keeps n t name (rw p.0 (p.1 e)))
            λ path u _. copy_env-Safe (program.getenv path) buffer (ok.values path) u)
        λ _. Keeps-pure _ t tt

  write_arguments-Safe :
      (argv_i i : ℕ) (argv : List (List ℕ)) → Safe n (write_arguments program argv_i i argv)
  unfolding write_arguments
  write_arguments-Safe argv_i i [] m =
      copy_to_user-Keeps n ((argv_i + i * 4) % 2 ^ 32) (le_bytes 4 0) m
  write_arguments-Safe argv_i i (a ∷ argv) m =
      Keeps-bind (ok.stack_allocs ((length a + 1) % 2 ^ 32) m) λ ret t _.
        Keeps-bind (copy_to_user-Keeps n (ret % 2 ^ 32) (c_text a) t) λ failed u _.
          Keeps-bind {P = Anything}
            (Keeps-if failed (λ _. Keeps-pure true u tt)
              (λ _. copy_to_user-Keeps n ((argv_i + i * 4) % 2 ^ 32) (le_bytes 4 ret) u))
            λ lost v _.
              Keeps-if lost (λ _. Keeps-pure true v tt)
                (λ _. write_arguments-Safe argv_i (i + 1) argv v)

  run_main-Safe : (args : List ℕ) → Safe n (run_main program args)
  run_main-Safe args m = record { at = λ k. holds (ok.mains args m k) tt }

  invoke_main-Safe :
      (stack_alloc_type main_type : FuncType) (argv : List (List ℕ))
      → Safe n (invoke_main program stack_alloc_type main_type argv)
  unfolding invoke_main
  invoke_main-Safe stack_alloc_type main_type argv m =
      Keeps-if (not (is_stack_alloc stack_alloc_type)) (λ _. Keeps-pure _ m tt)
        λ _.
          Keeps-if (takes_nothing main_type) (λ _. run_main-Safe [] m)
            λ _.
              Keeps-if (takes_arguments main_type)
                (λ _. Keeps-bind (ok.stack_allocs ((length argv + 1) * 4 % 2 ^ 32) m) λ argv_i t _.
                  Keeps-bind (write_arguments-Safe argv_i 0 argv t) λ failed u _.
                    Keeps-if failed (λ _. Keeps-pure _ u tt)
                      (λ _. run_main-Safe (length argv ∷ argv_i % 2 ^ 32 ∷ 0 ∷ []) u))
                λ _. Keeps-pure _ m tt

  -- On a memory below 4 GiB, with as many bytes as its size says, where the environment, the table of its
  -- pointers and its values are below 4 GiB, too, and the module's functions keep the size of the memory:
  -- the copies of the environment, of one variable and of the arguments make no access outside
  -- the memory, whatever addresses the module's allocators give. Those of the environment are not checked one
  -- by one.
  pub program-Safe :
      ((called : Bool) (environ_arg : ℕ) → Safe n (build_environment program called environ_arg))
      × ((name buffer : ℕ) → Safe n (get_env program name buffer))
      × ((stack_alloc_type main_type : FuncType) (argv : List (List ℕ))
          → Safe n (invoke_main program stack_alloc_type main_type argv))
  program-Safe = (build_environment-Safe, get_env-Safe, invoke_main-Safe)
