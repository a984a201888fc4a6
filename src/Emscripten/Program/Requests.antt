-- ===== src/Emscripten/Program/Requests.antt =====
-- src/wasmjit/emscripten_runtime.c: what the module's own functions give, and the copies to it.
use wasmjit.Prelude.{
  ℕ, ◌+◌, ◌*◌, ◌%◌, ◌^◌, ◌≤◌, ◌<◌, ◌≡◌, refl, ◌∙◌, Bool, true, false, not, List, [], ◌∷◌, Option,
  none, some, length, length-append, ◌==◌, Bool-cases, inl, inr, arith,
}
use wasmjit.Runtime.Store.{MemInst}
use wasmjit.Compile.State.{le_bytes}
use wasmjit.Emscripten.Memory.{check_range, copy_from_user, arg}
use wasmjit.Emscripten.Memory.Copies.{IsMemory, range_fits, copy_from_user_lem}
use wasmjit.Emscripten.Memory.Keeps.{
  holds, Keeps, Anything, Safe, Keeps-bind, Keeps-map, Keeps-pure, Keeps-trap, write_host-Keeps,
}
use wasmjit.Emscripten.Syscall.{c_text}
use wasmjit.Emscripten.Program.{
  Program, granted, get_memory, or_aborted, free_memory, pool_size, write_environment, load_pointer,
  some_or_overflow,
}

-- The strings of an environment with their 0s.
abbrev pub total : List (List ℕ) → ℕ
total [] = 0
total (env ∷ envs) = length env + 1 + total envs

-- The module's functions keep the size of the memory; the environment has less than 4 GiB.
pub record IsProgram (n : ℕ) (program : Program) : Type 0 where
  pub mallocs :
      (malloc : ℕ → MemInst → Option ℕ × MemInst) (amount : ℕ) (m : MemInst)
      → program.malloc_inst ≡ some malloc
      → IsMemory n m
      → IsMemory n (malloc amount m).1
  pub frees :
      (free : ℕ → MemInst → Bool × MemInst) (ptr : ℕ) (m : MemInst)
      → program.free_inst ≡ some free
      → IsMemory n m
      → IsMemory n (free ptr m).1
  pub stack_allocs : (amount : ℕ) → Safe n (program.stack_alloc amount)
  pub mains : (args : List ℕ) (m : MemInst) → IsMemory n m → IsMemory n (program.main args m).1
  pub values : (path value : List ℕ) → program.getenv path ≡ some value → length value + 1 < 2 ^ 32
  pub pool_bound : total program.environ < 2 ^ 32
  pub pointers_bound : (length program.environ + 1) * 4 < 2 ^ 32

pub pool_size-total :
    (envs : List (List ℕ)) (size : ℕ)
    → size + total envs < 2 ^ 32
    → pool_size envs size ≡ size + total envs
pool_size-total [] size h = omega arith
pool_size-total (env ∷ envs) size h =
    let here : (size + length env + 1) % 2 ^ 32 ≡ size + length env + 1 = omega (arith, h) in
    rw here (pool_size-total envs (size + length env + 1) (omega (arith, h)) ∙ omega arith)

pub negation_false : (b : Bool) → not b ≡ true → b ≡ false
negation_false true h = cc
negation_false false h = refl

module _ (n : ℕ) where
  -- What is there for so many bytes, or 0.
  abbrev pub Gave : ℕ → ℕ → MemInst → Type 0
  Gave amount ptr m = (ptr == 0) ≡ false → ptr + amount ≤ n

  granted-Keeps :
      (amount : ℕ) (answer : Option ℕ) (m : MemInst)
      → Keeps n (Gave amount) (granted amount answer) m
  granted-Keeps amount none m = Keeps-pure 0 m λ h. cc
  granted-Keeps amount (some ptr) m = record {
    at = λ ok. elim (Bool-cases (check_range (ptr % 2 ^ 32) amount m)) [
      | inl inside ↦
          rw inside
            (holds ok λ _. omega (arith, ok.sized, (range_fits (ptr % 2 ^ 32) amount m inside).1))
      | inr outside ↦ rw outside (holds ok λ h. cc)
    ];
  }

  pub get_memory-Keeps :
      (malloc_inst : Option (ℕ → MemInst → Option ℕ × MemInst)) (amount : ℕ) (m : MemInst)
      → ((malloc : ℕ → MemInst → Option ℕ × MemInst)
          → malloc_inst ≡ some malloc
          → IsMemory n m
          → IsMemory n (malloc amount m).1)
      → Keeps n (Gave amount) (get_memory malloc_inst amount) m
  unfolding get_memory
  get_memory-Keeps none amount m h = Keeps-pure 0 m λ h. cc
  get_memory-Keeps (some malloc) amount m h = record {
    at = λ ok. (granted-Keeps amount (malloc amount m).0 (malloc amount m).1).at (h malloc refl ok);
  }

  pub or_aborted-Keeps : (b : Bool) (m : MemInst) → Keeps n (λ _ _. b ≡ true) (or_aborted b) m
  or_aborted-Keeps true m = Keeps-pure tt m refl
  or_aborted-Keeps false m = Keeps-trap _ m

  pub free_memory-Safe :
      (free_inst : Option (ℕ → MemInst → Bool × MemInst)) (ptr : ℕ) (m : MemInst)
      → ((free : ℕ → MemInst → Bool × MemInst)
          → free_inst ≡ some free
          → IsMemory n m
          → IsMemory n (free ptr m).1)
      → Keeps n Anything (free_memory free_inst ptr) m
  unfolding free_memory
  free_memory-Safe none ptr m h = Keeps-trap _ m
  free_memory-Safe (some free) ptr m h = record {
    at = λ ok.
        (Keeps-map (λ _ _ _. tt) (or_aborted-Keeps (free ptr m).0 (free ptr m).1)).at
          (h free refl ok);
  }

  some_or_overflow-Keeps :
      (o : Option (List ℕ)) (m : MemInst) → Keeps n Anything (some_or_overflow o) m
  some_or_overflow-Keeps none m = Keeps-trap _ m
  some_or_overflow-Keeps (some bytes) m = Keeps-pure bytes m tt

  copy_from_user-Safe : (ptr size : ℕ) → Safe n (copy_from_user ptr size)
  copy_from_user-Safe ptr size m = record {
    at = λ ok. rw (copy_from_user_lem n m ok ptr size) (elim (Bool-cases (check_range ptr size m)) [
      | inl inside ↦ rw inside (holds ok tt)
      | inr outside ↦ rw outside (holds ok tt)
    ]);
  }

  pub load_pointer-Safe : (ptr : ℕ) → Safe n (load_pointer ptr)
  unfolding load_pointer
  load_pointer-Safe ptr m = Keeps-bind (copy_from_user-Safe ptr 4 m) λ copied t _.
      Keeps-bind (some_or_overflow-Keeps copied t) λ bytes u _. Keeps-pure (arg bytes 0) u tt

  pub length-c_text : (env : List ℕ) → length (c_text env) ≡ length env + 1
  length-c_text env = length-append env (0 ∷ [])

  -- The copies are inside what was given for all of them.
  pub write_environment-Safe :
      (envs : List (List ℕ)) (envPtr poolPtr i : ℕ)
      → n < 2 ^ 32
      → poolPtr + total envs ≤ n
      → envPtr + (i + length envs + 1) * 4 ≤ n
      → Safe n (write_environment envs envPtr poolPtr i)
  unfolding write_environment le_bytes
  write_environment-Safe [] envPtr poolPtr i below h g m =
      write_host-Keeps n (envPtr + i * 4) (le_bytes 4 0) m (omega (arith, g))
  write_environment-Safe (env ∷ envs) envPtr poolPtr i below h g m =
      let next : (poolPtr + length env + 1) % 2 ^ 32 ≡ poolPtr + length env + 1 =
        omega (arith, h, below) in
      Keeps-bind (write_host-Keeps n poolPtr (c_text env) m (omega (arith, h, length-c_text env)))
        λ _ t _.
          Keeps-bind (write_host-Keeps n (envPtr + i * 4) (le_bytes 4 poolPtr) t (omega (arith, g)))
            λ _ u _. rw next (
              write_environment-Safe envs envPtr (poolPtr + length env + 1) (i + 1) below
                (omega (arith, h)) (omega (arith, g)) u)
