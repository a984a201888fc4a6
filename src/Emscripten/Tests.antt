-- ===== src/Emscripten/Tests.antt =====
-- src/wasmjit/emscripten_runtime.c: calls on a memory of 40 bytes.
use wasmjit.Prelude.{
  ℕ, ◌≡◌, refl, true, false, [], ◌∷◌, ◌++◌, All, none, some, length, arith, if◌then◌else◌,
}
use wasmjit.Runtime.Store.{MemInst}
use wasmjit.Emscripten.Memory.{
  Step, done, returned, negated, efault, check_range, read_host, memcpy_from_user, read_chunk,
  read_chunks, copy_from_user, check_string, load_args, arg, ensure_range,
}
use wasmjit.Emscripten.Memory.Copies.{IsMemory, slice, copy_from_user_lem}
use wasmjit.Emscripten.Memory.Keeps.{Keeps, Safe}
use wasmjit.Emscripten.Syscall.{Host, syscall3, syscall140, emscripten_memcpy_big}
use wasmjit.Emscripten.Syscall.Within.{IsHost}
use wasmjit.Emscripten.Syscall.Safety.{calls, calls-Safe}
use wasmjit.Emscripten.Syscall.Seek.{StoresZero, syscall140-StoresZero}

-- Nothing is read, and a seek ends at 5.
abbrev quiet : Host
quiet = record {
  sys_read = λ _ _. (0, []);
  sys_write = λ _ bytes. length bytes;
  sys_pread = λ _ _ _. (0, []);
  sys_pwrite = λ _ bytes _. length bytes;
  sys_writev = λ _ _. 0;
  sys_readv = λ _ _. (0, []);
  sys_pwritev = λ _ _ _. 0;
  sys_pipe = (0, (3, 4));
  sys_lseek = λ _ _ _. 5;
  sys_close = λ _. 0;
  sys_ioctl = λ _ _ _. (0, 0);
  sys_readlink = λ _ _. (0, []);
  sys_path = λ _ _ _. 0;
  sys_number = λ _ _. 1;
  vector_allocated = λ _ _. true;
  pointer_added = true;
}

quiet-IsHost : IsHost quiet
quiet-IsHost = record {
  reads = λ _ _. omega arith;
  preads = λ _ _ _. omega arith;
  readlinks = λ _ _. omega arith;
}

-- At 4 the arguments of a seek: file 3, by 5, the answer to 28, from the start. At 36 a string.
abbrev forty : MemInst
forty = record {
  bytes =
      (0 ∷ 0 ∷ 0 ∷ 0 ∷ 3 ∷ 0 ∷ 0 ∷ 0 ∷ 0 ∷ 0 ∷ 0 ∷ 0 ∷ 5 ∷ 0 ∷ 0 ∷ 0 ∷ 28 ∷ 0 ∷ 0 ∷ 0 ∷ [])
      ++ (0 ∷ 0 ∷ 0 ∷ 0 ∷ 0 ∷ 0 ∷ 0 ∷ 0 ∷ 0 ∷ 0 ∷ 0 ∷ 0 ∷ 0 ∷ 0 ∷ 0 ∷ 0 ∷ 97 ∷ 98 ∷ 0 ∷ 99 ∷ []);
  size = 40;
  max = 0;
}

forty-IsMemory : IsMemory 40 forty
forty-IsMemory = record { whole = refl; sized = refl; bound = omega arith }

copy_from_user_lem_example :
    copy_from_user 4 15 forty
    ≡ (if check_range 4 15 forty then done (some (slice 4 15 forty)) forty else done none forty)
copy_from_user_lem_example = copy_from_user_lem 40 forty forty-IsMemory 4 15

calls-Safe_example :
    All (λ (call : ℕ → Step ℕ). (varargs : ℕ) → Safe 40 (call varargs)) (calls quiet)
    × ((dest src num : ℕ) → Safe 40 (emscripten_memcpy_big dest src num))
calls-Safe_example = calls-Safe quiet 40 quiet-IsHost

-- The string at 39 does not end in the memory.
check_string_fails : check_string 39 3 forty ≡ done false forty
unfolding check_string wasmjit.Runtime.Indirect.array_index_nospec
check_string_fails = refl

syscall140-StoresZero_example : Keeps 40 (StoresZero forty) (syscall140 quiet 4) forty
syscall140-StoresZero_example = syscall140-StoresZero quiet 40 4 forty

-- The host seeks to 5, which is the answer, and nothing is stored.
syscall140_runs : syscall140 quiet 4 forty ≡ done 5 forty
unfolding syscall140 wasmjit.Emscripten.Memory.check_ret load_args copy_from_user memcpy_from_user
    read_chunks read_chunk read_host check_range ensure_range arg wasmjit.Parse.State.le_value
    wasmjit.Runtime.Indirect.array_index_nospec
syscall140_runs = refl

-- A read to the null pointer.
syscall3_fails : syscall3 quiet 24 forty ≡ returned (negated efault) forty
unfolding syscall3 load_args copy_from_user memcpy_from_user read_chunks read_chunk read_host
    check_range ensure_range arg wasmjit.Parse.State.le_value
    wasmjit.Runtime.Indirect.array_index_nospec
syscall3_fails = refl
