-- ===== src/Emscripten/Syscall/Named.antt =====
-- src/wasmjit/emscripten_runtime.c: system calls that are given paths.
use wasmjit.Prelude.{ℕ, zero, suc, ◌∷◌, List, [], Option, none, some, drop}
use wasmjit.Emscripten.Memory.{
  done, undefined, Step, ◌>>=◌, ◌>>◌, write_host, ensure_range, ensure_string, load_args, arg,
  check_ret,
}
use wasmjit.Emscripten.Syscall.{Host}

abbrev pub before : ℕ → Option (List ℕ) → Option (List ℕ)
before b none = none
before b (some s) = some (b ∷ s)

-- The bytes of a C string, which ends inside the memory.
abbrev pub terminated : List ℕ → Option (List ℕ)
terminated [] = none
terminated (zero ∷ bs) = some []
terminated (suc b ∷ bs) = before (suc b) (terminated bs)

abbrev pub found_path : Option (List ℕ) → Step (List ℕ)
found_path none m = undefined
found_path (some path) m = done path m

-- A path that the host reads.
unfoldable pub read_path : ℕ → Step (List ℕ)
read_path offset m = found_path (terminated (drop offset m.bytes)) m

module _ (host : Host) where
  open host use {sys_readlink, sys_path}

  -- A path and numbers.
  unfoldable pub path_call : ℕ → ℕ → ℕ → Step ℕ
  unfolding load_args ensure_string read_path
  path_call number size varargs = do
    args ← load_args varargs size
    ensure_string (arg args 0)
    path ← read_path (arg args 0)
    check_ret (sys_path number (path ∷ []) (drop 4 args))

  -- unlink
  abbrev pub syscall10 : ℕ → Step ℕ
  syscall10 = path_call 10 4

  -- chdir
  abbrev pub syscall12 : ℕ → Step ℕ
  syscall12 = path_call 12 4

  -- chmod
  abbrev pub syscall15 : ℕ → Step ℕ
  syscall15 = path_call 15 8

  -- mkdir
  abbrev pub syscall39 : ℕ → Step ℕ
  syscall39 = path_call 39 8

  -- chown
  abbrev pub syscall212 : ℕ → Step ℕ
  syscall212 = path_call 212 12

  -- rename
  unfoldable pub syscall38 : ℕ → Step ℕ
  unfolding load_args ensure_string read_path
  syscall38 varargs = do
    args ← load_args varargs 8
    ensure_string (arg args 0)
    ensure_string (arg args 1)
    old_path ← read_path (arg args 0)
    new_path ← read_path (arg args 1)
    check_ret (sys_path 38 (old_path ∷ new_path ∷ []) [])

  -- readlink
  unfoldable pub syscall85 : ℕ → Step ℕ
  unfolding load_args ensure_string ensure_range read_path
  syscall85 varargs = do
    args ← load_args varargs 12
    ensure_string (arg args 0)
    ensure_range (arg args 1) (arg args 2)
    path ← read_path (arg args 0)
    let answer = sys_readlink path (arg args 2)
    write_host (arg args 1) answer.1
    check_ret answer.0
