-- ===== src/Emscripten/Syscall.antt =====
-- src/wasmjit/emscripten_runtime.c: system calls that are given memory, on Linux. The host's own
-- calls are parameters, by what they answer: their numbers are the 64 bits of a `long`, and what they read or
-- write is bytes. A handler blocks signals while it holds memory of its own, which is not modelled.
pub mod Vector
pub mod Named
pub mod Paths
pub mod Within
pub mod Safety
pub mod Seek
use wasmjit.Prelude.{
  ℕ, zero, suc, ◌+◌, ◌-◌, ◌*◌, ◌/◌, ◌%◌, ◌^◌, Bool, true, false, ◌&&◌, ◌||◌, List, [], ◌∷◌, ◌++◌,
  Option, none, some, length, take, drop, ltb, leb, ◌==◌, if◌then◌else◌,
}
use wasmjit.Runtime.Store.{MemInst}
use wasmjit.Compile.State.{le_bytes}
use wasmjit.Emscripten.Memory.{
  Trap, memory_overflow, Outcome, done, undefined, Step, bind, ◌>>=◌, ◌>>◌, pure, skip, give, trap,
  negated, enomem, efault, einval, enosys, path_max, read_host, write_host, check_range,
  copy_to_user, chunks, read_chunk, copy_from_user, check_string, or_efault, ensure_range,
  ensure_string, load_args, arg, check_ret, check_unsigned,
}

-- What the host answers. A path, and the buffers of a vector, are given as the bytes in them.
pub record Host : Type 0 where
  pub sys_read : ℕ → ℕ → ℕ × List ℕ
  pub sys_write : ℕ → List ℕ → ℕ
  pub sys_pread : ℕ → ℕ → ℕ → ℕ × List ℕ
  pub sys_pwrite : ℕ → List ℕ → ℕ → ℕ
  pub sys_writev : ℕ → List (List ℕ) → ℕ
  -- By the room in all the buffers, which are filled one after another.
  pub sys_readv : ℕ → ℕ → ℕ × List ℕ
  pub sys_pwritev : ℕ → List (List ℕ) → ℕ → ℕ
  pub sys_pipe : ℕ × (ℕ × ℕ)
  pub sys_lseek : ℕ → ℕ → ℕ → ℕ
  pub sys_close : ℕ → ℕ
  pub sys_ioctl : ℕ → ℕ → ℕ → ℕ × ℕ
  pub sys_readlink : List ℕ → ℕ → ℕ × List ℕ
  -- unlink, chdir, chmod, mkdir, rename and chown, by the number of the call.
  pub sys_path : ℕ → List (List ℕ) → List ℕ → ℕ
  -- dup2, umask, ftruncate, pause and the calls that answer with a number of the process.
  pub sys_number : ℕ → List ℕ → ℕ
  -- Whether there is memory for a vector of so many elements of so many bytes, and for a record of it.
  pub vector_allocated : ℕ → ℕ → Bool
  pub pointer_added : Bool

module _ (host : Host) where
  open host use {
    sys_read, sys_write, sys_pread, sys_pwrite, sys_writev, sys_readv, sys_pwritev, sys_pipe,
    sys_lseek, sys_close, sys_ioctl, sys_readlink, sys_path, sys_number, vector_allocated,
    pointer_added,
  }

  -- read
  unfoldable pub syscall3 : ℕ → Step ℕ
  unfolding load_args ensure_range
  syscall3 varargs = do
    args ← load_args varargs 12
    ensure_range (arg args 1) (arg args 2)
    let answer = sys_read (arg args 0) (arg args 2)
    write_host (arg args 1) answer.1
    check_ret answer.0

  -- write
  unfoldable pub syscall4 : ℕ → Step ℕ
  unfolding load_args ensure_range
  syscall4 varargs = do
    args ← load_args varargs 12
    ensure_range (arg args 1) (arg args 2)
    bytes ← read_host (arg args 1) (arg args 2)
    check_ret (sys_write (arg args 0) bytes)

  -- close
  unfoldable pub syscall6 : ℕ → Step ℕ
  unfolding load_args
  syscall6 varargs = do args ← load_args varargs 4; check_ret (sys_close (arg args 0))

  -- pipe
  unfoldable pub syscall42 : ℕ → Step ℕ
  unfolding load_args copy_to_user le_bytes
  syscall42 varargs = do
    args ← load_args varargs 4
    ret ← check_ret sys_pipe.0
    if leb (2 ^ 31) ret then give ret else skip
    failed ← copy_to_user (arg args 0) (le_bytes 4 sys_pipe.1.0 ++ le_bytes 4 sys_pipe.1.1)
    if failed then give (negated efault) else skip
    pure 0

  -- _llseek
  unfoldable pub syscall140 : ℕ → Step ℕ
  unfolding load_args ensure_range le_bytes
  syscall140 varargs = do
    args ← load_args varargs 20
    ensure_range (arg args 3) 4
    ret ← check_ret (sys_lseek (arg args 0) (arg args 2 + arg args 1 * 2 ^ 32) (arg args 4))
    if ret == 0 then (do write_host (arg args 3) (le_bytes 4 ret); pure 0) else pure ret

  -- ioctl: FIONBIO and FIOASYNC have the same numbers on Linux. The answer is cut to 32 bits.
  unfoldable pub syscall54 : ℕ → Step ℕ
  unfolding load_args copy_from_user le_bytes
  syscall54 varargs = do
    args ← load_args varargs 8
    if arg args 1 == 0x5421 || arg args 1 == 0x5452 then skip else give (negated einval)
    pointer ← load_args ((varargs + 8) % 2 ^ 32) 4
    opt ← load_args (arg pointer 0) 4
    let answer = sys_ioctl (arg args 0) (arg args 1) (arg opt 0)
    if ltb answer.0 (2 ^ 63) then write_host (arg pointer 0) (le_bytes 4 answer.1) else skip
    pure (answer.0 % 2 ^ 32)

  -- pread64
  unfoldable pub syscall180 : ℕ → Step ℕ
  unfolding load_args ensure_range
  syscall180 varargs = do
    args ← load_args varargs 24
    or_efault (arg args 3 == 0)
    ensure_range (arg args 1) (arg args 2)
    let answer = sys_pread (arg args 0) (arg args 2) (arg args 4 + arg args 5 * 2 ^ 32)
    write_host (arg args 1) answer.1
    check_ret answer.0

  -- pwrite64
  unfoldable pub syscall181 : ℕ → Step ℕ
  unfolding load_args ensure_range
  syscall181 varargs = do
    args ← load_args varargs 24
    or_efault (arg args 3 == 0)
    ensure_range (arg args 1) (arg args 2)
    bytes ← read_host (arg args 1) (arg args 2)
    check_ret (sys_pwrite (arg args 0) bytes (arg args 4 + arg args 5 * 2 ^ 32))

  -- ftruncate
  unfoldable pub syscall194 : ℕ → Step ℕ
  unfolding load_args
  syscall194 varargs = do
    args ← load_args varargs 16
    check_ret (sys_number 194 (arg args 0 ∷ (arg args 2 + arg args 3 * 2 ^ 32) ∷ []))

  -- dup2 and umask: numbers alone.
  unfoldable pub syscall63 : ℕ → Step ℕ
  unfolding load_args
  syscall63 varargs = do
    args ← load_args varargs 8
    check_ret (sys_number 63 (arg args 0 ∷ arg args 1 ∷ []))

  unfoldable pub syscall60 : ℕ → Step ℕ
  unfolding load_args
  syscall60 varargs = do
    args ← load_args varargs 4
    check_unsigned (sys_number 60 (arg args 0 ∷ []))

  -- A number of the process, whatever the arguments are.
  unfoldable pub process_call : ℕ → ℕ → Step ℕ
  process_call number varargs = check_unsigned (sys_number number [])

  -- getpid
  abbrev pub syscall20 : ℕ → Step ℕ
  syscall20 = process_call 20

  -- getppid
  abbrev pub syscall64 : ℕ → Step ℕ
  syscall64 = process_call 64

  -- getuid, getgid, geteuid and getegid, of 32 bits.
  abbrev pub syscall199 : ℕ → Step ℕ
  syscall199 = process_call 199

  abbrev pub syscall200 : ℕ → Step ℕ
  syscall200 = process_call 200

  abbrev pub syscall201 : ℕ → Step ℕ
  syscall201 = process_call 201

  abbrev pub syscall202 : ℕ → Step ℕ
  syscall202 = process_call 202

  -- pause
  abbrev pub syscall29 : ℕ → Step ℕ
  syscall29 varargs = check_ret (sys_number 29 [])

  -- setsid
  unfoldable pub syscall66 : Step ℕ
  syscall66 = check_ret (sys_number 66 [])

-- A C string that is written.
abbrev pub c_text : List ℕ → List ℕ
c_text s = s ++ 0 ∷ []

-- uname
unfoldable pub syscall122 : ℕ → Step ℕ
unfolding load_args ensure_range
syscall122 varargs = do
  args ← load_args varargs 4
  ensure_range (arg args 0) 390
  write_host (arg args 0)
      (c_text (b'E' ∷ b'm' ∷ b's' ∷ b'c' ∷ b'r' ∷ b'i' ∷ b'p' ∷ b't' ∷ b'e' ∷ b'n' ∷ []))
  write_host (arg args 0 + 65)
      (c_text (b'e' ∷ b'm' ∷ b's' ∷ b'c' ∷ b'r' ∷ b'i' ∷ b'p' ∷ b't' ∷ b'e' ∷ b'n' ∷ []))
  write_host (arg args 0 + 130) (c_text (b'1' ∷ b'.' ∷ b'0' ∷ []))
  write_host (arg args 0 + 195) (c_text (b'#' ∷ b'1' ∷ []))
  write_host (arg args 0 + 260) (c_text (b'x' ∷ b'8' ∷ b'6' ∷ b'-' ∷ b'J' ∷ b'S' ∷ []))
  pure 0

-- munmap
abbrev pub syscall91 : Step ℕ
syscall91 = pure (negated enosys)

-- The parts of a copy inside the memory, one after another.
unfoldable pub copy_chunks : ℕ → ℕ → List (ℕ × ℕ) → Step (Unit {0})
unfolding read_chunk
copy_chunks dest src [] = skip
copy_chunks dest src ((i, size) ∷ rest) = do
  bytes ← read_chunk src i size
  write_host (dest + i) bytes
  copy_chunks dest src rest

abbrev pub or_overflow : Bool → Step (Unit {0})
or_overflow true = skip
or_overflow false = trap memory_overflow

-- wasmjit_emscripten__emscripten_memcpy_big
unfoldable pub emscripten_memcpy_big : ℕ → ℕ → ℕ → Step ℕ
unfolding copy_chunks
emscripten_memcpy_big dest src num m =
    (or_overflow (check_range dest num m && check_range src num m) >>= λ _.
    copy_chunks dest src (chunks num) >>= λ _. pure dest)
      m
