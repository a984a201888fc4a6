-- ===== src/Emscripten/Syscall/Vector.antt =====
-- src/wasmjit/emscripten_runtime.c: system calls that are given a vector of buffers.
use wasmjit.Prelude.{ℕ, zero, suc, ◌+◌, ◌*◌, ◌%◌, ◌^◌, List, [], ◌∷◌, take, drop, if◌then◌else◌}
use wasmjit.Emscripten.Memory.{
  Step, ◌>>=◌, ◌>>◌, pure, skip, give, negated, enomem, read_host, write_host, ensure_range,
  load_args, arg, check_ret,
}
use wasmjit.Emscripten.Syscall.{Host}

module _ (host : Host) where
  open host use {sys_writev, sys_readv, sys_pwritev, vector_allocated, pointer_added}

  -- The elements of a vector from the `i`th on: where each buffer lies, and how long it is.
  unfoldable pub copy_iovs : ℕ → ℕ → ℕ → Step (List (ℕ × ℕ))
  unfolding load_args ensure_range
  copy_iovs iov_user i zero = pure []
  copy_iovs iov_user i (suc n) = do
    iov ← load_args ((iov_user + 8 * i) % 2 ^ 32) 8
    ensure_range (arg iov 0) (arg iov 1)
    rest ← copy_iovs iov_user (i + 1) n
    pure ((arg iov 0, arg iov 1) ∷ rest)

  -- The errors end the call: nothing that the memory shows follows them.
  unfoldable pub copy_iov : ℕ → ℕ → Step (List (ℕ × ℕ))
  unfolding copy_iovs
  copy_iov iov_user iov_len = do
    if vector_allocated iov_len 16 then skip else give (negated enomem)
    copy_iovs iov_user 0 iov_len

  unfoldable pub read_buffers : List (ℕ × ℕ) → Step (List (List ℕ))
  read_buffers [] = pure []
  read_buffers ((offset, n) ∷ rest) = do
    bytes ← read_host offset n
    more ← read_buffers rest
    pure (bytes ∷ more)

  -- writev
  unfoldable pub syscall146 : ℕ → Step ℕ
  unfolding load_args copy_iov read_buffers
  syscall146 varargs = do
    args ← load_args varargs 12
    iovs ← copy_iov (arg args 1) (arg args 2)
    if pointer_added then skip else give (negated enomem)
    buffers ← read_buffers iovs
    check_ret (sys_writev (arg args 0) buffers)

  abbrev pub room_of : List (ℕ × ℕ) → ℕ
  room_of [] = 0
  room_of ((offset, n) ∷ rest) = n + room_of rest

  unfoldable pub write_buffers : List (ℕ × ℕ) → List ℕ → Step (Unit {0})
  write_buffers [] bytes = skip
  write_buffers ((offset, n) ∷ rest) bytes = do
    write_host offset (take n bytes)
    write_buffers rest (drop n bytes)

  -- readv
  unfoldable pub syscall145 : ℕ → Step ℕ
  unfolding load_args copy_iov write_buffers
  syscall145 varargs = do
    args ← load_args varargs 12
    iovs ← copy_iov (arg args 1) (arg args 2)
    let answer = sys_readv (arg args 0) (room_of iovs)
    write_buffers iovs answer.1
    check_ret answer.0

  -- pwritev
  unfoldable pub syscall334 : ℕ → Step ℕ
  unfolding load_args copy_iov read_buffers
  syscall334 varargs = do
    args ← load_args varargs 16
    iovs ← copy_iov (arg args 1) (arg args 2)
    if pointer_added then skip else give (negated enomem)
    buffers ← read_buffers iovs
    check_ret (sys_pwritev (arg args 0) buffers (arg args 3))
