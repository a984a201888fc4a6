-- ===== src/Emscripten/Syscall/Within.antt =====
-- src/wasmjit/emscripten_runtime.c: the accesses of the system calls to the memory of a module.
use wasmjit.Prelude.{
  ℕ, zero, suc, ◌+◌, ◌*◌, ◌%◌, ◌^◌, ◌≤◌, ◌≡◌, refl, ◌∙◌, ◌||◌, Bool, List, [], ◌∷◌, ◌++◌, length,
  take, drop, All, ltb, leb, arith, ◌==◌, if◌then◌else◌,
}
use wasmjit.Runtime.Store.{MemInst}
use wasmjit.Compile.State.{le_bytes}
use wasmjit.Emscripten.Memory.{skip, give, negated, einval, enomem, arg}
use wasmjit.Emscripten.Memory.Keeps.{
  Keeps, Anything, Safe, Reads, Keeps-bind, Keeps-if, Keeps-map, Keeps-pure, Keeps-give,
  read_host-Keeps, write_host-Keeps, ensure_range-Keeps, or_efault-Keeps, load_args-Keeps,
  copy_to_user-Keeps, check_ret-Keeps,
}
use wasmjit.Emscripten.Syscall.{
  Host, syscall3, syscall4, syscall6, syscall42, syscall140, syscall54, syscall180, syscall181,
  syscall194,
}
use wasmjit.Emscripten.Syscall.Named.{path_call, syscall38, syscall85}
use wasmjit.Emscripten.Syscall.Vector.{
  copy_iovs, copy_iov, read_buffers, syscall146, syscall145, syscall334, write_buffers, room_of,
}
use wasmjit.Emscripten.Syscall.Paths.{StringAt, ensure_string-Keeps, read_path-Keeps}

-- The host reads no more than it is asked to.
pub record IsHost (host : Host) : Type 0 where
  pub reads : (fd count : ℕ) → length (host.sys_read fd count).1 ≤ count
  pub preads : (fd count offset : ℕ) → length (host.sys_pread fd count offset).1 ≤ count
  pub readlinks : (path : List ℕ) (size : ℕ) → length (host.sys_readlink path size).1 ≤ size

-- Buffers inside a memory of that size.
abbrev pub Inside : ℕ → ℕ × ℕ → Type 0
Inside n iov = iov.0 + iov.1 ≤ n

moved : (p : ℕ) {m t : MemInst} → t ≡ m → StringAt p m → StringAt p t
moved p same h = rw same h

skip_if :
    (n : ℕ) (b : Bool) (v : ℕ) (m : MemInst)
    → Keeps n (Reads m (λ _. Unit)) (if b then skip else give v) m
skip_if n b v m = Keeps-if b (λ _. Keeps-pure tt m (refl, tt)) λ _. Keeps-give v m

length-take_le : (k : ℕ) (bytes : List ℕ) → length (take k bytes) ≤ k
length-take_le zero bytes = omega arith
length-take_le (suc k) [] = omega arith
length-take_le (suc k) (b ∷ bytes) = omega (arith, length-take_le k bytes)

module _ (host : Host) (n : ℕ) (ok : IsHost host) where
  pub syscall3-Safe : (varargs : ℕ) → Safe n (syscall3 host varargs)
  unfolding syscall3
  syscall3-Safe varargs m = Keeps-bind (load_args-Keeps n varargs 12 m) λ args t _.
      Keeps-bind (ensure_range-Keeps n (arg args 1) (arg args 2) t) λ _ u inside.
        Keeps-bind
          (write_host-Keeps n (arg args 1) (host.sys_read (arg args 0) (arg args 2)).1 u
            (omega (arith, inside.1, ok.reads (arg args 0) (arg args 2))))
          λ _ v _. check_ret-Keeps n _ v

  pub syscall4-Safe : (varargs : ℕ) → Safe n (syscall4 host varargs)
  unfolding syscall4
  syscall4-Safe varargs m = Keeps-bind (load_args-Keeps n varargs 12 m) λ args t _.
      Keeps-bind (ensure_range-Keeps n (arg args 1) (arg args 2) t) λ _ u inside.
        Keeps-bind (read_host-Keeps n (arg args 1) (arg args 2) u inside.1)
          λ bytes v _. check_ret-Keeps n _ v

  pub syscall6-Safe : (varargs : ℕ) → Safe n (syscall6 host varargs)
  unfolding syscall6
  syscall6-Safe varargs m =
      Keeps-bind (load_args-Keeps n varargs 4 m) λ args t _. check_ret-Keeps n _ t

  pub syscall42-Safe : (varargs : ℕ) → Safe n (syscall42 host varargs)
  unfolding syscall42
  syscall42-Safe varargs m = Keeps-bind (load_args-Keeps n varargs 4 m) λ args t _.
      Keeps-bind (check_ret-Keeps n host.sys_pipe.0 t) λ ret u _.
        Keeps-bind {P = Anything}
          (Keeps-if (leb (2 ^ 31) ret) (λ _. Keeps-give ret u) (λ _. Keeps-pure tt u tt))
          λ _ v _.
            Keeps-bind
              (copy_to_user-Keeps n (arg args 0)
                (le_bytes 4 host.sys_pipe.1.0 ++ le_bytes 4 host.sys_pipe.1.1) v)
              λ failed w _.
                Keeps-bind {P = Anything}
                  (Keeps-if failed (λ _. Keeps-give _ w) (λ _. Keeps-pure tt w tt))
                  λ _ x _. Keeps-pure 0 x tt

  pub syscall140-Safe : (varargs : ℕ) → Safe n (syscall140 host varargs)
  unfolding syscall140 le_bytes
  syscall140-Safe varargs m = Keeps-bind (load_args-Keeps n varargs 20 m) λ args t _.
      Keeps-bind (ensure_range-Keeps n (arg args 3) 4 t) λ _ u inside.
        Keeps-bind
          (check_ret-Keeps n
            (host.sys_lseek (arg args 0) (arg args 2 + arg args 1 * 2 ^ 32) (arg args 4)) u)
          λ ret v _.
            Keeps-if (ret == 0)
              (λ _.
                Keeps-bind
                  (write_host-Keeps n (arg args 3) (le_bytes 4 ret) v (omega (arith, inside.1)))
                  λ _ w _. Keeps-pure 0 w tt)
              λ _. Keeps-pure ret v tt

  pub syscall54-Safe : (varargs : ℕ) → Safe n (syscall54 host varargs)
  unfolding syscall54 le_bytes
  syscall54-Safe varargs m = Keeps-bind (load_args-Keeps n varargs 8 m) λ args t _.
      Keeps-bind (skip_if n (arg args 1 == 0x5421 || arg args 1 == 0x5452) (negated einval) t)
        λ _ u _. Keeps-bind (load_args-Keeps n ((varargs + 8) % 2 ^ 32) 4 u) λ pointer v _.
          Keeps-bind (load_args-Keeps n (arg pointer 0) 4 v) λ opt w inside.
            Keeps-bind {P = Anything}
              (Keeps-if (ltb (host.sys_ioctl (arg args 0) (arg args 1) (arg opt 0)).0 (2 ^ 63))
                (λ _.
                  write_host-Keeps n (arg pointer 0)
                    (le_bytes 4 (host.sys_ioctl (arg args 0) (arg args 1) (arg opt 0)).1) w
                    (omega (arith, inside.1)))
                λ _. Keeps-pure tt w tt)
              λ _ x _. Keeps-pure _ x tt

  pub syscall180-Safe : (varargs : ℕ) → Safe n (syscall180 host varargs)
  unfolding syscall180
  syscall180-Safe varargs m = Keeps-bind (load_args-Keeps n varargs 24 m) λ args t _.
      Keeps-bind (or_efault-Keeps n (arg args 3 == 0) t) λ _ u _.
        Keeps-bind (ensure_range-Keeps n (arg args 1) (arg args 2) u) λ _ v inside.
          Keeps-bind
            (write_host-Keeps n (arg args 1)
              (host.sys_pread (arg args 0) (arg args 2) (arg args 4 + arg args 5 * 2 ^ 32)).1 v
              (omega (
                arith,
                inside.1,
                ok.preads (arg args 0) (arg args 2) (arg args 4 + arg args 5 * 2 ^ 32),
              )))
            λ _ w _. check_ret-Keeps n _ w

  pub syscall181-Safe : (varargs : ℕ) → Safe n (syscall181 host varargs)
  unfolding syscall181
  syscall181-Safe varargs m = Keeps-bind (load_args-Keeps n varargs 24 m) λ args t _.
      Keeps-bind (or_efault-Keeps n (arg args 3 == 0) t) λ _ u _.
        Keeps-bind (ensure_range-Keeps n (arg args 1) (arg args 2) u) λ _ v inside.
          Keeps-bind (read_host-Keeps n (arg args 1) (arg args 2) v inside.1)
            λ bytes w _. check_ret-Keeps n _ w

  copy_iovs-Keeps :
      (iov_user i k : ℕ) (m : MemInst)
      → Keeps n (Reads m (All (Inside n))) (copy_iovs host iov_user i k) m
  unfolding copy_iovs
  copy_iovs-Keeps iov_user i zero m = Keeps-pure [] m (refl, tt)
  copy_iovs-Keeps iov_user i (suc k) m =
      Keeps-bind (load_args-Keeps n ((iov_user + 8 * i) % 2 ^ 32) 8 m) λ iov t p.
        Keeps-bind (ensure_range-Keeps n (arg iov 0) (arg iov 1) t) λ _ u q.
          Keeps-bind (copy_iovs-Keeps iov_user (i + 1) k u)
            λ rest v r. Keeps-pure _ v (r.0 ∙ (q.0 ∙ p.0), (q.1, r.1))

  -- A vector of buffers is copied only where each of them lies in the memory.
  copy_iov-Keeps :
      (iov_user k : ℕ) (m : MemInst)
      → Keeps n (Reads m (All (Inside n))) (copy_iov host iov_user k) m
  unfolding copy_iov
  copy_iov-Keeps iov_user k m =
      Keeps-bind (skip_if n (host.vector_allocated k 16) (negated enomem) m)
        λ _ t p. Keeps-map (λ _ _ q. (q.0 ∙ p.0, q.1)) (copy_iovs-Keeps iov_user 0 k t)

  read_buffers-Safe : (iovs : List (ℕ × ℕ)) → All (Inside n) iovs → Safe n (read_buffers host iovs)
  unfolding read_buffers
  read_buffers-Safe [] h m = Keeps-pure [] m tt
  read_buffers-Safe ((offset, k) ∷ rest) h m =
      Keeps-bind (read_host-Keeps n offset k m h.0)
        λ bytes t _. Keeps-bind (read_buffers-Safe rest h.1 t) λ more u _. Keeps-pure _ u tt

  pub syscall146-Safe : (varargs : ℕ) → Safe n (syscall146 host varargs)
  unfolding syscall146
  syscall146-Safe varargs m = Keeps-bind (load_args-Keeps n varargs 12 m) λ args t _.
      Keeps-bind (copy_iov-Keeps (arg args 1) (arg args 2) t) λ iovs u p.
        Keeps-bind (skip_if n host.pointer_added (negated enomem) u)
          λ _ v _. Keeps-bind (read_buffers-Safe iovs p.1 v) λ buffers w _. check_ret-Keeps n _ w

  write_buffers-Safe :
      (iovs : List (ℕ × ℕ)) (bytes : List ℕ)
      → All (Inside n) iovs
      → Safe n (write_buffers host iovs bytes)
  unfolding write_buffers
  write_buffers-Safe [] bytes h m = Keeps-pure tt m tt
  write_buffers-Safe ((offset, k) ∷ rest) bytes h m =
      Keeps-bind
        (write_host-Keeps n offset (take k bytes) m (omega (arith, h.0, length-take_le k bytes)))
        λ _ t _. write_buffers-Safe rest (drop k bytes) h.1 t

  pub syscall145-Safe : (varargs : ℕ) → Safe n (syscall145 host varargs)
  unfolding syscall145
  syscall145-Safe varargs m = Keeps-bind (load_args-Keeps n varargs 12 m) λ args t _.
      Keeps-bind (copy_iov-Keeps (arg args 1) (arg args 2) t) λ iovs u p.
        Keeps-bind
          (write_buffers-Safe iovs (host.sys_readv (arg args 0) (room_of host iovs)).1 p.1 u)
          λ _ v _. check_ret-Keeps n _ v

  pub syscall334-Safe : (varargs : ℕ) → Safe n (syscall334 host varargs)
  unfolding syscall334
  syscall334-Safe varargs m = Keeps-bind (load_args-Keeps n varargs 16 m) λ args t _.
      Keeps-bind (copy_iov-Keeps (arg args 1) (arg args 2) t) λ iovs u p.
        Keeps-bind (skip_if n host.pointer_added (negated enomem) u)
          λ _ v _. Keeps-bind (read_buffers-Safe iovs p.1 v) λ buffers w _. check_ret-Keeps n _ w

  pub syscall194-Safe : (varargs : ℕ) → Safe n (syscall194 host varargs)
  unfolding syscall194
  syscall194-Safe varargs m =
      Keeps-bind (load_args-Keeps n varargs 16 m) λ args t _. check_ret-Keeps n _ t

  pub path_call-Safe : (number size varargs : ℕ) → Safe n (path_call host number size varargs)
  unfolding path_call
  path_call-Safe number size varargs m = Keeps-bind (load_args-Keeps n varargs size m) λ args t _.
      Keeps-bind (ensure_string-Keeps n t (arg args 0)) λ _ u p.
        Keeps-bind (read_path-Keeps n u (arg args 0) (moved (arg args 0) p.0 p.1))
          λ path v _. check_ret-Keeps n _ v

  pub syscall38-Safe : (varargs : ℕ) → Safe n (syscall38 host varargs)
  unfolding syscall38
  syscall38-Safe varargs m = Keeps-bind (load_args-Keeps n varargs 8 m) λ args t _.
      Keeps-bind (ensure_string-Keeps n t (arg args 0)) λ _ u p.
        Keeps-bind (ensure_string-Keeps n u (arg args 1)) λ _ v q.
          Keeps-bind (read_path-Keeps n v (arg args 0) (moved (arg args 0) (q.0 ∙ p.0) p.1))
            λ old_path w r.
              Keeps-bind (read_path-Keeps n w (arg args 1) (moved (arg args 1) (r.0 ∙ q.0) q.1))
                λ new_path x _. check_ret-Keeps n _ x

  pub syscall85-Safe : (varargs : ℕ) → Safe n (syscall85 host varargs)
  unfolding syscall85
  syscall85-Safe varargs m = Keeps-bind (load_args-Keeps n varargs 12 m) λ args t _.
      Keeps-bind (ensure_string-Keeps n t (arg args 0)) λ _ u p.
        Keeps-bind (ensure_range-Keeps n (arg args 1) (arg args 2) u) λ _ v q.
          Keeps-bind (read_path-Keeps n v (arg args 0) (moved (arg args 0) (q.0 ∙ p.0) p.1))
            λ path w _.
              Keeps-bind
                (write_host-Keeps n (arg args 1) (host.sys_readlink path (arg args 2)).1 w
                  (omega (arith, q.1, ok.readlinks path (arg args 2))))
                λ _ x _. check_ret-Keeps n _ x
