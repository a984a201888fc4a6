-- ===== src/Emscripten/Syscall/Safety.antt =====
-- src/wasmjit/emscripten_runtime.c: the system calls that are modelled together, and what none of them does.
use wasmjit.Prelude.{
  ℕ, ◌+◌, ◌≤◌, ◌≡◌, refl, Bool, true, List, [], ◌∷◌, All, length, length-take, length-drop, arith,
  drop, ◌&&◌, Bool-cases, inl, inr, false,
}
use wasmjit.Runtime.Store.{MemInst}
use wasmjit.Emscripten.Memory.{Step, check_range, arg, read_chunk}
use wasmjit.Emscripten.Memory.Copies.{
  IsMemory, Runs, ended, next, Runs-chunks, Runs-le, read_chunk_lem, range_fits,
}
use wasmjit.Emscripten.Memory.Keeps.{
  Post, holds, Keeps, Anything, Safe, Keeps-bind, Keeps-pure, write_host-Keeps, ensure_range-Keeps,
  load_args-Keeps, check_ret-Keeps, check_unsigned-Keeps,
}
use wasmjit.Emscripten.Syscall.{
  Host, syscall194, syscall29, syscall3, syscall4, syscall6, syscall42, syscall140, syscall54,
  syscall180, syscall181, syscall63, syscall60, process_call, syscall66, syscall20, syscall64,
  syscall199, syscall200, syscall201, syscall202, syscall122, syscall91, copy_chunks,
  emscripten_memcpy_big,
}
use wasmjit.Emscripten.Syscall.Named.{
  syscall38, syscall85, syscall10, syscall12, syscall15, syscall39, syscall212,
}
use wasmjit.Emscripten.Syscall.Vector.{syscall146, syscall145, syscall334}
use wasmjit.Emscripten.Syscall.Within.{
  IsHost, syscall3-Safe, syscall4-Safe, syscall6-Safe, syscall42-Safe, syscall140-Safe,
  syscall54-Safe, syscall180-Safe, syscall181-Safe, syscall146-Safe, syscall145-Safe,
  syscall334-Safe, syscall194-Safe, path_call-Safe, syscall38-Safe, syscall85-Safe,
}

module _ (host : Host) (n : ℕ) where
  syscall63-Safe : (varargs : ℕ) → Safe n (syscall63 host varargs)
  unfolding syscall63
  syscall63-Safe varargs m =
      Keeps-bind (load_args-Keeps n varargs 8 m) λ args t _. check_ret-Keeps n _ t

  syscall60-Safe : (varargs : ℕ) → Safe n (syscall60 host varargs)
  unfolding syscall60
  syscall60-Safe varargs m =
      Keeps-bind (load_args-Keeps n varargs 4 m) λ args t _. check_unsigned-Keeps n _ t

  process_call-Safe : (number varargs : ℕ) → Safe n (process_call host number varargs)
  unfolding process_call
  process_call-Safe number varargs m = check_unsigned-Keeps n _ m

  syscall66-Safe : Safe n (syscall66 host)
  unfolding syscall66
  syscall66-Safe m = check_ret-Keeps n _ m

module _ (n : ℕ) where
  syscall122-Safe : (varargs : ℕ) → Safe n (syscall122 varargs)
  unfolding syscall122
  syscall122-Safe varargs m = Keeps-bind (load_args-Keeps n varargs 4 m) λ args t _.
      Keeps-bind (ensure_range-Keeps n (arg args 0) 390 t) λ _ u h.
        Keeps-bind (write_host-Keeps n (arg args 0) _ u (omega (arith, h.1))) λ _ v _.
          Keeps-bind (write_host-Keeps n (arg args 0 + 65) _ v (omega (arith, h.1))) λ _ w _.
            Keeps-bind (write_host-Keeps n (arg args 0 + 130) _ w (omega (arith, h.1))) λ _ x _.
              Keeps-bind (write_host-Keeps n (arg args 0 + 195) _ x (omega (arith, h.1))) λ _ y _.
                Keeps-bind (write_host-Keeps n (arg args 0 + 260) _ y (omega (arith, h.1)))
                  λ _ z _. Keeps-pure 0 z tt

  -- One part of a copy, read where it lies in the memory.
  read_chunk-Keeps :
      (src i k : ℕ) (m : MemInst)
      → src + i + k ≤ n
      → Keeps n (λ bytes _. length bytes ≡ k) (read_chunk src i k) m
  read_chunk-Keeps src i k m h = record {
    at = λ ok. rw (read_chunk_lem n m ok src i k h) (
        holds ok (
          length-take k (drop (src + i) m.bytes)
            (omega (arith, length-drop (src + i) m.bytes, h, ok.whole))));
  }

  copy_chunks-Safe :
      (dest src : ℕ) {i e : ℕ} {cs : List (ℕ × ℕ)}
      → Runs i cs e
      → dest + e ≤ n
      → src + e ≤ n
      → Safe n (copy_chunks dest src cs)
  unfolding copy_chunks
  copy_chunks-Safe dest src ended h g m = Keeps-pure tt m tt
  copy_chunks-Safe dest src {i = i} (next k same r) h g m =
      let below = Runs-le r in
      Keeps-bind (read_chunk-Keeps src i k m (omega (arith, same, below, g))) λ bytes t long.
        Keeps-bind (write_host-Keeps n (dest + i) bytes t (omega (arith, same, below, h, long)))
          λ _ u _. copy_chunks-Safe dest src r h g u

  range_of :
      (dest src num : ℕ) (m : MemInst)
      → IsMemory n m
      → (check_range dest num m && check_range src num m) ≡ true
      → (dest + num ≤ n) × (src + num ≤ n)
  range_of dest src num m ok h =
      let p = both (check_range dest num m) (check_range src num m) h in
      (
        omega (arith, ok.sized, (range_fits dest num m p.0).1),
        omega (arith, ok.sized, (range_fits src num m p.1).1),
      )
    where
      both : (a b : Bool) → (a && b) ≡ true → (a ≡ true) × (b ≡ true)
      both true b h = (refl, h)
      both false b h = cc

  memcpy_big-Safe : (dest src num : ℕ) → Safe n (emscripten_memcpy_big dest src num)
  unfolding emscripten_memcpy_big
  memcpy_big-Safe dest src num m = record {
    at = λ ok. elim (Bool-cases (check_range dest num m && check_range src num m)) [
      | inr outside ↦ rw outside Post.traps
      | inl inside ↦
          let fits = range_of dest src num m ok inside in
          rw inside (
            (Keeps-bind {Q = Anything} (copy_chunks-Safe dest src (Runs-chunks num) fits.0 fits.1 m)
                λ _ t _. Keeps-pure dest t tt).at
              ok)
    ];
  }

-- The calls, by the address of their arguments: read, write, close, pipe, _llseek, ioctl, pread64,
-- pwrite64, writev, readv, pwritev, ftruncate, pause, unlink, chdir, chmod, mkdir, chown, rename, readlink, dup2, umask, getpid, getppid,
-- getuid, getgid, geteuid, getegid, setsid, uname and munmap.
abbrev pub calls : Host → List (ℕ → Step ℕ)
calls host =
    syscall3 host
    ∷ syscall4 host
    ∷ syscall6 host
    ∷ syscall42 host
    ∷ syscall140 host
    ∷ syscall54 host
    ∷ syscall180 host
    ∷ syscall181 host
    ∷ syscall146 host
    ∷ syscall145 host
    ∷ syscall334 host
    ∷ syscall194 host
    ∷ syscall29 host
    ∷ syscall10 host
    ∷ syscall12 host
    ∷ syscall15 host
    ∷ syscall39 host
    ∷ syscall212 host
    ∷ syscall38 host
    ∷ syscall85 host
    ∷ syscall63 host
    ∷ syscall60 host
    ∷ syscall20 host
    ∷ syscall64 host
    ∷ syscall199 host
    ∷ syscall200 host
    ∷ syscall201 host
    ∷ syscall202 host
    ∷ (λ _. syscall66 host)
    ∷ syscall122
    ∷ (λ _. syscall91)
    ∷ []

infixr 4 ◌&◌
abbrev ◌&◌ {ℓ κ} : {A : Type ℓ} {B : Type κ} → A → B → A × B
p & q = (p, q)

every_call-Safe :
    (host : Host) (n : ℕ)
    → IsHost host
    → All (λ (call : ℕ → Step ℕ). (varargs : ℕ) → Safe n (call varargs)) (calls host)
every_call-Safe host n ok =
    syscall3-Safe host n ok
    & syscall4-Safe host n ok
    & syscall6-Safe host n ok
    & syscall42-Safe host n ok
    & syscall140-Safe host n ok
    & syscall54-Safe host n ok
    & syscall180-Safe host n ok
    & syscall181-Safe host n ok
    & syscall146-Safe host n ok
    & syscall145-Safe host n ok
    & syscall334-Safe host n ok
    & syscall194-Safe host n ok
    & (λ _ m. check_ret-Keeps n _ m)
    & path_call-Safe host n ok 10 4
    & path_call-Safe host n ok 12 4
    & path_call-Safe host n ok 15 8
    & path_call-Safe host n ok 39 8
    & path_call-Safe host n ok 212 12
    & syscall38-Safe host n ok
    & syscall85-Safe host n ok
    & syscall63-Safe host n
    & syscall60-Safe host n
    & process_call-Safe host n 20
    & process_call-Safe host n 64
    & process_call-Safe host n 199
    & process_call-Safe host n 200
    & process_call-Safe host n 201
    & process_call-Safe host n 202
    & (λ _. syscall66-Safe host n)
    & syscall122-Safe n
    & (λ _ m. Keeps-pure _ m tt)
    & tt

-- On a memory below 4 GiB, with as many bytes as its size says, and with a host that reads no more than it is
-- asked to, none of the system calls in `calls` makes the host access anything outside the memory, whatever
-- the module passes, and the memory keeps its size; the same holds of `emscripten_memcpy_big`.
pub calls-Safe :
    (host : Host) (n : ℕ)
    → IsHost host
    → All (λ (call : ℕ → Step ℕ). (varargs : ℕ) → Safe n (call varargs)) (calls host)
      × ((dest src num : ℕ) → Safe n (emscripten_memcpy_big dest src num))
calls-Safe host n ok = (every_call-Safe host n ok, memcpy_big-Safe n)
