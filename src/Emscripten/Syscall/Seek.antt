-- ===== src/Emscripten/Syscall/Seek.antt =====
-- src/wasmjit/emscripten_runtime.c: what `_llseek` stores.
use wasmjit.Prelude.{
  ℕ, ◌+◌, ◌-◌, ◌*◌, ◌%◌, ◌^◌, ltb, leb, subst, ◌≡◌, ◌⊎◌, inl, inr, refl, ◌∙◌, true, false, ◌==◌,
  arith,
}
use wasmjit.Runtime.Store.{MemInst}
use wasmjit.Compile.State.{le_bytes}
use wasmjit.Emscripten.Memory.{Outcome, Step, done, write_host, arg, check_ret}
use wasmjit.Emscripten.Memory.Keeps.{
  Post, holds, Keeps, Reads, Keeps-bind, Keeps-if, Keeps-pure, Keeps-trap, write_host-Keeps,
  load_args-Keeps, ensure_range-Keeps,
}
use wasmjit.Emscripten.Syscall.{Host, syscall140}

-- The memory is as it was and the answer is not 0, or four bytes of 0 are stored and the answer is 0.
abbrev pub StoresZero : MemInst → ℕ → MemInst → Type 0
StoresZero m ret t =
    ((t ≡ m) × ((ret == 0) ≡ false))
    ⊎ ((ret ≡ 0) × ((ptr : ℕ) × (write_host ptr (le_bytes 4 0) m ≡ done tt t)))

exact :
    {A : Type 0} {n : ℕ} {P : A → MemInst → Type 0} {r : Outcome A}
    → Post n P r
    → Post n (λ a t. r ≡ done a t) r
exact (holds ok q) = holds ok refl
exact (Post.ends ok) = Post.ends ok
exact Post.traps = Post.traps

Keeps-exact :
    {A : Type 0} {n : ℕ} {P : A → MemInst → Type 0} {step : Step A} {m : MemInst}
    → Keeps n P step m
    → Keeps n (λ a t. step m ≡ done a t) step m
Keeps-exact h = record { at = λ ok. exact (h.at ok) }

check_ret-Reads : (n r : ℕ) (m : MemInst) → Keeps n (Reads m (λ _. Unit)) (check_ret r) m
unfolding check_ret
check_ret-Reads n r m =
    Keeps-if (ltb r (2 ^ 31)) (λ _. Keeps-pure r m (refl, tt))
      λ _.
        Keeps-if (leb (2 ^ 64 - 2 ^ 31) r) (λ _. Keeps-pure (r % 2 ^ 32) m (refl, tt))
          λ _. Keeps-trap _ m

is_zero : (n : ℕ) → (n == 0) ≡ true → n ≡ 0
is_zero n h = ground (arith, h)

-- On a memory below 4 GiB, with as many bytes as its size says, and whatever the module passes and the host
-- answers: where `_llseek` ends in the ordinary way, it has either stored nothing, and answers with a
-- number other than 0, or stored four bytes of 0, and answers with 0. So it never stores a position
-- other than 0.
pub syscall140-StoresZero :
    (host : Host) (n varargs : ℕ) (m : MemInst) → Keeps n (StoresZero m) (syscall140 host varargs) m
unfolding syscall140 le_bytes
syscall140-StoresZero host n varargs m = Keeps-bind (load_args-Keeps n varargs 20 m) λ args t p.
    Keeps-bind (ensure_range-Keeps n (arg args 3) 4 t) λ _ u q.
      Keeps-bind
        (check_ret-Reads n
          (host.sys_lseek (arg args 0) (arg args 2 + arg args 1 * 2 ^ 32) (arg args 4)) u)
        λ ret v r.
          let same : v ≡ m = r.0 ∙ (q.0 ∙ p.0) in
          Keeps-if (ret == 0)
            (λ zero_ret.
              Keeps-bind
                (Keeps-exact
                  (write_host-Keeps n (arg args 3) (le_bytes 4 ret) v (omega (arith, q.1))))
                λ _ w stored. Keeps-pure 0 w (
                  inr (
                    refl,
                    (
                      arg args 3,
                      subst (λ (x : MemInst). write_host (arg args 3) (le_bytes 4 0) x ≡ done tt w)
                          same
                          (subst (λ (k : ℕ). write_host (arg args 3) (le_bytes 4 k) v ≡ done tt w)
                            (is_zero ret zero_ret) stored),
                    ),
                  )))
            λ other. Keeps-pure ret v (inl (same, other))
