-- ===== src/Emscripten/Memory/Keeps.antt =====
-- The postcondition of the steps of src/wasmjit/emscripten_runtime.c: nothing undefined happens, and the memory
-- keeps its size.
use wasmjit.Prelude.{
  ℕ, ◌+◌, ◌-◌, ◌%◌, ◌^◌, ◌≤◌, ◌≡◌, refl, ◌∙◌, Bool, true, false, List, length, drop, length-take,
  length-drop, ltb, leb, le→leb, Bool-cases, inl, inr, arith, if◌then◌else◌,
}
use wasmjit.Prelude.Overwrite.{length-overwrite}
use wasmjit.Runtime.Store.{MemInst}
use wasmjit.Emscripten.Memory.{
  Trap, Outcome, done, returned, trapped, Step, bind, ◌>>=◌, pure, give, trap, read_host,
  write_host, check_range, copy_to_user, or_efault, ensure_range, load_args, check_ret,
  check_unsigned,
}
use wasmjit.Emscripten.Memory.Copies.{IsMemory, range_fits, copy_from_user_lem}

pub data Post {ℓ} {A : Type ℓ} (n : ℕ) (Q : A → MemInst → Type 0) : Outcome A → Type ℓ where
  holds : {a : A} {t : MemInst} → IsMemory n t → Q a t → Post n Q (done a t)
  ends : {v : ℕ} {t : MemInst} → IsMemory n t → Post n Q (returned v t)
  traps : {t : Trap} → Post n Q (trapped t)

-- From a memory of that size.
pub record Keeps {ℓ} {A : Type ℓ} (n : ℕ) (Q : A → MemInst → Type 0) (step : Step A) (m : MemInst)
    : Type ℓ where
  pub at : IsMemory n m → Post n Q (step m)

abbrev pub Anything {ℓ} : {A : Type ℓ} → A → MemInst → Type 0
Anything a t = Unit

-- From every such memory, with nothing known of the result.
abbrev pub Safe {ℓ} : {A : Type ℓ} → ℕ → Step A → Type ℓ
Safe n step = (m : MemInst) → Keeps n Anything step m

-- A step that only reads, and what is known of its result.
abbrev pub Reads {ℓ} : {A : Type ℓ} → MemInst → (A → Type 0) → A → MemInst → Type 0
Reads m Q a t = (t ≡ m) × Q a

module _ {ℓ κ} {A : Type ℓ} {B : Type κ} {n : ℕ} {P : A → MemInst → Type 0}
    {Q : B → MemInst → Type 0} where
  bind-Post :
      {r : Outcome A} {f : A → Step B}
      → Post n P r
      → ((a : A) (t : MemInst) → P a t → Keeps n Q (f a) t)
      → Post n Q (bind r f)
  bind-Post (holds {a = a} {t = t} ok p) k = (k a t p).at ok
  bind-Post (ends ok) k = ends ok
  bind-Post traps k = traps

  pub Keeps-bind :
      {step : Step A} {f : A → Step B} {m : MemInst}
      → Keeps n P step m
      → ((a : A) (t : MemInst) → P a t → Keeps n Q (f a) t)
      → Keeps n Q (step >>= f) m
  Keeps-bind h k = record { at = λ ok. bind-Post (h.at ok) k }

Post-map {ℓ} :
    {A : Type ℓ} {n : ℕ} {P Q : A → MemInst → Type 0} {r : Outcome A}
    → ((a : A) (t : MemInst) → P a t → Q a t)
    → Post n P r
    → Post n Q r
Post-map f (holds ok q) = holds ok (f _ _ q)
Post-map f (ends ok) = ends ok
Post-map f traps = traps

pub Keeps-map {ℓ} :
    {A : Type ℓ} {n : ℕ} {P Q : A → MemInst → Type 0} {step : Step A} {m : MemInst}
    → ((a : A) (t : MemInst) → P a t → Q a t)
    → Keeps n P step m
    → Keeps n Q step m
Keeps-map f h = record { at = λ ok. Post-map f (h.at ok) }

module _ {ℓ} {A : Type ℓ} {n : ℕ} {Q : A → MemInst → Type 0} where
  pub Keeps-if :
      {x y : Step A} {m : MemInst} (b : Bool)
      → (b ≡ true → Keeps n Q x m)
      → (b ≡ false → Keeps n Q y m)
      → Keeps n Q (if b then x else y) m
  Keeps-if true p q = p refl
  Keeps-if false p q = q refl

  pub Keeps-pure : (a : A) (m : MemInst) → Q a m → Keeps n Q (pure a) m
  Keeps-pure a m q = record { at = λ ok. holds ok q }

  pub Keeps-give : (v : ℕ) (m : MemInst) → Keeps n Q (give v) m
  Keeps-give v m = record { at = λ ok. ends ok }

  pub Keeps-trap : (t : Trap) (m : MemInst) → Keeps n Q (trap t) m
  Keeps-trap t m = record { at = λ ok. traps }

module _ (n : ℕ) where
  pub read_host-Keeps :
      (offset k : ℕ) (m : MemInst)
      → offset + k ≤ n
      → Keeps n (Reads m (λ bytes. length bytes ≡ k)) (read_host offset k) m
  unfolding read_host
  read_host-Keeps offset k m h = record {
    at = λ ok. rw (le→leb (offset + k) (length m.bytes) (omega (arith, h, ok.whole))) (
        holds ok (
          refl,
          length-take k (drop offset m.bytes)
              (omega (arith, length-drop offset m.bytes, h, ok.whole)),
        ));
  }

  pub write_host-Keeps :
      (offset : ℕ) (buf : List ℕ) (m : MemInst)
      → offset + length buf ≤ n
      → Keeps n Anything (write_host offset buf) m
  unfolding write_host
  write_host-Keeps offset buf m h = record {
    at = λ ok.
        let inside : offset + length buf ≤ length m.bytes = omega (arith, h, ok.whole) in
        rw (le→leb (offset + length buf) (length m.bytes) inside) (
          holds
            (record {
              whole = length-overwrite m.bytes buf offset inside ∙ ok.whole;
              sized = ok.sized;
              bound = ok.bound;
            })
            tt);
  }

  pub ensure_range-Keeps :
      (ptr extent : ℕ) (m : MemInst)
      → Keeps n (Reads m (λ _. ptr + extent ≤ n)) (ensure_range ptr extent) m
  unfolding ensure_range
  ensure_range-Keeps ptr extent m = record {
    at = λ ok. elim (Bool-cases (check_range ptr extent m)) [
      | inl inside ↦
          rw inside (holds ok (refl, omega (arith, ok.sized, (range_fits ptr extent m inside).1)))
      | inr outside ↦ rw outside (ends ok)
    ];
  }

  pub or_efault-Keeps : (b : Bool) (m : MemInst) → Keeps n (Reads m (λ _. b ≡ true)) (or_efault b) m
  or_efault-Keeps true m = Keeps-pure tt m (refl, refl)
  or_efault-Keeps false m = Keeps-give _ m

  pub load_args-Keeps :
      (ptr size : ℕ) (m : MemInst) → Keeps n (Reads m (λ _. ptr + size ≤ n)) (load_args ptr size) m
  unfolding load_args
  load_args-Keeps ptr size m = record {
    at = λ ok. rw (copy_from_user_lem n m ok ptr size) (elim (Bool-cases (check_range ptr size m)) [
      | inl inside ↦
          rw inside (holds ok (refl, omega (arith, ok.sized, (range_fits ptr size m inside).1)))
      | inr outside ↦ rw outside (ends ok)
    ]);
  }

  pub copy_to_user-Keeps :
      (ptr : ℕ) (src : List ℕ) (m : MemInst) → Keeps n Anything (copy_to_user ptr src) m
  unfolding copy_to_user
  copy_to_user-Keeps ptr src m = record {
    at = λ ok. elim (Bool-cases (check_range ptr (length src) m)) [
      | inl inside ↦ rw inside (
          (Keeps-bind {Q = Anything}
              (write_host-Keeps ptr src m
                (omega (arith, ok.sized, (range_fits ptr (length src) m inside).1)))
              λ _ t _. Keeps-pure false t tt).at
            ok)
      | inr outside ↦ rw outside (holds ok tt)
    ];
  }

  pub check_ret-Keeps : (r : ℕ) (m : MemInst) → Keeps n Anything (check_ret r) m
  unfolding check_ret
  check_ret-Keeps r m =
      Keeps-if (ltb r (2 ^ 31)) (λ _. Keeps-pure r m tt)
        λ _.
          Keeps-if (leb (2 ^ 64 - 2 ^ 31) r) (λ _. Keeps-pure (r % 2 ^ 32) m tt) λ _. Keeps-trap _ m

  pub check_unsigned-Keeps : (r : ℕ) (m : MemInst) → Keeps n Anything (check_unsigned r) m
  unfolding check_unsigned
  check_unsigned-Keeps r m = Keeps-if (ltb r (2 ^ 32)) (λ _. Keeps-pure r m tt) λ _. Keeps-trap _ m
