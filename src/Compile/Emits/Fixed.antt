-- ===== src/Compile/Emits/Fixed.antt =====
-- The branches of wasmjit_compile_function in src/wasmjit/compile.c once all labels have places.
use wasmjit.Prelude.{
  ℕ, ◌+◌, ◌≤◌, ◌<◌, ◌≡◌, refl, sym, ap, ◌∙◌, inl, inr, ◌==◌, ==_iff, true, false, Bool-cases, List,
  [], ◌∷◌, Option, none, some, ◌⊎◌, length, get_elem?, All, get_elem?-none, le→leb, arith,
}
use wasmjit.Prelude.Overwrite.{length-overwrite}
use wasmjit.Compile.State.{
  State, BranchPoint, func_exit_cont, Result, done, Emit, bind, found, ◌>>=◌, le_bytes,
}
use wasmjit.Compile.Control.{patch}
use wasmjit.Compile.Function.{continuation_offset, fix_branches}
use wasmjit.Compile.Emits.{BranchIn}

-- A step that succeeds, with a code as long as before and the same labels.
pub data Fixes {A : Type 0} (t : State) : Result A → Type 0 where
  fixes :
      {a : A} {u : State}
      → length u.output ≡ length t.output
      → u.labels ≡ t.labels
      → Fixes t (done a u)

bind-Fixes :
    {A B : Type 0} {t : State} {r : Result A} {f : A → Emit B}
    → Fixes t r
    → ((a : A) (u : State)
        → length u.output ≡ length t.output
        → u.labels ≡ t.labels
        → Fixes u (f a u))
    → Fixes t (bind r f)
bind-Fixes (fixes {a = a} {u = u} p q) k = on p q (k a u p q)
  where
    on :
        {C : Type 0} {s v : State} {r : Result C}
        → length v.output ≡ length s.output
        → v.labels ≡ s.labels
        → Fixes v r
        → Fixes s r
    on p q (fixes p' q') = fixes (p' ∙ p) (q' ∙ q)

place-Fixes :
    (x : Option (Option ℕ)) (t : State)
    → (x ≡ none → ⊥)
    → (x ≡ some none → ⊥)
    → Fixes t ((found x >>= found) t)
place-Fixes none t h k = absurd (h refl)
place-Fixes (some none) t h k = absurd (k refl)
place-Fixes (some (some p)) t h k = fixes refl refl

continuation_offset-Fixes :
    (c : ℕ) (t : State)
    → (c ≡ func_exit_cont) ⊎ (c < length t.labels)
    → ((i : ℕ) → get_elem? t.labels i ≡ some none → ⊥)
    → Fixes t (continuation_offset c t)
continuation_offset-Fixes c t target set = elim (Bool-cases (c == func_exit_cont)) [
  | inl exit ↦ rw exit (fixes refl refl)
  | inr other ↦ rw other (elim target [
    | inl exit ↦ absurd (differ (sym ((==_iff c func_exit_cont).1 exit) ∙ other))
    | inr inside ↦ place-Fixes (get_elem? t.labels c) t (get_elem?-none t.labels c inside) (set c)
  ])
]
  where
    differ : true ≡ false → ⊥
    differ e = cc

patch-Fixes :
    (offset : ℕ) (bytes : List ℕ) (t : State)
    → offset + length bytes ≤ length t.output
    → Fixes t (patch offset bytes t)
unfolding patch
patch-Fixes offset bytes t h =
    rw (le→leb (offset + length bytes) (length t.output) h)
      (fixes (length-overwrite t.output bytes offset h) refl)

-- Every branch of a state whose labels all have places gets its operand.
pub fix_branches-Fixes :
    (bs : List BranchPoint) (t : State)
    → All (BranchIn (length t.output) (length t.labels)) bs
    → ((i : ℕ) → get_elem? t.labels i ≡ some none → ⊥)
    → Fixes t (fix_branches bs t)
unfolding fix_branches le_bytes
fix_branches-Fixes [] t h set = fixes refl refl
fix_branches-Fixes (b ∷ bs) t h set =
    bind-Fixes (continuation_offset-Fixes b.continuation_idx t h.0.1 set) λ place u p q.
      bind-Fixes (patch-Fixes b.branch_offset _ u (omega (arith, h.0.0, p))) λ _ v p' q'.
        fix_branches-Fixes bs v (rw (p' ∙ p, ap length (q' ∙ q)) h.1)
          (λ i e. set i (sym (ap (λ x. get_elem? x i) (q' ∙ q)) ∙ e))
