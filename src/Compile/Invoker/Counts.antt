-- ===== src/Compile/Invoker/Counts.antt =====
-- src/wasmjit/compile.c: which arguments go to registers, for an invoker and for a call.
use wasmjit.Prelude.{
  ℕ, ◌+◌, ◌≡◌, refl, ap, ◌∙◌, List, [], ◌∷◌, Bool, true, false, ◌&&◌, ◌||◌, ltb, ◌==◌,
  if◌then◌else◌,
}
use wasmjit.Ast.Valtype
use wasmjit.Compile.Call.{is_int, Passed, pass, pass_all}
use wasmjit.Compile.Invoker.{invoker_pass, invoker_pass_all}

-- One test of either kind against a test of each.
either_test {ℓ} :
    {A : Type ℓ} (b c d : Bool) (x y : A)
    → (if (b || c) && d then x else y) ≡ (if b && d then x else if c && d then x else y)
either_test true c true x y = refl
either_test true true false x y = refl
either_test true false false x y = refl
either_test false c d x y = refl

invoker_pass-pass : (t : ℕ) (p : Passed) → invoker_pass t p ≡ pass t p
invoker_pass-pass t p =
    ap (λ q. if is_int t && ltb p.n_movs 6 then record p { n_movs = p.n_movs + 1 } else q)
      (either_test (t == Valtype.f32) (t == Valtype.f64) (ltb p.n_xmm_movs 8)
        (record p { n_xmm_movs = p.n_xmm_movs + 1 }) (record p { n_stack = p.n_stack + 1 }))

-- An invoker counts the arguments for each kind of register and for the stack as the code of a call
-- does, for any argument types and from any counts.
pub invoker_pass_all-pass_all : (ts : List ℕ) (p : Passed) → invoker_pass_all ts p ≡ pass_all ts p
invoker_pass_all-pass_all [] p = refl
invoker_pass_all-pass_all (t ∷ ts) p =
    ap (invoker_pass_all ts) (invoker_pass-pass t p) ∙ invoker_pass_all-pass_all ts (pass t p)
