-- ===== src/Runtime/Typecheck/Exact.antt =====
-- src/wasmjit/runtime.c: the type check of functions, in terms of equality.
use wasmjit.Prelude.{ℕ, ◌≡◌, refl, ◌↔◌, Bool, true, false, ◌&&◌, List, [], ◌∷◌, length, ◌==◌, arith}
use wasmjit.Ast.Section.{FuncType}
use wasmjit.Ast.Valtype
use wasmjit.Runtime.Store.{FuncInst}
use wasmjit.Runtime.Typecheck.{all_equal, typelist_equal, output_types, typecheck_func}

pub both : (b c : Bool) → (b && c) ≡ true → (b ≡ true) × (c ≡ true)
both true true e = (refl, refl)
both true false e = cc
both false c e = cc

==_refl : (n : ℕ) → (n == n) ≡ true
==_refl n = ground arith

all_equal_refl : (xs : List ℕ) → all_equal xs xs ≡ true
unfolding all_equal
all_equal_refl [] = refl
all_equal_refl (x ∷ xs) = rw (==_refl x, all_equal_refl xs)

all_equal→eq : (xs ys : List ℕ) → length xs ≡ length ys → all_equal xs ys ≡ true → xs ≡ ys
unfolding all_equal
all_equal→eq [] [] h e = refl
all_equal→eq [] (y ∷ ys) h e = absurd (omega arith)
all_equal→eq (x ∷ xs) [] h e = absurd (omega arith)
all_equal→eq (x ∷ xs) (y ∷ ys) h e =
    let p = both (x == y) (all_equal xs ys) e in
    let x_eq : x ≡ y = ground (arith, p.0) in let xs_eq = all_equal→eq xs ys (omega arith) p.1 in cc

typelist_equal→eq : (xs ys : List ℕ) → typelist_equal xs ys ≡ true → xs ≡ ys
unfolding typelist_equal
typelist_equal→eq xs ys e =
    let p = both (length xs == length ys) (all_equal xs ys) e in
    all_equal→eq xs ys (ground (arith, p.0)) p.1

typelist_equal_refl : (xs : List ℕ) → typelist_equal xs xs ≡ true
unfolding typelist_equal
typelist_equal_refl xs = rw (==_refl (length xs), all_equal_refl xs)

-- The output types determine the output type.
output_types-inj :
    (s t : FuncType) → output_types s ≡ output_types t → s.output_type ≡ t.output_type
output_types-inj s t = go (s.output_type == Valtype.null) (t.output_type == Valtype.null) refl refl
  where
    go :
        (b c : Bool)
        → (s.output_type == Valtype.null) ≡ b
        → (t.output_type == Valtype.null) ≡ c
        → elim b as (λ _. List ℕ) [ true ↦ [] | false ↦ s.output_type ∷ [] ]
          ≡ elim c as (λ _. List ℕ) [ true ↦ [] | false ↦ t.output_type ∷ [] ]
        → s.output_type ≡ t.output_type
    go true true p q e = ground (arith, p, q)
    go true false p q e = cc
    go false true p q e = cc
    go false false p q e = cc

-- `typecheck_func` accepts a function exactly where its type is the expected one.
pub typecheck_func_iff :
    (type : FuncType) (funcinst : FuncInst)
    → (typecheck_func type funcinst ≡ true) ↔ (type ≡ funcinst.type)
unfolding typecheck_func
typecheck_func_iff type funcinst = (
  λ e.
      let p = both _ _ e in
      let inputs = typelist_equal→eq type.input_types funcinst.type.input_types p.0 in
      let output =
        output_types-inj type funcinst.type
          (typelist_equal→eq (output_types type) (output_types funcinst.type) p.1) in
      λ i. record { input_types = inputs i; output_type = output i },
  λ e. rw e (
      rw (
        typelist_equal_refl funcinst.type.input_types,
        typelist_equal_refl (output_types funcinst.type),
      )),
)
