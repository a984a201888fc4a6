-- ===== src/Compile/Emits/Places.antt =====
-- The places of labels in the state of src/wasmjit/compile.c, one of which is set.
use wasmjit.Prelude.{
  ℕ, zero, suc, ◌+◌, ◌-◌, ◌≤◌, ◌<◌, ◌≡◌, refl, sym, ap, ◌∙◌, ◌⊎◌, inl, inr, List, [], ◌∷◌, ◌++◌,
  Option, none, some, length, get_elem?, All, All-map, ltb, ltb→lt, arith, Bool-cases,
}
use wasmjit.Prelude.Overwrite.{overwrite, overwrite_lem}
use wasmjit.Compile.State.{State, StackElt, BranchPoint, Label}
use wasmjit.Compile.Emits.{BranchIn, PlaceIn, LabelIn, Placed}

-- A place is set: the other places are as they were.
pub place_lem :
    (labels : List (Option ℕ)) (idx place i : ℕ)
    → idx < length labels
    → get_elem? (overwrite labels idx (some place ∷ [])) i ≡ some none
    → (some idx ≡ some i → ⊥) × (get_elem? labels i ≡ some none)
place_lem labels idx place i h e =
    let there = sym (overwrite_lem labels (some place ∷ []) idx (omega (arith, h)) i) ∙ e in
    elim (Bool-cases (ltb i idx)) [
      | inl before ↦ (λ q. differ idx i (inr (ltb→lt i idx before)) q, rw before at there)
      | inr after ↦ elim (Bool-cases (ltb i (idx + 1))) [
        | inl inside ↦
            absurd
              (set_place i idx place (ground (arith, after, inside)) (rw (after, inside) at there))
        | inr beyond ↦
            (λ q. differ idx i (inl (ground (arith, beyond))) q, rw (after, beyond) at there)
      ]
    ]
  where
    differ : (a b : ℕ) → a < b ⊎ b < a → some a ≡ some b → ⊥
    differ a b (inl h) q = let same : a ≡ b = cc in omega (arith, h, same)
    differ a b (inr h) q = let same : a ≡ b = cc in omega (arith, h, same)

    is_set : (place : ℕ) → get_elem? (some place ∷ []) 0 ≡ some none → ⊥
    is_set place q = cc

    set_place : (i idx place : ℕ) → i ≡ idx → get_elem? (some place ∷ []) (i - idx) ≡ some none → ⊥
    set_place i idx place same q = absurd (
        is_set place (
          let none_before : 0 ≡ i - idx = omega (arith, same) in
          ap (get_elem? (some place ∷ [])) none_before ∙ q))

-- More labels, or other places for them.
BranchIn-labels : {n k m : ℕ} → k ≤ m → (b : BranchPoint) → BranchIn n k b → BranchIn n m b
BranchIn-labels h b (p, inl e) = (p, inl e)
BranchIn-labels h b (p, inr q) = (p, inr (omega (arith, h, q)))

LabelIn-labels : {k m : ℕ} → k ≤ m → (l : Option Label) → LabelIn k l → LabelIn m l
LabelIn-labels h none q = tt
LabelIn-labels h (some l) q = omega (arith, h, q)

pub Placed-labels :
    (s : State) (labels : List (Option ℕ))
    → length s.labels ≤ length labels
    → All (PlaceIn (length s.output)) labels
    → Placed s
    → Placed (record s { labels = labels })
Placed-labels s labels h places p = record {
  memrefs_in = p.memrefs_in;
  branches_in = All-map (BranchIn-labels h) s.branches p.branches_in;
  labels_in = places;
  stack_in = All-map (λ (e : StackElt) q. LabelIn-labels h e.label q) s.stack p.stack_in;
}

-- A label that is not set is the new one, or was there.
pub new_unset :
    (labels : List (Option ℕ)) (i : ℕ)
    → get_elem? (labels ++ none ∷ []) i ≡ some none
    → (i ≡ length labels) ⊎ (get_elem? labels i ≡ some none)
new_unset [] zero e = inl refl
new_unset [] (suc i) e = cc
new_unset (l ∷ ls) zero e = inr e
new_unset (l ∷ ls) (suc i) e = elim (new_unset ls i e) [
  | inl new ↦ inl (ap suc new)
  | inr old ↦ inr old
]
