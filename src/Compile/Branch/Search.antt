-- ===== src/Compile/Branch/Search.antt =====
-- The search of emit_br_code in src/wasmjit/compile.c for a label, past the values above it.
use wasmjit.Prelude.{
  ℕ, ◌+◌, ◌≡◌, ◌⊎◌, refl, ap, ◌∙◌, inl, inr, true, false, List, [], ◌∷◌, Option, some, length, All,
  arith,
}
use wasmjit.Ast.Valtype
use wasmjit.Compile.State.{StackElt, Label, stack_label, State, undefined, Allocator}
use wasmjit.Compile.Stack.{value, is_label}
use wasmjit.Compile.Branch.{Target, find_label, emit_br_code}

abbrev pub values : List ℕ → List StackElt → List StackElt
values [] st = st
values (t ∷ ts) st = value t ∷ values ts st

abbrev pub labelled : Label → StackElt
labelled l = record { type = stack_label; label = some l }

-- An f32 with whatever its element of the stack has for a label's data.
abbrev pub f32_with : Option Label → StackElt
f32_with d = record { type = Valtype.f32; label = d }

-- The types of values other than f32.
abbrev pub IsOther : ℕ → Type 0
IsOther t = (t ≡ Valtype.i32) ⊎ ((t ≡ Valtype.i64) ⊎ (t ≡ Valtype.f64))

value_is_no_label : (t : ℕ) → IsOther t → is_label (value t) ≡ false
value_is_no_label t (inl e) = rw e refl
value_is_no_label t (inr (inl e)) = rw e refl
value_is_no_label t (inr (inr e)) = rw e refl

module _ (e : StackElt) (st : List StackElt) (h : is_label e ≡ true) where
  abbrev Target_at : ℕ → Option Target
  Target_at n = some (record { above = n; data_of = e.label })

  find_label-values :
      (ts : List ℕ) (above : ℕ)
      → All IsOther ts
      → find_label above (values ts (e ∷ st)) 0 ≡ Target_at (above + length ts)
  unfolding find_label
  find_label-values [] above others = here st
    where
      here : (st : List StackElt) → find_label above (e ∷ st) 0 ≡ Target_at (above + 0)
      here [] = ap Target_at (omega arith)
      here (f ∷ st) = rw h (ap Target_at (omega arith))
  find_label-values (t ∷ []) above others =
      rw (value_is_no_label t others.0)
        (find_label-values [] (above + 1) tt ∙ ap Target_at (omega arith))
  find_label-values (t ∷ u ∷ ts) above others =
      rw (value_is_no_label t others.0)
        (find_label-values (u ∷ ts) (above + 1) others.1 ∙ ap Target_at (omega arith))

  find_label-top :
      (ts : List ℕ) → All IsOther ts → find_label 0 (values ts (e ∷ st)) 0 ≡ Target_at (length ts)
  find_label-top ts others = find_label-values ts 0 others ∙ ap Target_at (omega arith)

-- The search for the innermost label passes over any number of i32, i64 and f64 and gives the data of
-- the label under them. An f32 above the label, under any number of such values, is itself taken for
-- the label: whatever its element of the stack has for a label's data is given. Where it was pushed as
-- a value, so that there are no such data, the branch reads what was never written.
pub emit_br_code-f32 :
    (alloc : Allocator) (s : State) (ts : List ℕ) (l : Label) (st : List StackElt)
    (d : Option Label)
    → All IsOther ts
    → (find_label 0 (values ts (labelled l ∷ st)) 0
        ≡ some (record { above = length ts; data_of = some l }))
      × (find_label 0 (values ts (f32_with d ∷ labelled l ∷ st)) 0
          ≡ some (record { above = length ts; data_of = d }))
      × (emit_br_code alloc 0 (record s { stack = values ts (value Valtype.f32 ∷ labelled l ∷ st) })
          ≡ undefined)
unfolding emit_br_code
emit_br_code-f32 alloc s ts l st d others = (
  find_label-top (labelled l) st refl ts others,
  find_label-top (f32_with d) (labelled l ∷ st) refl ts others,
  rw (find_label-top (value Valtype.f32) (labelled l ∷ st) refl ts others) refl,
)
