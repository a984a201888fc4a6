-- ===== src/Compile/Emits/Branch.antt =====
-- The postcondition for the control instructions of src/wasmjit/compile.c: branches get a label that
-- the static stack has, or the function's end.
use wasmjit.Prelude.{
  ℕ, zero, suc, ◌+◌, ◌-◌, ◌≤◌, ◌<◌, refl, inl, inr, Bool, true, false, List, [], ◌∷◌, ◌++◌, Option,
  length, All, ap, arith, ◌==◌, if◌then◌else◌, Bool-cases, length-append, All-append,
}
use wasmjit.Ast.Section.{FuncType}
use wasmjit.Compile.State.{
  Flags, State, StackElt, Label, func_exit_cont, Allocator, out, add_branch, ◌>>◌,
}
use wasmjit.Compile.Stack.{is_label}
use wasmjit.Compile.Retpoline.{emit_indirect_call, emit_indirect_jump, emit_trap}
use wasmjit.Compile.Branch.{Target, find_label, emit_move, emit_discard, emit_jump, emit_br_code}
use wasmjit.Compile.Control.{
  emit_br, emit_br_if, emit_cells, emit_branches, emit_br_table, emit_exit, emit_return,
}
use wasmjit.Compile.Emits.{
  Given, LabelIn, EltIn, BranchIn, Placed, Post, holds, Yields, Anything, Emits,
}
use wasmjit.Compile.Emits.Rules.{
  Later-output, Yields-bind, Yields-given, get-Yields, found-Yields, Emits-pure, Emits-then,
}
use wasmjit.Compile.Emits.Output.{
  Placed-output, out-Yields, out-Emits, add_branch-Yields, output_rules,
}
use wasmjit.Compile.Emits.Stack.{stack_rules}

abbrev TargetIn : ℕ → Option Target → Type 0
TargetIn k = Given (λ t. LabelIn k t.data_of)

if-TargetIn :
    (b : Bool) (k : ℕ) (x y : Option Target)
    → TargetIn k x
    → TargetIn k y
    → TargetIn k (if b then x else y)
if-TargetIn true k x y p q = p
if-TargetIn false k x y p q = q

-- A label that is found stands on the stack.
find_label-TargetIn :
    (k above : ℕ) (es : List StackElt) (labelidx : ℕ)
    → All (EltIn k) es
    → TargetIn k (find_label above es labelidx)
unfolding find_label
find_label-TargetIn k above [] labelidx h = tt
find_label-TargetIn k above (e ∷ []) labelidx h = h.0
find_label-TargetIn k above (e ∷ f ∷ es) labelidx h =
    if-TargetIn (is_label e) k _ _
      (if-TargetIn (labelidx == 0) k _ _ h.0
        (find_label-TargetIn k (above + 1) (f ∷ es) (labelidx - 1) h.1))
      (find_label-TargetIn k (above + 1) (f ∷ es) labelidx h.1)

module _ (alloc : Allocator) where
  emit_move-Emits : (arity stack_shift : ℕ) → Emits (emit_move alloc arity stack_shift)
  unfolding emit_move
  emit_move-Emits arity stack_shift = search output_rules depth 20

  emit_jump-Yields :
      (continuation_idx : ℕ) (s : State)
      → continuation_idx < length s.labels
      → Yields Anything (emit_jump alloc continuation_idx) s
  unfolding emit_jump
  emit_jump-Yields continuation_idx s h = Yields-bind (get-Yields s) λ a t l same.
      Yields-bind (out-Yields alloc (0xe9 ∷ 0x90 ∷ 0x90 ∷ 0x90 ∷ 0x90 ∷ []) t) λ _ u l' long.
        add_branch-Yields alloc (length a.output) continuation_idx u
          (omega (arith, long, ap (λ (x : State). length x.output) same))
          (inr (omega (arith, h, l.labels_grow, l'.labels_grow)))

  -- The tests and the move before the jump.
  emit_discard-Emits :
      (target : Target) (label : Label) (labelidx : ℕ)
      → Emits (emit_discard alloc labelidx target label)
  unfolding emit_discard
  emit_discard-Emits target label labelidx = search (output_rules, emit_move-Emits) depth 9

  pub emit_br_code-Emits : (labelidx : ℕ) → Emits (emit_br_code alloc labelidx)
  unfolding emit_br_code
  emit_br_code-Emits labelidx s = Yields-bind (get-Yields s) λ a t _ same. Yields-given λ p.
      Yields-bind
        (found-Yields (λ (x : Target). LabelIn (length t.labels) x.data_of)
          (find_label 0 a.stack labelidx) t
          (rw same (find_label-TargetIn (length t.labels) 0 t.stack labelidx p.stack_in)))
        λ target t₁ l₁ h₁.
          Yields-bind
            (found-Yields (λ (x : Label). x.continuation_idx < length t.labels) target.data_of t₁
              h₁)
            λ label t₂ l₂ h₂. Yields-bind (emit_discard-Emits target label labelidx t₂) λ _ t₃ l₃ _.
              emit_jump-Yields label.continuation_idx t₃
                (omega (arith, h₂, l₁.labels_grow, l₂.labels_grow, l₃.labels_grow))

  pub emit_br-Emits : (labelidx : ℕ) → Emits (emit_br alloc labelidx)
  unfolding emit_br
  emit_br-Emits = emit_br_code-Emits

  pub emit_br_if-Emits : (labelidx : ℕ) → Emits (emit_br_if alloc labelidx)
  unfolding emit_br_if
  emit_br_if-Emits labelidx = search (stack_rules, emit_br_code-Emits) depth 20

  emit_cells-Emits : (n : ℕ) → Emits (emit_cells alloc n)
  unfolding emit_cells
  emit_cells-Emits zero = Emits-pure tt
  emit_cells-Emits (suc n) = Emits-then (out-Emits alloc _) (emit_cells-Emits n)

  emit_branches-Emits :
      (table_offset i : ℕ) (labelidxs : List ℕ)
      → Emits (emit_branches alloc table_offset i labelidxs)
  unfolding emit_branches
  emit_branches-Emits table_offset i [] = Emits-pure tt
  emit_branches-Emits table_offset i (labelidx ∷ labelidxs) =
      let rest = emit_branches-Emits table_offset (i + 1) labelidxs in
      search (output_rules, emit_br_code-Emits) depth 9

  emit_indirect_jump-Emits : (flags : Flags) → Emits (emit_indirect_jump alloc flags)
  unfolding emit_indirect_jump
  emit_indirect_jump-Emits flags = search output_rules

  pub emit_br_table-Emits :
      (flags : Flags) (labelidxs : List ℕ) (labelidx : ℕ)
      → Emits (emit_br_table alloc flags labelidxs labelidx)
  unfolding emit_br_table
  emit_br_table-Emits flags labelidxs labelidx =
      search
        (
          stack_rules, emit_br_code-Emits, emit_cells-Emits, emit_branches-Emits,
          emit_indirect_jump-Emits,
        )
        depth 30

  pub emit_indirect_call-Emits : (flags : Flags) → Emits (emit_indirect_call alloc flags)
  unfolding emit_indirect_call
  emit_indirect_call-Emits flags = search output_rules depth 9

  pub emit_trap-Emits : (flags : Flags) (reason : ℕ) → Emits (emit_trap alloc flags reason)
  unfolding emit_trap
  emit_trap-Emits flags reason = search (output_rules, emit_indirect_call-Emits) depth 12

-- A branch to the function's end, whose code follows.
module _ (alloc : Allocator) (bytes : List ℕ) (s : State) (long : 5 ≤ length bytes) where
  abbrev branched : State
  branched = record s {
    branches =
        s.branches
        ++ record { branch_offset = length s.output; continuation_idx = func_exit_cont } ∷ [];
  }

  branched-Placed : Placed s → Placed (record branched { output = s.output ++ bytes })
  branched-Placed p =
      let q = Placed-output s (s.output ++ bytes) (omega (arith, length-append s.output bytes)) p in
      record {
        memrefs_in = q.memrefs_in;
        branches_in =
            All-append (BranchIn (length (s.output ++ bytes)) (length s.labels)) s.branches _
              q.branches_in ((omega (arith, long, length-append s.output bytes), inl refl), tt);
        labels_in = q.labels_in;
        stack_in = q.stack_in;
      }

  branch_out-Yields :
      Yields Anything (add_branch alloc (length s.output) func_exit_cont >> out alloc bytes) s
  unfolding add_branch out
  branch_out-Yields = elim (Bool-cases (alloc s (length s.branches + 1) 16)) [
    | inl room ↦ elim (Bool-cases (alloc branched (length s.output + length bytes) 1)) [
      | inl more ↦ record {
        at = λ p.
            rw (room, more)
              (holds (branched-Placed p)
                (Later-output _ _ (omega (arith, length-append s.output bytes)) refl) tt);
      }
      | inr full ↦ record { at = λ p. rw (room, full) Post.fails }
    ]
    | inr full ↦ record { at = λ p. rw full Post.fails }
  ]

emit_exit-Emits : (alloc : Allocator) → Emits (emit_exit alloc)
unfolding emit_exit
emit_exit-Emits alloc s = record {
  at = (branch_out-Yields alloc (0xe9 ∷ 0x90 ∷ 0x90 ∷ 0x90 ∷ 0x90 ∷ []) s (omega arith)).at;
}

pub emit_return-Emits :
    (alloc : Allocator) (type : FuncType) (n_frame_locals : ℕ)
    → Emits (emit_return alloc type n_frame_locals)
unfolding emit_return
emit_return-Emits alloc type n_frame_locals = search (output_rules, emit_exit-Emits) depth 20
