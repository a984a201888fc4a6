-- ===== src/Compile/Emits/Output.antt =====
-- The postcondition for the steps of src/wasmjit/compile.c that write code, references and branches.
use wasmjit.Prelude.{
  ℕ, ◌+◌, ◌-◌, ◌≤◌, ◌<◌, ◌≡◌, refl, ◌⊎◌, inl, inr, List, [], ◌∷◌, ◌++◌, Option, none, some, length,
  length-append, All-map, All-append, leb, leb→le, arith, ap, Bool-cases,
}
use wasmjit.Prelude.Overwrite.{overwrite, length-overwrite}
use wasmjit.Compile.State.{
  MemrefType, BranchPoint, State, func_exit_cont, Allocator, set_size, done, out, outs, out_uint32,
  le_bytes, out_memref, eight_nulls, add_memref, add_branch,
}
use wasmjit.Compile.Control.{patch}
use wasmjit.Compile.Emits.{RefIn, BranchIn, PlaceIn, Placed, Post, holds, Yields, Anything, Emits}
use wasmjit.Compile.Emits.Rules.{
  Later-output, Yields-map, ensure-Yields, Yields-bind, Emits-then, Emits-pure, Emits-bind,
  Emits-ensure, Emits-assert, Emits-get, emits_rules,
}

PlaceIn-mono : {n m : ℕ} → n ≤ m → (x : Option ℕ) → PlaceIn n x → PlaceIn m x
PlaceIn-mono h none q = tt
PlaceIn-mono h (some p) q = omega arith

BranchIn-mono : {n m k : ℕ} → n ≤ m → (b : BranchPoint) → BranchIn n k b → BranchIn m k b
BranchIn-mono h b q = (omega (arith, q.0), q.1)

-- What points into the output does so in one that is longer.
pub Placed-output :
    (s : State) (output : List ℕ)
    → length s.output ≤ length output
    → Placed s
    → Placed (record s { output = output })
Placed-output s output h p = record {
  memrefs_in = All-map (λ r q. omega (arith, h, q)) s.memrefs p.memrefs_in;
  branches_in = All-map (BranchIn-mono h) s.branches p.branches_in;
  labels_in = All-map (PlaceIn-mono h) s.labels p.labels_in;
  stack_in = p.stack_in;
}

-- A step that only writes at the output's end.
module _ (bytes : List ℕ) (s : State) where
  longer : length s.output + length bytes ≡ length (s.output ++ bytes)
  longer = omega (arith, length-append s.output bytes)

  append-Yields :
      Yields
        (λ (_ : Unit {0}) t. length s.output + length bytes ≡ length t.output)
        (λ t. done tt (record t { output = t.output ++ bytes }))
        s
  append-Yields = record {
    at = λ p.
        holds (Placed-output s (s.output ++ bytes) (omega (arith, longer)) p)
          (Later-output _ _ (omega (arith, longer)) refl) longer;
  }

abbrev Longer : State → ℕ → Unit {0} → State → Type 0
Longer s n _ t = length s.output + n ≡ length t.output

module _ (alloc : Allocator) where
  pub set_size-Emits : (n size : ℕ) → Emits (set_size alloc n size)
  set_size-Emits n size s = record { at = (Emits-ensure (alloc s n size) s).at }

  pub out-Yields :
      (bytes : List ℕ) (s : State) → Yields (Longer s (length bytes)) (out alloc bytes) s
  unfolding out
  out-Yields bytes s = record {
    at =
        (Yields-bind {Q = λ _ t. t ≡ s} (ensure-Yields _ s) λ _ t _ same.
          Yields-map (λ _ u h. omega (arith, h, ap (λ (x : State). length x.output) same))
            (append-Yields bytes t)).at;
  }

  pub out-Emits : (bytes : List ℕ) → Emits (out alloc bytes)
  out-Emits bytes s = Yields-map (λ _ _ _. tt) (out-Yields bytes s)

  pub outs-Emits : (codes : List (List ℕ)) → Emits (outs alloc codes)
  unfolding outs
  outs-Emits [] = Emits-pure tt
  outs-Emits (code ∷ codes) = Emits-then (out-Emits code) (outs-Emits codes)

  pub out_uint32-Emits : (v : ℕ) → Emits (out_uint32 alloc v)
  unfolding out_uint32
  out_uint32-Emits v = out-Emits (le_bytes 4 v)

  -- A reference to the last eight bytes, where there are so many.
  add_memref-Yields :
      (type : MemrefType) (idx : Option ℕ) (s : State)
      → 8 ≤ length s.output
      → Yields Anything (add_memref alloc type idx) s
  unfolding add_memref
  add_memref-Yields type idx s h = record {
    at =
        (Yields-bind {Q = λ _ t. t ≡ s} (ensure-Yields _ s) λ _ t _ same.
          let long : 8 ≤ length t.output =
            omega (arith, h, ap (λ (x : State). length x.output) same) in
          record {
            at = λ p.
                holds
                  (record {
                    memrefs_in =
                        All-append (RefIn (length t.output)) t.memrefs
                          (record { type = type; code_offset = length t.output - 8; idx = idx }
                            ∷ [])
                          p.memrefs_in (omega (arith, long), tt);
                    branches_in = p.branches_in;
                    labels_in = p.labels_in;
                    stack_in = p.stack_in;
                  })
                  (Later-output _ _ (omega arith) refl) tt;
          }).at;
  }

  pub out_memref-Emits : (type : MemrefType) (idx : Option ℕ) → Emits (out_memref alloc type idx)
  unfolding out_memref
  out_memref-Emits type idx s =
      Yields-bind (out-Yields eight_nulls s)
        λ _ t _ h. add_memref-Yields type idx t (omega (arith, h))

  -- A branch that lies in the output already.
  pub add_branch-Yields :
      (offset continuation_idx : ℕ) (s : State)
      → offset + 5 ≤ length s.output
      → continuation_idx ≡ func_exit_cont ⊎ continuation_idx < length s.labels
      → Yields Anything (add_branch alloc offset continuation_idx) s
  unfolding add_branch
  add_branch-Yields offset continuation_idx s h target = record {
    at =
        (Yields-bind {Q = λ _ t. t ≡ s} (ensure-Yields _ s) λ _ t _ same.
          let inside : BranchIn (length t.output) (length t.labels)
              (record { branch_offset = offset; continuation_idx = continuation_idx }) =
            rw same (h, target) in
          record {
            at = λ p.
                holds
                  (record {
                    memrefs_in = p.memrefs_in;
                    branches_in =
                        All-append (BranchIn (length t.output) (length t.labels)) t.branches
                          (record { branch_offset = offset; continuation_idx = continuation_idx }
                            ∷ [])
                          p.branches_in (inside, tt);
                    labels_in = p.labels_in;
                    stack_in = p.stack_in;
                  })
                  (Later-output _ _ (omega arith) refl) tt;
          }).at;
  }

-- What is written over the output leaves its length.
pub patch-Emits : (offset : ℕ) (bytes : List ℕ) → Emits (patch offset bytes)
unfolding patch
patch-Emits offset bytes s = elim (Bool-cases (leb (offset + length bytes) (length s.output))) [
  | inl inside ↦
      let same = length-overwrite s.output bytes offset (leb→le _ _ inside) in
      record {
        at = λ p. rw inside (
            holds (Placed-output s (overwrite s.output offset bytes) (omega (arith, same)) p)
              (Later-output _ _ (omega (arith, same)) refl) tt);
      }
  | inr outside ↦ record { at = λ p. rw outside Post.aborts }
]

pub ruleset output_rules = (
  emits_rules, set_size-Emits, out-Emits, outs-Emits, out_uint32-Emits, out_memref-Emits,
  patch-Emits,
)
