-- ===== src/Compile/Emits/Sequence.antt =====
-- The postcondition for a round of wasmjit_compile_instructions in src/wasmjit/compile.c.
use wasmjit.Prelude.{
  ℕ, zero, suc, ◌+◌, ◌≤◌, ◌<◌, ◌≡◌, sym, ap, ◌∙◌, inl, inr, List, [], ◌∷◌, ◌++◌, none, some, length,
  get_elem?, take, All, All-append, All-take, All-drop, length-append, ltb, ltb→lt, arith,
}
use wasmjit.Prelude.Overwrite.{overwrite, length-overwrite}
use wasmjit.Compile.State.{State, StackElt, done, Allocator}
use wasmjit.Compile.Sequence.{Md, md_size, pop_md, enter, arity_of, inc_labels, retype, close}
use wasmjit.Compile.Emits.{PlaceIn, EltIn, Later, ends, Leads}
use wasmjit.Compile.Emits.Rules.{Later-trans, get-Yields}
use wasmjit.Compile.Emits.Output.{set_size-Emits}
use wasmjit.Compile.Emits.Stack.{stack_truncate-Emits, set_stack-Yields, set_size-Yields}
use wasmjit.Compile.Emits.Labels.{Leads-after, Leads-asserted, Leads-map, Leads-pure}
use wasmjit.Compile.Emits.Places.{place_lem, Placed-labels}
use wasmjit.Compile.Emits.Frames.{rounds_left, label_of, Framed, Round, Framed-Later, footers_later}

-- The blocks that are closed leave the labels of the ones that are open.
abbrev pub Closed : State → ℕ → Unit {0} → State → Type 0
Closed s label_idx _ t =
    length s.output ≤ length t.output
    × ((i : ℕ)
        → get_elem? t.labels i ≡ some none
        → (some label_idx ≡ some i → ⊥) × (get_elem? s.labels i ≡ some none))

module _ (alloc : Allocator) where
  pub pop_md-Leads :
      (max w : ℕ) (frames : List Md) (s : State)
      → Framed s frames
      → rounds_left frames < w
      → Leads (Round w) (pop_md alloc max frames) s
  unfolding pop_md
  pop_md-Leads max w [] s f h = Leads-pure _ s (record { framed = f; fewer = h })
  pop_md-Leads max w (md ∷ []) s f h = Leads-pure _ s (record { framed = f; fewer = h })
  pop_md-Leads max w (md ∷ next ∷ rest) s f h =
      Leads-after (set_size-Emits alloc _ md_size s) λ _ t l _.
        Leads-pure _ t (record { framed = Framed-Later (md ∷ next ∷ rest) l f; fewer = h })

  -- The block on top of the stack is closed, and its frame is taken off.
  pub pop_ended-Leads :
      (max w : ℕ) (md : Md) (label_idx : ℕ) (rest : List Md) (s t : State)
      → Framed s (md ∷ rest)
      → label_of md.footer ≡ some label_idx
      → Closed s label_idx tt t
      → rounds_left rest < w
      → Leads (Round w) (pop_md alloc max rest) t
  pop_ended-Leads max w md label_idx rest s t f opened closed h =
      pop_md-Leads max w rest t
        (record {
          footers_in = footers_later _ _ rest closed.0 f.footers_in.1;
          open_labels = λ i e. elim (f.open_labels i (closed.1 i e).1) [
            | inl here ↦ absurd ((closed.1 i e).0 (sym opened ∙ here))
            | inr there ↦ there
          ];
        })
        h

  retype-All :
      (k arity type : ℕ) (stack : List StackElt)
      → All (EltIn k) stack
      → All (EltIn k) (retype arity type stack)
  retype-All k zero type stack h = h
  retype-All k (suc arity) type [] h = h
  retype-All k (suc arity) type (e ∷ es) h = h

  -- The label's place is set at the end.
  set_place-Leads :
      (label_idx place : ℕ) (s : State)
      → label_idx < length s.labels
      → place ≤ length s.output
      → Leads
          (Closed s label_idx)
          (λ t. done tt (record t { labels = overwrite t.labels label_idx (some place ∷ []) }))
          s
  set_place-Leads label_idx place s h g = record {
    at = λ p.
        let same = length-overwrite s.labels (some place ∷ []) label_idx (omega arith) in
        ends
          (Placed-labels s _ (omega (arith, same))
            (All-append (PlaceIn (length s.output)) (take label_idx s.labels) _
              (All-take (PlaceIn (length s.output)) label_idx s.labels p.labels_in)
              (g, All-drop (PlaceIn (length s.output)) (label_idx + 1) s.labels p.labels_in))
            p)
          (omega arith, λ i e. place_lem s.labels label_idx place i h e);
  }

  pub Closed-Later :
      {s t : State} (u : State) (label_idx : ℕ)
      → Later s t
      → Closed t label_idx tt u
      → Closed s label_idx tt u
  Closed-Later u label_idx l (h, k) =
      (omega (arith, h, l.output_grows), λ i e. ((k i e).0, l.unset_before i (k i e).1))

  new_label-Leads :
      (s t : State)
      → t ≡ s
      → Leads
          (λ (_ : Unit {0}) t.
            (length s.output ≤ length t.output) × (t.labels ≡ s.labels ++ none ∷ []))
          (λ t. done tt (record t { labels = t.labels ++ none ∷ [] }))
          t
  new_label-Leads s t same = record {
    at = λ p.
        ends
          (Placed-labels t (t.labels ++ none ∷ [])
            (omega (arith, length-append t.labels (none ∷ [])))
            (All-append (PlaceIn (length t.output)) t.labels (none ∷ []) p.labels_in (tt, tt)) p)
          ((
            omega (arith, ap (λ (x : State). length x.output) same),
            ap (λ (x : State). x.labels ++ none ∷ []) same,
          ));
  }

  pub close-Leads :
      (blocktype label_idx stack_idx place : ℕ) (s : State)
      → place ≤ length s.output
      → Leads (Closed s label_idx) (close alloc blocktype label_idx stack_idx place) s
  unfolding close
  close-Leads blocktype label_idx stack_idx place s h =
      Leads-after (stack_truncate-Emits alloc _ s) λ _ t l _.
        Leads-after (get-Yields t) λ a t₁ l₁ same.
          Leads-after
            (set_stack-Yields (retype (arity_of blocktype) blocktype a.stack) t₁
              (λ p. retype-All _ _ _ a.stack (rw same p.stack_in)))
            λ _ t₂ l₂ _. Leads-asserted (ltb label_idx (length a.labels)) λ inside.
              Leads-map
                (λ _ u closed. Closed-Later u label_idx (Later-trans (Later-trans l l₁) l₂) closed)
                (set_place-Leads label_idx place t₂
                  (omega (
                    arith,
                    ltb→lt _ _ inside,
                    ap (λ (x : State). length x.labels) same,
                    l₂.labels_grow,
                  ))
                  (omega (arith, h, l.output_grows, l₁.output_grows, l₂.output_grows)))

  -- A label that is new, and its element of the static stack.
  pub inc_labels-Leads :
      (s : State)
      → Leads
          (λ _ t. (length s.output ≤ length t.output) × (t.labels ≡ s.labels ++ none ∷ []))
          (inc_labels alloc)
          s
  unfolding inc_labels
  inc_labels-Leads s = record {
    at =
        (Leads-after (set_size-Yields alloc (length s.labels + 1) 8 s)
          λ _ t l same. new_label-Leads s t same).at;
  }

  pub enter-Leads :
      (max w : ℕ) (inner outer : Md) (rest : List Md) (s : State)
      → Framed s (inner ∷ outer ∷ rest)
      → rounds_left (inner ∷ outer ∷ rest) < w
      → Leads (Round w) (enter alloc max inner outer rest) s
  enter-Leads max w inner outer rest s f h =
      Leads-after (set_size-Emits alloc _ md_size s) λ _ t l _.
        pop_md-Leads max w (inner ∷ outer ∷ rest) t (Framed-Later (inner ∷ outer ∷ rest) l f) h
