-- ===== src/Compile/Emits/Blocks.antt =====
-- The rounds of wasmjit_compile_instructions in src/wasmjit/compile.c: each leaves fewer to do, and a
-- stack whose open blocks have all the labels that are not placed.
use wasmjit.Prelude.{
  ℕ, ◌+◌, ◌≤◌, ◌<◌, ◌≡◌, refl, sym, ap, ◌∙◌, inl, inr, List, [], ◌∷◌, ◌++◌, none, some, length,
  get_elem?, length-append, arith,
}
use wasmjit.Ast.Valtype
use wasmjit.Ast.Instruction.{Instr, Instrs, block, loop, if_}
use wasmjit.Compile.State.{State, pure, Allocator, ◌>>=◌}
use wasmjit.Compile.Control.{Env}
use wasmjit.Compile.Instruction.{compile_instruction}
use wasmjit.Compile.Sequence.{
  Footer, end_loop, Md, more, record_depth, start_block, block_footer, then_footer, start_then,
  start_if, compile_next, patch_here,
}
use wasmjit.Compile.Emits.{Later, Anything, Emits, Leads}
use wasmjit.Compile.Emits.Rules.{Emits-get, Emits-bind, Later-trans, Yields-pure, get-Yields}
use wasmjit.Compile.Emits.Output.{out-Emits, patch-Emits}
use wasmjit.Compile.Emits.Stack.{push_label-Yields, take_top-Emits}
use wasmjit.Compile.Emits.Instruction.{compile_instruction-Emits}
use wasmjit.Compile.Emits.Labels.{Leads-bind, Leads-after, Leads-pure}
use wasmjit.Compile.Emits.Places.{new_unset}
use wasmjit.Compile.Emits.Frames.{
  rounds, rounds_of, rounds_left, footer_rounds, label_of, FooterIn, Framed, Round, Framed-Later,
  footers_later,
}
use wasmjit.Compile.Emits.Sequence.{inc_labels-Leads, enter-Leads}

pub patch_here-Emits : (offset : ℕ) → Emits (patch_here offset)
patch_here-Emits offset = search (Emits-get, Emits-bind, patch-Emits)

module _ (alloc : Allocator) (env : Env) where
  record_depth-Emits : (max : ℕ) → Emits (record_depth env max)
  record_depth-Emits max s = record { at = (Yields-pure {Q = Anything} _ s tt).at }

  -- A block's frame, over that of what is after it.
  module _ (footer : ℕ → ℕ → ℕ → Footer) (body : Instrs) (outer : Md) (rest : List Md) (w : ℕ)
      (footer_in : (l st o n : ℕ) → o ≤ n → FooterIn n (footer l st o))
      (opens : (l st o : ℕ) → label_of (footer l st o) ≡ some l)
      (fewer : (l st o : ℕ)
        → rounds body + footer_rounds (footer l st o) + rounds_left (outer ∷ rest) < w) where
    abbrev inner_md : ℕ → ℕ → ℕ → Md
    inner_md l st o = record { instructions = body; footer = footer l st o }

    entered-Framed :
        (s t u v : State) (k st o : ℕ)
        → k ≡ length t.labels
        → Framed s (outer ∷ rest)
        → Later s t
        → length t.output ≤ length u.output
        → u.labels ≡ t.labels ++ none ∷ []
        → Later u v
        → o ≤ length v.output
        → Framed v (inner_md k st o ∷ outer ∷ rest)
    entered-Framed s t u v k st o idx f l h new l' inside = record {
      footers_in = (
        footer_in k st o _ inside,
        footers_later _ _ (outer ∷ rest) (omega (arith, l.output_grows, h, l'.output_grows))
            f.footers_in,
      );
      open_labels = λ i e.
          elim (new_unset t.labels i (sym (ap (λ x. get_elem? x i) new) ∙ l'.unset_before i e)) [
            | inl here ↦ inl (opens k st o ∙ ap some (idx ∙ sym here))
            | inr old ↦ inr (f.open_labels i (l.unset_before i old))
          ];
    }

    pub start_block-Leads :
        (max arity : ℕ) (s : State)
        → Framed s (outer ∷ rest)
        → Leads (Round w) (start_block alloc env max arity footer body outer rest) s
    unfolding start_block
    start_block-Leads max arity s f = Leads-after (get-Yields s) λ a t l same.
        Leads-bind (inc_labels-Leads alloc t) λ _ u q.
          Leads-after
            (push_label-Yields alloc arity (length a.labels) u (
              omega (
                arith,
                ap (λ (x : State). length x.labels) same,
                ap length q.1,
                length-append t.labels (none ∷ []),
              )))
            λ _ v l₁ _. Leads-after (get-Yields v) λ b v₁ l₂ same'.
              Leads-after (record_depth-Emits max v₁) λ max' v₂ l₃ _.
                enter-Leads alloc max' w (inner_md _ _ _) outer rest v₂
                  (entered-Framed s t u v₂ (length a.labels) (length a.stack) (length b.output)
                    (ap (λ (x : State). length x.labels) same) f l q.0 q.1
                    (Later-trans (Later-trans l₁ l₂) l₃)
                    (omega (arith, ap (λ (x : State). length x.output) same', l₃.output_grows)))
                  (fewer _ _ _)

  start_then-Leads :
      (max blocktype : ℕ) (thens elses : Instrs) (offset : ℕ) (outer : Md) (rest : List Md) (w : ℕ)
      (s : State)
      → Framed s (outer ∷ rest)
      → rounds thens + rounds elses + rounds_left (outer ∷ rest) < w
      → Leads (Round w) (start_then alloc env max blocktype thens elses offset outer rest) s
  unfolding start_then
  start_then-Leads max blocktype thens elses offset outer rest w s f h =
      Leads-after (out-Emits alloc _ s) λ _ t l _.
        start_block-Leads (then_footer blocktype elses offset) thens outer rest w (λ _ _ _ _ _. tt)
          (λ _ _ _. refl) (λ _ _ _. h) max _ t (Framed-Later (outer ∷ rest) l f)

  start_if-Leads :
      (max blocktype : ℕ) (thens elses : Instrs) (outer : Md) (rest : List Md) (w : ℕ) (s : State)
      → Framed s (outer ∷ rest)
      → rounds thens + rounds elses + rounds_left (outer ∷ rest) < w
      → Leads (Round w) (start_if alloc env max blocktype thens elses outer rest) s
  unfolding start_if
  start_if-Leads max blocktype thens elses outer rest w s f h =
      Leads-after (take_top-Emits alloc Valtype.i32 s) λ _ t l _.
        Leads-after (out-Emits alloc _ t) λ _ t₁ l₁ _.
          Leads-after (out-Emits alloc _ t₁) λ _ t₂ l₂ _. Leads-after (get-Yields t₂) λ a t₃ l₃ _.
            start_then-Leads max blocktype thens elses (length a.output + 2) outer rest w t₃
              (Framed-Later (outer ∷ rest) (Later-trans (Later-trans (Later-trans l l₁) l₂) l₃) f) h

  plain-Leads :
      (max w : ℕ) (i : Instr) (outer : Md) (rest : List Md) (s : State)
      → Framed s (outer ∷ rest)
      → rounds_left (outer ∷ rest) < w
      → Leads
          (Round w)
          (compile_instruction alloc env i >>= λ _.
            record_depth env max >>= λ max'. pure (more max' outer rest))
          s
  plain-Leads max w i outer rest s f h =
      Leads-after (compile_instruction-Emits alloc env i s) λ _ t l _.
        Leads-after (record_depth-Emits max t) λ max' t₁ l₁ _.
          Leads-pure (more max' outer rest) t₁
            (record { framed = Framed-Later (outer ∷ rest) (Later-trans l l₁) f; fewer = h })

  pub compile_next-Leads :
      (max w : ℕ) (i : Instr) (outer : Md) (rest : List Md) (s : State)
      → Framed s (outer ∷ rest)
      → rounds_of i + rounds_left (outer ∷ rest) ≤ w
      → Leads (Round w) (compile_next alloc env max i outer rest) s
  unfolding compile_next rounds
  compile_next-Leads max w (block blocktype body) outer rest s f h =
      start_block-Leads (block_footer blocktype) body outer rest w (λ _ _ _ _ _. tt) (λ _ _ _. refl)
        (λ _ _ _. omega (arith, h)) max _ s f
  compile_next-Leads max w (loop blocktype body) outer rest s f h =
      start_block-Leads (end_loop blocktype) body outer rest w (λ _ _ _ _ inside. inside)
        (λ _ _ _. refl) (λ _ _ _. omega (arith, h)) max _ s f
  compile_next-Leads max w (if_ blocktype thens elses) outer rest s f h =
      start_if-Leads max blocktype thens elses outer rest w s f (omega (arith, h))
  compile_next-Leads max w i outer rest s f h =
      plain-Leads max w i outer rest s f (omega (arith, h))
