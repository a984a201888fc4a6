-- ===== src/Compile/Emits/Rounds.antt =====
-- The ends of blocks in wasmjit_compile_instructions of src/wasmjit/compile.c, and all its rounds.
use wasmjit.Prelude.{
  ℕ, zero, suc, ◌+◌, ◌≤◌, ◌<◌, ◌≡◌, refl, ap, inl, inr, List, [], ◌∷◌, none, some, length, arith,
}
use wasmjit.Ast.Instruction.{Instrs, nil, cons}
use wasmjit.Compile.State.{State, Allocator}
use wasmjit.Compile.Control.{Env}
use wasmjit.Compile.Sequence.{
  Footer, root, end_block, end_loop, end_then, end_else, Md, Next, more, finished, md_size,
  close_here, start_else, compile_footer, compile_step, compile_rounds, compile_instructions,
}
use wasmjit.Compile.Emits.{Leads}
use wasmjit.Compile.Emits.Rules.{Later-trans, get-Yields}
use wasmjit.Compile.Emits.Output.{set_size-Emits, out-Emits}
use wasmjit.Compile.Emits.Stack.{stack_truncate-Emits}
use wasmjit.Compile.Emits.Labels.{Leads-bind, Leads-after, Leads-pure}
use wasmjit.Compile.Emits.Frames.{
  rounds, rounds_left, rounds_pos, frames_of, label_of, Framed, Round, Framed-Later,
}
use wasmjit.Compile.Emits.Sequence.{close-Leads, pop_md-Leads, pop_ended-Leads}
use wasmjit.Compile.Emits.Blocks.{patch_here-Emits, compile_next-Leads}

none_some {ℓ} : {A : Type ℓ} {a : A} → none ≡ some a → ⊥
none_some e = cc

module _ (alloc : Allocator) where
  -- A block that ends where the output does.
  close_here-Leads :
      (max w blocktype label_idx stack_idx : ℕ) (footer : Footer) (rest : List Md) (s : State)
      → Framed s (record { instructions = nil; footer = footer } ∷ rest)
      → label_of footer ≡ some label_idx
      → rounds_left rest < w
      → Leads (Round w) (close_here alloc max blocktype label_idx stack_idx rest) s
  unfolding close_here
  close_here-Leads max w blocktype label_idx stack_idx footer rest s f opened h =
      Leads-after (get-Yields s) λ a t l same.
        Leads-bind
          (close-Leads alloc blocktype label_idx stack_idx (length a.output) t
            (omega (arith, ap (λ (x : State). length x.output) same)))
          λ _ u closed.
            pop_ended-Leads alloc max w (record { instructions = nil; footer = footer }) label_idx
              rest t u (Framed-Later (record { instructions = nil; footer = footer } ∷ rest) l f)
              opened closed h

  start_else-Leads :
      (max w blocktype : ℕ) (elses : Instrs) (label_idx stack_idx from after : ℕ) (rest : List Md)
      (s : State)
      → Framed s (
          record { instructions = nil; footer = end_then blocktype elses label_idx stack_idx from }
          ∷ rest)
      → rounds elses + rounds_left rest < w
      → Leads (Round w) (start_else alloc max blocktype elses label_idx stack_idx from after rest) s
  unfolding start_else
  start_else-Leads max w blocktype elses label_idx stack_idx from after rest s f h =
      Leads-after (out-Emits alloc _ s) λ _ t l _.
        Leads-after (patch_here-Emits from t) λ _ t₁ l₁ _.
          Leads-after (stack_truncate-Emits alloc _ t₁) λ _ t₂ l₂ _.
            Leads-after (set_size-Emits alloc _ md_size t₂) λ _ t₃ l₃ _.
              let g =
                Framed-Later
                  (record {
                    instructions = nil;
                    footer = end_then blocktype elses label_idx stack_idx from;
                  }
                    ∷ rest)
                  (Later-trans (Later-trans (Later-trans l l₁) l₂) l₃) f in
              pop_md-Leads alloc max w
                (record {
                  instructions = elses;
                  footer = end_else blocktype label_idx stack_idx after;
                }
                  ∷ rest)
                t₃ (record { footers_in = (tt, g.footers_in.1); open_labels = g.open_labels })
                (omega (arith, h))

  abbrev at_end : Footer → Md
  at_end footer = record { instructions = nil; footer = footer }

  compile_footer-Leads :
      (max : ℕ) (footer : Footer) (rest : List Md) (s : State)
      → Framed s (at_end footer ∷ rest)
      → Leads (Round (rounds_left (at_end footer ∷ rest))) (compile_footer alloc max footer rest) s
  unfolding compile_footer rounds
  compile_footer-Leads max root rest s f =
      pop_md-Leads alloc max _ rest s
        (record {
          footers_in = f.footers_in.1;
          open_labels = λ i e. elim (f.open_labels i e) [
            | inl here ↦ absurd (none_some here)
            | inr there ↦ there
          ];
        })
        (omega arith)
  compile_footer-Leads max (end_block bt l st) rest s f =
      close_here-Leads max _ bt l st (end_block bt l st) rest s f refl (omega arith)
  compile_footer-Leads max (end_loop bt l st o) rest s f =
      Leads-bind (close-Leads alloc bt l st o s f.footers_in.0) λ _ u closed.
        pop_ended-Leads alloc max _ (at_end (end_loop bt l st o)) l rest s u f refl closed
          (omega arith)
  compile_footer-Leads max (end_then bt nil l st from) rest s f =
      Leads-after (patch_here-Emits from s) λ _ t later _.
        close_here-Leads max _ bt l st (end_then bt nil l st from) rest t
          (Framed-Later (at_end (end_then bt nil l st from) ∷ rest) later f) refl (omega arith)
  compile_footer-Leads max (end_then bt (cons i is) l st from) rest s f =
      Leads-after (get-Yields s) λ a t later _.
        start_else-Leads max _ bt (cons i is) l st from (length a.output + 1) rest t
          (Framed-Later (at_end (end_then bt (cons i is) l st from) ∷ rest) later f) (omega arith)
  compile_footer-Leads max (end_else bt l st from) rest s f =
      Leads-after (patch_here-Emits from s) λ _ t later _.
        close_here-Leads max _ bt l st (end_else bt l st from) rest t
          (Framed-Later (at_end (end_else bt l st from) ∷ rest) later f) refl (omega arith)

  module _ (env : Env) where
    compile_step-Leads :
        (max : ℕ) (is : Instrs) (footer : Footer) (rest : List Md) (s : State)
        → Framed s (record { instructions = is; footer = footer } ∷ rest)
        → Leads
            (Round (rounds_left (record { instructions = is; footer = footer } ∷ rest)))
            (compile_step alloc env max (record { instructions = is; footer = footer }) rest)
            s
    unfolding compile_step rounds
    compile_step-Leads max nil footer rest s f = compile_footer-Leads max footer rest s f
    compile_step-Leads max (cons i is) footer rest s f =
        compile_next-Leads alloc env max _ i (record { instructions = is; footer = footer }) rest s
          (record { footers_in = f.footers_in; open_labels = f.open_labels }) (omega arith)

    -- With a round of fuel for each that is left, the rounds come to an end.
    compile_rounds-Leads :
        (fuel : ℕ) (next : Next) (s : State)
        → Framed s (frames_of next)
        → rounds_left (frames_of next) ≤ fuel
        → Leads (λ _ t. Framed t []) (compile_rounds alloc env fuel next) s
    unfolding compile_rounds
    compile_rounds-Leads fuel (finished max) s f h = Leads-pure max s f
    compile_rounds-Leads zero (more max md rest) s f h =
        absurd (omega (arith, rounds_pos md.instructions))
    compile_rounds-Leads (suc fuel) (more max md rest) s f h =
        Leads-bind (compile_step-Leads max md.instructions md.footer rest s f) λ next t round.
          compile_rounds-Leads fuel next t round.framed (omega (arith, h, round.fewer))

    pub compile_instructions-Leads :
        (fuel : ℕ) (is : Instrs) (s : State)
        → Framed s []
        → rounds is ≤ fuel
        → Leads (λ _ t. Framed t []) (compile_instructions alloc env fuel is) s
    unfolding compile_instructions
    compile_instructions-Leads fuel is s fresh h =
        Leads-after (set_size-Emits alloc 1 md_size s) λ _ t l _.
          compile_rounds-Leads fuel (more 0 (record { instructions = is; footer = root }) []) t
            (record {
              footers_in = (tt, tt);
              open_labels = λ i e. absurd (fresh.open_labels i (l.unset_before i e));
            })
            (omega (arith, h))
