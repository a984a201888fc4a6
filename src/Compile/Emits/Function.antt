-- ===== src/Compile/Emits/Function.antt =====
-- wasmjit_compile_function of src/wasmjit/compile.c: it ends, its code holds all that points into it,
-- and every branch has a target when its operand is written.
use wasmjit.Prelude.{ℕ, ◌+◌, ◌≤◌, List, [], ◌∷◌}
use wasmjit.Ast.Section.{FuncType, CodeLocal, Code}
use wasmjit.Compile.State.{State, BranchPoint, Emit, Allocator}
use wasmjit.Compile.Control.{Env, LocalMd, FpOffset, below, above}
use wasmjit.Compile.Call.{Passed, pass}
use wasmjit.Compile.Frame.{place_args, place_locals, frame_of, Frame, fits}
use wasmjit.Compile.Function.{
  emit_save, emit_save_args, emit_prologue, fix_branches, emit_epilogue, finish_function,
  compile_function,
}
use wasmjit.Compile.Emits.{Anything, Emits, Leads}
use wasmjit.Compile.Emits.Rules.{Emits-pure, Emits-bind, Emits-ensure, Later-trans, emits_rules}
use wasmjit.Compile.Emits.Output.{output_rules}
use wasmjit.Compile.Emits.Stack.{stack_rules}
use wasmjit.Compile.Emits.Labels.{Leads-bind, Leads-after, Post-Ends}
use wasmjit.Compile.Emits.Frames.{rounds, Framed, Framed-Later}
use wasmjit.Compile.Emits.Rounds.{compile_instructions-Leads}

fits-Emits : (p : FpOffset) → Emits (fits p)
fits-Emits (below n) = Emits-pure tt
fits-Emits (above n) = Emits-ensure _

place_args-Emits : (ts : List ℕ) (p : Passed) → Emits (place_args ts p)
unfolding place_args
place_args-Emits [] p = Emits-pure []
place_args-Emits (t ∷ ts) p =
    let rest = place_args-Emits ts (pass t p) in search (emits_rules, fits-Emits)

place_locals-Emits : (words i : ℕ) (ts : List ℕ) → Emits (place_locals words i ts)
unfolding place_locals
place_locals-Emits words i [] = Emits-pure []
place_locals-Emits words i (t ∷ ts) =
    let rest = place_locals-Emits words (i + 1) ts in search emits_rules

module _ (alloc : Allocator) where
  frame_of-Emits : (type : FuncType) (locals : List CodeLocal) → Emits (frame_of alloc type locals)
  unfolding frame_of
  frame_of-Emits type locals = search (output_rules, place_args-Emits, place_locals-Emits) depth 9

  emit_save-Emits :
      (n_movs n_xmm_movs valtype : ℕ) (p : FpOffset)
      → Emits (emit_save alloc n_movs n_xmm_movs valtype p)
  unfolding emit_save
  emit_save-Emits n_movs n_xmm_movs valtype (above n) = Emits-pure (n_movs, n_xmm_movs)
  emit_save-Emits n_movs n_xmm_movs valtype (below n) = search output_rules depth 12

  emit_save_args-Emits :
      (n_movs n_xmm_movs : ℕ) (locals : List LocalMd)
      → Emits (emit_save_args alloc n_movs n_xmm_movs locals)
  unfolding emit_save_args
  emit_save_args-Emits n_movs n_xmm_movs [] = Emits-pure tt
  emit_save_args-Emits n_movs n_xmm_movs (local ∷ locals) =
      Emits-bind (emit_save-Emits n_movs n_xmm_movs local.valtype local.fp_offset)
        λ counts. emit_save_args-Emits counts.0 counts.1 locals

  emit_prologue-Emits : (type : FuncType) (frame : Frame) → Emits (emit_prologue alloc type frame)
  unfolding emit_prologue
  emit_prologue-Emits type frame = search (output_rules, emit_save_args-Emits) depth 12

  emit_epilogue-Emits :
      (type : FuncType) (n_frame_locals : ℕ) → Emits (emit_epilogue alloc type n_frame_locals)
  unfolding emit_epilogue
  emit_epilogue-Emits type n_frame_locals = search stack_rules depth 12

fix_branches-Emits : (branches : List BranchPoint) → Emits (fix_branches branches)
unfolding fix_branches
fix_branches-Emits [] = Emits-pure tt
fix_branches-Emits (b ∷ bs) = let rest = fix_branches-Emits bs in search output_rules depth 12

finish_function-Emits :
    (alloc : Allocator) (type : FuncType) (n_frame_locals max_stack : ℕ)
    → Emits (finish_function alloc type n_frame_locals max_stack)
unfolding finish_function
finish_function-Emits alloc type n_frame_locals max_stack =
    search (emits_rules, fix_branches-Emits, emit_epilogue-Emits)

Emits-Leads : {m : Emit ℕ} → Emits m → (s : State) → Leads Anything m s
Emits-Leads h s = record { at = λ p. Post-Ends ((h s).at p) }

-- From a state with every label placed, the translation of a function ends with a round of fuel for
-- each that its instructions take, and what its state has still points into its code.
pub compile_function-Leads :
    (alloc : Allocator) (env : Env) (fuel : ℕ) (code : Code)
    → rounds code.instructions ≤ fuel
    → (s : State) → Framed s []
    → Leads Anything (compile_function alloc env fuel code) s
unfolding compile_function
compile_function-Leads alloc env fuel code h s f =
    Leads-after (frame_of-Emits alloc env.type code.locals s) λ frame t l _.
      Leads-after (emit_prologue-Emits alloc env.type frame t) λ _ t₁ l₁ _.
        Leads-bind
          (compile_instructions-Leads alloc _ fuel code.instructions t₁
            (Framed-Later [] (Later-trans l l₁) f) h)
          λ max t₂ _. Emits-Leads (finish_function-Emits alloc env.type frame.n_frame_locals max) t₂
