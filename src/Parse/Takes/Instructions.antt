-- ===== src/Parse/Takes/Instructions.antt =====
-- `Takes` for read_instructions of src/wasmjit/parse.c.
use wasmjit.Prelude.{
  ℕ, zero, suc, ◌+◌, ◌<◌, Bool, true, false, List, [], ◌∷◌, arith, length, Option, none, some,
  Bool-cases, inl, inr,
}
use wasmjit.Ast.Instruction.{Instr, Instrs, plain, block, loop, if_, nil}
use wasmjit.Ast.Path.{Field, body, then_}
use wasmjit.Parse.State.{ParseState, Reader, Allocator}
use wasmjit.Parse.Instructions.{
  Context, Next, more, done, pop_context, start_else, descend, append_instr, place, start_block,
  continue, run, read_instructions, stack_elt_size,
}
use wasmjit.Parse.Takes.{
  Takes, Takes-mono, bind_shorter-Takes, fails, undefined, Runs, bind-Takes, if_reader-Takes,
  pure-Takes, check-Takes,
}
use wasmjit.Parse.Takes.Instruction.{read_instruction-Takes}

ruleset steps = (if_reader-Takes, bind-Takes, check-Takes, pure-Takes, undefined)

module _ (alloc : Allocator) where
  pop_context-Runs : (stack : List Context) (root : Instrs) → Runs (pop_context alloc stack root)
  unfolding pop_context
  pop_context-Runs [] root s = search steps
  pop_context-Runs (c ∷ []) root s = search steps
  pop_context-Runs (c ∷ d ∷ cs) root s = search steps

  start_else-Runs : (stack : List Context) (root : Instrs) → Runs (start_else alloc stack root)
  unfolding start_else
  start_else-Runs [] root s = undefined
  start_else-Runs (c ∷ stack) root s =
      search (bind-Takes, check-Takes, if_reader-Takes, pop_context-Runs, undefined)

  -- The context of a block, above its parent.
  start_block-Runs :
      (f : Field) (b : Bool) (c : Context) (stack : List Context) (root : Instrs)
      → Runs (start_block alloc f b c stack root)
  start_block-Runs f b c stack root s = search (bind-Takes, check-Takes, pop_context-Runs)

  descend-Runs :
      (i : Instr) (c : Context) (stack : List Context) (root : Instrs)
      → Runs (descend alloc i c stack root)
  unfolding descend
  descend-Runs (block bt is) c stack root s = start_block-Runs body false c stack root s
  descend-Runs (loop bt is) c stack root s = start_block-Runs body false c stack root s
  descend-Runs (if_ bt is es) c stack root s = start_block-Runs then_ true c stack root s
  descend-Runs _ c stack root s = pure-Takes _ s

  append_instr-Runs :
      (v : Option Instrs) (i : Instr) (c : Context) (stack : List Context) (root : Instrs)
      → Runs (append_instr alloc v i c stack root)
  unfolding append_instr
  append_instr-Runs none i c stack root s = undefined
  append_instr-Runs (some is) i c stack root s = search (bind-Takes, check-Takes, descend-Runs)

  place-Runs :
      (i : Instr) (c : Context) (stack : List Context) (root : Instrs)
      → Runs (place alloc i c stack root)
  unfolding place
  place-Runs (plain op) c stack root s = search (
    if_reader-Takes, bind-Takes, check-Takes, pop_context-Runs, start_else-Runs, append_instr-Runs,
  )
  place-Runs _ c stack root s = search append_instr-Runs

  continue-Takes :
      (run_on : Context → List Context → Instrs → Reader Instrs) (next : Next) (s : ParseState)
      → ((c : Context) (stack : List Context) (root : Instrs) → Takes 1 s (run_on c stack root s))
      → Takes 0 s (continue run_on next s)
  continue-Takes run_on (more c stack root) s h = Takes-mono (omega arith) (h c stack root)
  continue-Takes run_on (done root) s h = pure-Takes root s

  -- With more fuel than bytes left, the loops come to an end.
  run-Takes :
      (fuel : ℕ) (c : Context) (stack : List Context) (root : Instrs) (s : ParseState)
      → length s.input < fuel
      → Takes 1 s (run alloc fuel c stack root s)
  unfolding run
  run-Takes zero c stack root s h = absurd (omega arith)
  run-Takes (suc fuel) c stack root s h =
      bind_shorter-Takes (read_instruction-Takes alloc s) λ i s₁ l₁.
        bind_shorter-Takes (place-Runs i c stack root s₁) λ next s₂ l₂.
          continue-Takes (run alloc fuel) next s₂
            λ c' stack' root'. run-Takes fuel c' stack' root' s₂ (omega arith)

  -- `read_instructions` ends on every input and for every allocator. Where it succeeds it has
  -- stepped over a prefix of the input, of a byte at least, and left the end-of-file flag alone.
  pub read_instructions-Takes : (s : ParseState) → Takes 1 s (read_instructions alloc s)
  unfolding read_instructions
  read_instructions-Takes s = elim (Bool-cases (alloc s.input stack_elt_size)) [
    | inl met ↦ rw met (run-Takes (length s.input + 1) _ [] nil s (omega arith))
    | inr refused ↦ rw refused fails
  ]
