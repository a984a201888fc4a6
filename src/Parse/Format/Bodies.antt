-- ===== src/Parse/Format/Bodies.antt =====
-- The pieces of an encoded sequence as the loop of `read_instructions` reads them.
use wasmjit.Prelude.{
  ℕ, suc, ◌+◌, ◌<◌, ◌≡◌, refl, ap, ◌∙◌, Bool, true, false, List, [], ◌∷◌, ◌++◌, append_assoc, arith,
  length, length-append, some,
}
use wasmjit.Ast.Instruction.{Instr, Instrs, if_, nil, cons, count, snoc, append}
use wasmjit.Ast.Opcode
use wasmjit.Ast.Path.{Field, then_, else_, Place, read_field, write_field, get, update}
use wasmjit.Ast.Path.Laws.{get-update, get-snoc_field, update-snoc_field}
use wasmjit.Parse.State.{Allocator}
use wasmjit.Parse.Instructions.{Context, place, run}
use wasmjit.Parse.Format.{Code}
use wasmjit.Parse.Format.Operands.{at, Meets}
use wasmjit.Parse.Format.Instruction.{read_instruction-Code}
use wasmjit.Parse.Format.Fuel.{Code-length}
use wasmjit.Parse.Format.Steps.{
  room, count-snoc, update-append-snoc, run_round, pop_context_met, place_simple, place_else,
  read_terminal,
}

module _ (alloc : Allocator) (meets : Meets alloc) where
  -- In any context the loop reads `bs` and appends `is` to the vector of that context.
  abbrev pub Appends : Instrs → List ℕ → (ℕ → ℕ) → Type 0
  Appends is bs spent =
      (c : Context) (stack : List Context) (root v : Instrs) (fuel : ℕ) (eof : Bool) (rest : List ℕ)
      → get c.instructions root ≡ some v
      → count v + length bs < room
      → run alloc (spent fuel) c stack root (at eof (bs ++ rest))
        ≡ run alloc fuel c stack (update c.instructions (λ w. append w is) root) (at eof rest)

  -- The body of `i` in its field `x`, up to its terminal: `i` becomes `i'`.
  body_lem :
      (x : Field) (i i' : Instr) (is : Instrs) (a : List ℕ) (spent : ℕ → ℕ) (allow_else : Bool)
      → Appends is a spent
      → read_field x i ≡ some nil
      → write_field x (λ w. append w is) i ≡ i'
      → (c : Context) (stack : List Context) (root v : Instrs) (fuel : ℕ) (eof : Bool)
        (rest : List ℕ)
      → get c.instructions root ≡ some v
      → length a < room
      → run alloc
          (spent fuel)
          (record { instructions = c.instructions ++ x ∷ []; allow_else = allow_else })
          (c ∷ stack)
          (update c.instructions (λ w. snoc w i) root)
          (at eof (a ++ rest))
        ≡ run alloc fuel
            (record { instructions = c.instructions ++ x ∷ []; allow_else = allow_else })
            (c ∷ stack)
            (update c.instructions (λ w. snoc w i') root)
            (at eof rest)
  body_lem x i i' is a spent ae reads field written c stack root v fuel eof rest e short =
      reads _ (c ∷ stack) _ nil fuel eof rest (get-snoc_field c.instructions x i root e field)
        (omega arith)
      ∙ ap
          (λ r.
            run alloc fuel (record { instructions = c.instructions ++ x ∷ []; allow_else = ae })
              (c ∷ stack) r (at eof rest))
          (update-snoc_field c.instructions x i root (λ w. append w is)
            ∙ ap (λ j. update c.instructions (λ w. snoc w j) root) written)

  -- The terminal of a body.
  close_lem :
      (p : Place) (allow_else : Bool) (c : Context) (stack : List Context) (root : Instrs)
      (fuel : ℕ) (eof : Bool) (rest : List ℕ)
      → run alloc
          (suc fuel)
          (record { instructions = p; allow_else = allow_else })
          (c ∷ stack)
          root
          (at eof (Opcode.block_terminal ∷ rest))
        ≡ run alloc fuel c stack root (at eof rest)
  close_lem p ae c stack root fuel eof rest =
      run_round alloc meets fuel _ (c ∷ stack) root _
        (read_terminal alloc meets Opcode.block_terminal eof rest refl)
        (unfold place in pop_context_met alloc meets c stack root (at eof rest))

  -- The instructions after `i`, which is stored last.
  rest_lem :
      (i : Instr) (is : Instrs) (b : List ℕ) (spent : ℕ → ℕ)
      → Appends is b spent
      → (c : Context) (stack : List Context) (root v : Instrs) (fuel : ℕ) (eof : Bool)
        (rest : List ℕ)
      → get c.instructions root ≡ some v
      → count v + 1 + length b < room
      → run alloc
          (spent fuel)
          c
          stack
          (update c.instructions (λ w. snoc w i) root)
          (at eof (b ++ rest))
        ≡ run alloc fuel c stack
            (update c.instructions (λ w. append w (cons i is)) root)
            (at eof rest)
  rest_lem i is b spent reads c stack root v fuel eof rest e short =
      reads c stack _ (snoc v i) fuel eof rest (get-update c.instructions (λ w. snoc w i) root e)
        (omega (arith, count-snoc v i))
      ∙ ap (λ r. run alloc fuel c stack r (at eof rest))
          (update-append-snoc c.instructions is i root)

  -- A body, its terminal and the instructions after it, from where the body is opened.
  pub block_lem :
      (x : Field) (i i' : Instr) (ts is : Instrs) (a b : List ℕ) (spent spent' : ℕ → ℕ)
      (allow_else : Bool)
      → Appends ts a spent
      → Appends is b spent'
      → read_field x i ≡ some nil
      → write_field x (λ w. append w ts) i ≡ i'
      → (c : Context) (stack : List Context) (root v : Instrs) (fuel : ℕ) (eof : Bool)
        (rest : List ℕ)
      → get c.instructions root ≡ some v
      → count v + (length a + length b + 3) < room
      → run alloc
          (spent (suc (spent' fuel)))
          (record { instructions = c.instructions ++ x ∷ []; allow_else = allow_else })
          (c ∷ stack)
          (update c.instructions (λ w. snoc w i) root)
          (at eof ((a ++ Opcode.block_terminal ∷ b) ++ rest))
        ≡ run alloc fuel c stack
            (update c.instructions (λ w. append w (cons i' is)) root)
            (at eof rest)
  block_lem x i i' ts is a b spent spent' ae reads reads' field written c stack root v fuel eof rest
        e short =
      ap
        (λ bs.
          run alloc (spent (suc (spent' fuel)))
            (record { instructions = c.instructions ++ x ∷ []; allow_else = ae }) (c ∷ stack)
            (update c.instructions (λ w. snoc w i) root) (at eof bs))
        (append_assoc a (Opcode.block_terminal ∷ b) rest)
      ∙ body_lem x i i' ts a spent ae reads field written c stack root v (suc (spent' fuel)) eof
          (Opcode.block_terminal ∷ (b ++ rest)) e (omega arith)
      ∙ close_lem (c.instructions ++ x ∷ []) ae c stack _ (spent' fuel) eof (b ++ rest)
      ∙ rest_lem i' is b spent' reads' c stack root v fuel eof rest e (omega arith)

  -- The then clause of an if, up to its else.
  pub then_lem :
      (bt : ℕ) (ts : Instrs) (a : List ℕ) (spent : ℕ → ℕ)
      → Appends ts a spent
      → (c : Context) (stack : List Context) (root v : Instrs) (fuel : ℕ) (eof : Bool)
        (rest : List ℕ)
      → get c.instructions root ≡ some v
      → length a < room
      → run alloc
          (spent (suc fuel))
          (record { instructions = c.instructions ++ then_ ∷ []; allow_else = true })
          (c ∷ stack)
          (update c.instructions (λ w. snoc w (if_ bt nil nil)) root)
          (at eof (a ++ Opcode.else_terminal ∷ rest))
        ≡ run alloc fuel
            (record { instructions = c.instructions ++ else_ ∷ []; allow_else = false })
            (c ∷ stack)
            (update c.instructions (λ w. snoc w (if_ bt ts nil)) root)
            (at eof rest)
  then_lem bt ts a spent reads c stack root v fuel eof rest e short =
      body_lem then_ (if_ bt nil nil) (if_ bt ts nil) ts a spent true reads refl refl c stack root v
        (suc fuel) eof (Opcode.else_terminal ∷ rest) e short
      ∙ run_round alloc meets fuel _ (c ∷ stack) _ _
          (read_terminal alloc meets Opcode.else_terminal eof rest refl)
          (place_else alloc meets c stack _ (at eof rest) (c.instructions ++ then_ ∷ []) bt ts v
            (get-update c.instructions (λ w. snoc w (if_ bt ts nil)) root e))

  pub simple_lem :
      (i : Instr) (is : Instrs) (a b : List ℕ) (spent : ℕ → ℕ)
      → Code i a
      → Appends is b spent
      → Appends (cons i is) (a ++ b) (λ f. suc (spent f))
  simple_lem i is a b spent code reads c stack root v fuel eof rest e short =
      ap (λ bs. run alloc (suc (spent fuel)) c stack root (at eof bs)) (append_assoc a b rest)
      ∙ run_round alloc meets (spent fuel) c stack root _
          (read_instruction-Code alloc meets code eof (b ++ rest))
          (place_simple alloc meets c stack root (at eof (b ++ rest)) e
            (omega (arith, length-append a b, Code-length code)) code)
      ∙ rest_lem i is b spent reads c stack root v fuel eof rest e
          (omega (arith, length-append a b, Code-length code))
