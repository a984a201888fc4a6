-- ===== src/Parse/Format/Steps.antt =====
-- The rounds of `read_instructions` on the pieces of an encoded sequence: an instruction with no
-- body, the opening of a body, its terminal, and an else.
use wasmjit.Prelude.{
  ℕ, suc, ◌+◌, ◌*◌, ◌<◌, ◌^◌, ◌≡◌, refl, ap, ◌∙◌, Bool, true, false, List, [], ◌∷◌, ◌++◌, arith,
  some, lt→leb, ◌==◌, ◌||◌,
}
use wasmjit.Ast.Instruction.{Instr, Instrs, plain, block, loop, if_, nil, cons, count, snoc, append}
use wasmjit.Ast.Opcode
use wasmjit.Ast.Path.{body, then_, else_, Place, get, update}
use wasmjit.Ast.Path.Laws.{last_instr-snoc, update-update}
use wasmjit.Parse.State.{ParseState, ok, Allocator, read_uint8}
use wasmjit.Parse.Instruction.{read_instruction}
use wasmjit.Parse.Instructions.{
  Context, more, pop_context, at_open_if, start_else, descend, append_instr, place, run,
}
use wasmjit.Parse.Format.{Code, plain_code}
use wasmjit.Parse.Format.Operands.{at, Meets}

-- The vectors stay so short that the size of one in bytes fits `size_t`.
abbrev pub room : ℕ
room = 2 ^ 58

pub append-nil_instrs : (v : Instrs) → append v nil ≡ v
append-nil_instrs nil = refl
append-nil_instrs (cons i v) = ap (cons i) (append-nil_instrs v)

append-snoc : (v is : Instrs) (i : Instr) → append (snoc v i) is ≡ append v (cons i is)
append-snoc nil is i = refl
append-snoc (cons j v) is i = ap (cons j) (append-snoc v is i)

pub count-snoc : (v : Instrs) (i : Instr) → count (snoc v i) ≡ count v + 1
count-snoc nil i = omega arith
count-snoc (cons j v) i = omega (arith, count-snoc v i)

pub update-append-snoc :
    (p : Place) (is : Instrs) (i : Instr) (root : Instrs)
    → update p (λ v. append v is) (update p (λ v. snoc v i) root)
      ≡ update p (λ v. append v (cons i is)) root
update-append-snoc p is i root = update-update p (λ v. snoc v i) (λ v. append v is) root ∙ λ k.
    update p (λ v. append-snoc v is i k) root

at_open_if-snoc : (v ts : Instrs) (bt : ℕ) → at_open_if (some (snoc v (if_ bt ts nil))) ≡ true
unfolding at_open_if
at_open_if-snoc v ts bt = rw (last_instr-snoc, at_open_if)

module _ (alloc : Allocator) (meets : Meets alloc) where
  -- One round that goes on.
  pub run_round :
      (fuel : ℕ) (c : Context) (stack : List Context) (root : Instrs) (s : ParseState)
      {s₁ s₂ : ParseState} {i : Instr} {c' : Context} {stack' : List Context} {root' : Instrs}
      → read_instruction alloc s ≡ ok i s₁
      → place alloc i c stack root s₁ ≡ ok (more c' stack' root') s₂
      → run alloc (suc fuel) c stack root s ≡ run alloc fuel c' stack' root' s₂
  unfolding run
  run_round fuel c stack root s p q = rw (p, q)

  module _ (c : Context) (stack : List Context) (root : Instrs) (s : ParseState) where
    pub pop_context_met : pop_context alloc (c ∷ stack) root s ≡ ok (more c stack root) s
    unfolding pop_context
    pop_context_met = popped stack
      where
        popped : (cs : List Context) → pop_context alloc (c ∷ cs) root s ≡ ok (more c cs root) s
        popped [] = refl
        popped (d ∷ cs) = rw meets

    append_instr_met :
        (v : Instrs) (i : Instr)
        → count v + 1 < room
        → append_instr alloc (some v) i c stack root s
          ≡ descend alloc i c stack (update c.instructions (λ v. snoc v i) root) s
    unfolding append_instr
    append_instr_met v i h = rw (lt→leb (2 ^ 64) ((count v + 1) * 48) (omega arith), meets)

    module _ {v : Instrs} (e : get c.instructions root ≡ some v) (h : count v + 1 < room) where
      pub place_simple :
          {i : Instr} {bs : List ℕ}
          → Code i bs
          → place alloc i c stack root s
            ≡ ok (more c stack (update c.instructions (λ v. snoc v i) root)) s
      unfolding place descend
      place_simple (plain_code op p q) =
          let not_end : (op == Opcode.block_terminal) ≡ false =
            unfold Opcode.is_plain in ground arith in
          let not_else : (op == Opcode.else_terminal) ≡ false =
            unfold Opcode.is_plain in ground arith in
          rw (not_end, not_else, e, append_instr_met v, h)
      place_simple _ = rw (e, append_instr_met v, h)

      -- The opening of a body: the context of its field is on top of the current one.
      pub place-block :
          (bt : ℕ)
          → place alloc (block bt nil) c stack root s
            ≡ ok
                (more
                  (record { instructions = c.instructions ++ body ∷ []; allow_else = false })
                  (c ∷ stack)
                  (update c.instructions (λ v. snoc v (block bt nil)) root))
                s
      unfolding place descend pop_context
      place-block bt = rw (e, append_instr_met v (block bt nil) h, meets, meets)

      pub place-loop :
          (bt : ℕ)
          → place alloc (loop bt nil) c stack root s
            ≡ ok
                (more
                  (record { instructions = c.instructions ++ body ∷ []; allow_else = false })
                  (c ∷ stack)
                  (update c.instructions (λ v. snoc v (loop bt nil)) root))
                s
      unfolding place descend pop_context
      place-loop bt = rw (e, append_instr_met v (loop bt nil) h, meets, meets)

      pub place_if :
          (bt : ℕ)
          → place alloc (if_ bt nil nil) c stack root s
            ≡ ok
                (more
                  (record { instructions = c.instructions ++ then_ ∷ []; allow_else = true })
                  (c ∷ stack)
                  (update c.instructions (λ v. snoc v (if_ bt nil nil)) root))
                s
      unfolding place descend pop_context
      place_if bt = rw (e, append_instr_met v (if_ bt nil nil) h, meets, meets)

    -- An else, after the then clause `ts` of the instruction stored last in the parent's vector.
    pub place_else :
        (p : Place) (bt : ℕ) (ts v : Instrs)
        → get c.instructions root ≡ some (snoc v (if_ bt ts nil))
        → place alloc
            (plain Opcode.else_terminal)
            (record { instructions = p; allow_else = true })
            (c ∷ stack)
            root
            s
          ≡ ok
              (more
                (record { instructions = c.instructions ++ else_ ∷ []; allow_else = false })
                (c ∷ stack)
                root)
              s
    unfolding place start_else pop_context
    place_else p bt ts v e = rw (meets, e, at_open_if-snoc, meets)

  pub read_terminal :
      (op : ℕ) (eof : Bool) (rest : List ℕ)
      → ((op == Opcode.block_terminal) || (op == Opcode.else_terminal)) ≡ true
      → read_instruction alloc (at eof (op ∷ rest)) ≡ ok (plain op) (at eof rest)
  unfolding read_instruction read_uint8
  read_terminal op eof rest h = rw h

  pub read_block :
      (bt : ℕ) (eof : Bool) (rest : List ℕ)
      → read_instruction alloc (at eof (Opcode.block ∷ bt ∷ rest)) ≡ ok (block bt nil) (at eof rest)
  unfolding read_instruction read_uint8
  read_block bt eof rest = refl

  pub read_loop :
      (bt : ℕ) (eof : Bool) (rest : List ℕ)
      → read_instruction alloc (at eof (Opcode.loop ∷ bt ∷ rest)) ≡ ok (loop bt nil) (at eof rest)
  unfolding read_instruction read_uint8
  read_loop bt eof rest = refl

  pub read_if :
      (bt : ℕ) (eof : Bool) (rest : List ℕ)
      → read_instruction alloc (at eof (Opcode.if_ ∷ bt ∷ rest)) ≡ ok (if_ bt nil nil) (at eof rest)
  unfolding read_instruction read_uint8
  read_if bt eof rest = refl

  -- The terminal of the outermost sequence ends the loops.
  pub last_lem :
      (fuel : ℕ) (c : Context) (root : Instrs) (eof : Bool) (rest : List ℕ)
      → run alloc (suc fuel) c [] root (at eof (Opcode.block_terminal ∷ rest))
        ≡ ok root (at eof rest)
  unfolding run place pop_context
  last_lem fuel c root eof rest = rw (read_terminal Opcode.block_terminal eof rest refl)
