-- ===== src/Parse/Format/Sequence.antt =====
-- read_instructions of src/wasmjit/parse.c on an encoded sequence.
use wasmjit.Prelude.{
  ℕ, suc, ◌+◌, ◌-◌, ◌<◌, ◌≡◌, refl, sym, ap, ◌∙◌, Bool, true, false, List, [], ◌∷◌, ◌++◌,
  append_assoc, arith, length, length-append,
}
use wasmjit.Ast.Instruction.{Instrs, block, loop, if_, nil, snoc, append}
use wasmjit.Ast.Opcode
use wasmjit.Ast.Path.{body, then_, else_, get, update}
use wasmjit.Ast.Path.Laws.{update-id}
use wasmjit.Parse.State.{ok, Allocator}
use wasmjit.Parse.Instructions.{run, read_instructions}
use wasmjit.Parse.Format.{Codes, empty, simple, block_codes, loop_codes, if_codes, if_else_codes}
use wasmjit.Parse.Format.Operands.{at, Meets}
use wasmjit.Parse.Format.Fuel.{spend, spend_add, spend-length}
use wasmjit.Parse.Format.Steps.{
  room, append-nil_instrs, run_round, place-block, place-loop, place_if, read_block, read_loop,
  read_if, last_lem,
}
use wasmjit.Parse.Format.Bodies.{Appends, block_lem, then_lem, simple_lem}

module _ (alloc : Allocator) (meets : Meets alloc) where
  -- Sequences in any context.
  run-Codes : {is : Instrs} {bs : List ℕ} (d : Codes is bs) → Appends alloc meets is bs (spend d)
  unfolding spend
  run-Codes empty c stack root v fuel eof rest e short =
      ap (λ r. run alloc fuel c stack r (at eof rest))
        (sym (update-id c.instructions (λ w. append w nil) root append-nil_instrs))
  run-Codes (simple {i} {is} {a} {b} code d) c stack root v fuel eof rest e short =
      simple_lem alloc meets i is a b (spend d) code (run-Codes d) c stack root v fuel eof rest e
        short
  run-Codes (block_codes bt {body = ts} {is} {a} {b} d g) c stack root v fuel eof rest e short =
      run_round alloc meets _ c stack root _
        (read_block alloc meets bt eof ((a ++ Opcode.block_terminal ∷ b) ++ rest))
        (place-block alloc meets c stack root _ e (omega arith) bt)
      ∙ block_lem alloc meets body (block bt nil) (block bt ts) ts is a b (spend d) (spend g) false
          (run-Codes d) (run-Codes g) refl refl c stack root v fuel eof rest e
          (omega (arith, length-append a (Opcode.block_terminal ∷ b)))
  run-Codes (loop_codes bt {body = ts} {is} {a} {b} d g) c stack root v fuel eof rest e short =
      run_round alloc meets _ c stack root _
        (read_loop alloc meets bt eof ((a ++ Opcode.block_terminal ∷ b) ++ rest))
        (place-loop alloc meets c stack root _ e (omega arith) bt)
      ∙ block_lem alloc meets body (loop bt nil) (loop bt ts) ts is a b (spend d) (spend g) false
          (run-Codes d) (run-Codes g) refl refl c stack root v fuel eof rest e
          (omega (arith, length-append a (Opcode.block_terminal ∷ b)))
  run-Codes (if_codes bt {then_ = ts} {is} {a} {b} d g) c stack root v fuel eof rest e short =
      run_round alloc meets _ c stack root _
        (read_if alloc meets bt eof ((a ++ Opcode.block_terminal ∷ b) ++ rest))
        (place_if alloc meets c stack root _ e (omega arith) bt)
      ∙ block_lem alloc meets then_ (if_ bt nil nil) (if_ bt ts nil) ts is a b (spend d) (spend g)
          true (run-Codes d) (run-Codes g) refl refl c stack root v fuel eof rest e
          (omega (arith, length-append a (Opcode.block_terminal ∷ b)))
  run-Codes (if_else_codes bt {then_ = ts} {else_ = es} {is} {a} {b} {c = b'} d d' g) c stack root v
        fuel eof rest e short =
      run_round alloc meets _ c stack root _
        (read_if alloc meets bt eof
          ((a ++ Opcode.else_terminal ∷ (b ++ Opcode.block_terminal ∷ b')) ++ rest))
        (place_if alloc meets c stack root _ e (omega arith) bt)
      ∙ ap
          (λ bs.
            run alloc (spend d (suc (spend d' (suc (spend g fuel)))))
              (record { instructions = c.instructions ++ then_ ∷ []; allow_else = true })
              (c ∷ stack) (update c.instructions (λ w. snoc w (if_ bt nil nil)) root) (at eof bs))
          (append_assoc a (Opcode.else_terminal ∷ (b ++ Opcode.block_terminal ∷ b')) rest)
      ∙ then_lem alloc meets bt ts a (spend d) (run-Codes d) c stack root v _ eof
          ((b ++ Opcode.block_terminal ∷ b') ++ rest) e
          (omega
            (arith, length-append a (Opcode.else_terminal ∷ (b ++ Opcode.block_terminal ∷ b'))))
      ∙ block_lem alloc meets else_ (if_ bt ts nil) (if_ bt ts es) es is b b' (spend d') (spend g)
          false (run-Codes d') (run-Codes g) refl refl c stack root v fuel eof rest e
          (omega (
            arith,
            length-append a (Opcode.else_terminal ∷ (b ++ Opcode.block_terminal ∷ b')),
            length-append b (Opcode.block_terminal ∷ b'),
          ))

  -- With an allocator that meets every request, `read_instructions` inverts the binary format. On
  -- the encoding of any tree of instructions with no memory.size and no memory.grow, followed by a
  -- terminal, it returns that tree and stops right after the terminal: whatever follows, if the encoding is shorter than 2 ^ 58 bytes.
  pub read_instructions-Codes :
      {is : Instrs} {bs : List ℕ}
      → Codes is bs
      → (eof : Bool) (rest : List ℕ) → length bs < room
      → read_instructions alloc (at eof (bs ++ Opcode.block_terminal ∷ rest)) ≡ ok is (at eof rest)
  unfolding read_instructions
  read_instructions-Codes {is} {bs} d eof rest short =
      let extra = length (bs ++ Opcode.block_terminal ∷ rest) - suc (spend d 0) in
      let enough : length (bs ++ Opcode.block_terminal ∷ rest) + 1 ≡ spend d (suc (suc extra)) =
        omega (
          arith,
          spend-length d,
          spend_add d (suc (suc extra)),
          length-append bs (Opcode.block_terminal ∷ rest),
        ) in
      rw (meets, enough)
        (run-Codes d (record { instructions = []; allow_else = false }) [] nil nil (suc (suc extra))
            eof (Opcode.block_terminal ∷ rest) (unfold get in refl) (omega arith)
          ∙ last_lem alloc meets (suc extra) _ _ eof rest
          ∙ ap (λ r. ok r (at eof rest)) (unfold update in refl))
