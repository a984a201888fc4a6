-- ===== src/Parse/Format/Fuel.antt =====
-- The rounds that `read_instructions` takes on an encoded sequence.
use wasmjit.Prelude.{ℕ, suc, ◌+◌, ◌≤◌, ◌≡◌, List, ◌∷◌, ◌++◌, arith, length, length-append}
use wasmjit.Ast.Instruction.{Instr, Instrs}
use wasmjit.Ast.Opcode
use wasmjit.Parse.Format.{
  Code, plain_code, Codes, empty, simple, block_codes, loop_codes, if_codes, if_else_codes,
}

-- The fuel before a sequence is read, from that after it: one unit for each instruction and each
-- terminal or else.
unfoldable pub spend : {is : Instrs} {bs : List ℕ} → Codes is bs → ℕ → ℕ
spend empty f = f
spend (simple c d) f = suc (spend d f)
spend (block_codes bt d e) f = suc (spend d (suc (spend e f)))
spend (loop_codes bt d e) f = suc (spend d (suc (spend e f)))
spend (if_codes bt d e) f = suc (spend d (suc (spend e f)))
spend (if_else_codes bt d e g) f = suc (spend d (suc (spend e (suc (spend g f)))))

pub Code-length : {i : Instr} {a : List ℕ} → Code i a → 1 ≤ length a
Code-length (plain_code _ _ _) = omega arith
Code-length _ = omega arith

pub spend_add : {is : Instrs} {bs : List ℕ} (d : Codes is bs) (f : ℕ) → spend d f ≡ spend d 0 + f
unfolding spend
spend_add empty f = omega arith
spend_add (simple c d) f = omega (arith, spend_add d f)
spend_add (block_codes bt d e) f =
    omega (arith, spend_add d (suc (spend e f)), spend_add d (suc (spend e 0)), spend_add e f)
spend_add (loop_codes bt d e) f =
    omega (arith, spend_add d (suc (spend e f)), spend_add d (suc (spend e 0)), spend_add e f)
spend_add (if_codes bt d e) f =
    omega (arith, spend_add d (suc (spend e f)), spend_add d (suc (spend e 0)), spend_add e f)
spend_add (if_else_codes bt d e g) f = omega (
  arith,
  spend_add d (suc (spend e (suc (spend g f)))),
  spend_add d (suc (spend e (suc (spend g 0)))),
  spend_add e (suc (spend g f)),
  spend_add e (suc (spend g 0)),
  spend_add g f,
)

-- Each unit of fuel is for a byte.
pub spend-length : {is : Instrs} {bs : List ℕ} (d : Codes is bs) → spend d 0 ≤ length bs
unfolding spend
spend-length empty = omega arith
spend-length (simple {a = a} {b = b} c d) =
    omega (arith, spend-length d, Code-length c, length-append a b)
spend-length (block_codes bt {a = a} {b = b} d e) = omega (
  arith,
  spend-length d,
  spend-length e,
  spend_add d (suc (spend e 0)),
  length-append a (Opcode.block_terminal ∷ b),
)
spend-length (loop_codes bt {a = a} {b = b} d e) = omega (
  arith,
  spend-length d,
  spend-length e,
  spend_add d (suc (spend e 0)),
  length-append a (Opcode.block_terminal ∷ b),
)
spend-length (if_codes bt {a = a} {b = b} d e) = omega (
  arith,
  spend-length d,
  spend-length e,
  spend_add d (suc (spend e 0)),
  length-append a (Opcode.block_terminal ∷ b),
)
spend-length (if_else_codes bt {a = a} {b = b} {c = c} d e g) = omega (
  arith,
  spend-length d,
  spend-length e,
  spend-length g,
  spend_add d (suc (spend e (suc (spend g 0)))),
  spend_add e (suc (spend g 0)),
  length-append a (Opcode.else_terminal ∷ (b ++ Opcode.block_terminal ∷ c)),
  length-append b (Opcode.block_terminal ∷ c),
)
