-- ===== src/Parse/Instructions.antt =====
-- src/wasmjit/parse.c: read_instructions, which reads nested vectors of instructions with a stack
-- of its own. `root` is the tree that grows at `*root_instructions`. A context is an element of
-- `stack`: its pointer is a path into the tree, whose count `*n_instructions` is that of the vector
-- there. The context that the source pops is kept beside the rest of the stack, the top first.
-- `fuel` bounds the calls of `read_instruction`.
-- Where the source asserts, `undef` stands for the assertion failed.
use wasmjit.Prelude.{
  ℕ, zero, suc, ◌+◌, ◌*◌, ◌^◌, Bool, true, false, not, List, [], ◌∷◌, ◌++◌, length, Option, none,
  some, leb, ◌==◌, if◌then◌else◌,
}
use wasmjit.Ast.Instruction.{Instr, Instrs, plain, block, loop, if_, nil, count, snoc}
use wasmjit.Ast.Opcode
use wasmjit.Ast.Path.{Field, body, then_, else_, Place, get, update, last_instr}
use wasmjit.Parse.State.{undef, out_of_fuel, Reader, pure, check, bind, ◌>>◌, Allocator, request}
use wasmjit.Parse.Instruction.{read_instruction}

-- `struct StackElt`
pub record Context : Type 0 where
  pub instructions : Place
  pub allow_else : Bool

-- What follows the work on one instruction: the loops go on, or the last context is done.
pub data Next : Type 0 where
  more : Context → List Context → Instrs → Next
  done : Instrs → Next

-- The sizes of `struct StackElt` and `struct Instr`.
abbrev pub stack_elt_size : ℕ
stack_elt_size = 24

abbrev pub instr_size : ℕ
instr_size = 48

-- `stack = realloc(stack, n_ctxts * sizeof(stack[0]))`
abbrev pub resize_stack : Allocator → ℕ → Reader (Unit {0})
resize_stack alloc n_ctxts = request alloc (n_ctxts * stack_elt_size)

-- The top of the stack becomes the current context; a shrink to nothing cannot fail.
unfoldable pub pop_context : Allocator → List Context → Instrs → Reader Next
pop_context alloc [] root = pure (done root)
pop_context alloc (c ∷ []) root = pure (more c [] root)
pop_context alloc (c ∷ d ∷ cs) root = do
  resize_stack alloc (length (d ∷ cs))
  pure (more c (d ∷ cs) root)

-- The context is pushed and, since the inner loop breaks, popped again.
abbrev pub enter : Allocator → Context → List Context → Instrs → Reader Next
enter alloc c stack root = pop_context alloc (c ∷ stack) root

undefined : Reader Next
undefined s = undef

-- The last instruction of the parent must be an `if` with no else clause so far.
unfoldable pub at_open_if : Option Instrs → Bool
at_open_if none = false
at_open_if (some is) = elim (last_instr is) [ some (if_ bt ts nil) ↦ true | _ ↦ false ]

unfoldable pub start_else : Allocator → List Context → Instrs → Reader Next
unfolding pop_context undefined at_open_if
start_else alloc [] root = undefined
start_else alloc (parent ∷ stack) root = do
  resize_stack alloc (length (parent ∷ stack) + 1)
  if at_open_if (get parent.instructions root)
      then enter alloc
          (record { instructions = parent.instructions ++ else_ ∷ []; allow_else = false })
          (parent ∷ stack) root
      else undefined

-- The parent is pushed and above it the block's own context.
abbrev pub start_block : Allocator → Field → Bool → Context → List Context → Instrs → Reader Next
start_block alloc field allow_else c stack root = do
  resize_stack alloc (length stack + 2)
  enter alloc (record { instructions = c.instructions ++ field ∷ []; allow_else = allow_else })
      (c ∷ stack) root

unfoldable pub descend : Allocator → Instr → Context → List Context → Instrs → Reader Next
unfolding pop_context
descend alloc (block bt is) c stack root = start_block alloc body false c stack root
descend alloc (loop bt is) c stack root = start_block alloc body false c stack root
descend alloc (if_ bt is es) c stack root = start_block alloc then_ true c stack root
descend alloc i c stack root = pure (more c stack root)

-- The vector is grown by the instruction, and a block's vectors are read next.
unfoldable pub append_instr :
    Allocator → Option Instrs → Instr → Context → List Context → Instrs → Reader Next
unfolding descend undefined
append_instr alloc none i c stack root = undefined
append_instr alloc (some is) i c stack root = do
  check (not (leb (2 ^ 64) ((count is + 1) * instr_size)))
  request alloc ((count is + 1) * instr_size)
  descend alloc i c stack (update c.instructions (λ v. snoc v i) root)

unfoldable pub place : Allocator → Instr → Context → List Context → Instrs → Reader Next
unfolding append_instr start_else
place alloc (plain op) c stack root =
    if op == Opcode.block_terminal
    then pop_context alloc stack root
    else if op == Opcode.else_terminal
    then (check c.allow_else >> start_else alloc stack root)
    else append_instr alloc (get c.instructions root) (plain op) c stack root
place alloc i c stack root = append_instr alloc (get c.instructions root) i c stack root

abbrev pub continue : (Context → List Context → Instrs → Reader Instrs) → Next → Reader Instrs
continue run (more c stack root) = run c stack root
continue run (done root) = pure root

unfoldable pub run : Allocator → ℕ → Context → List Context → Instrs → Reader Instrs
unfolding place
run alloc zero c stack root s = out_of_fuel
run alloc (suc fuel) c stack root s =
    bind (read_instruction alloc s)
      λ i s₁. bind (place alloc i c stack root s₁) λ next. continue (run alloc fuel) next

-- Each round takes a byte at least, and one round can fail for want of input.
unfoldable pub read_instructions : Allocator → Reader Instrs
unfolding run
read_instructions alloc s =
    (resize_stack alloc 1
        >> run alloc (length s.input + 1) (record { instructions = []; allow_else = false }) [] nil)
      s
