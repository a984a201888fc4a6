-- ===== src/Compile/Sequence.antt =====
-- src/wasmjit/compile.c: wasmjit_compile_instructions, which compiles nested vectors of instructions
-- with a stack of its own. An `Md` is a `struct InstructionMD`: the instructions from `cont` on, and
-- what its initiator and its data ask for where they end. The one that the source pops is kept
-- beside the rest of the stack, the top first. `fuel` bounds the rounds of the two loops, which are
-- one loop here. The printing under DEBUG_COMPILE is left out.
use wasmjit.Prelude.{
  ℕ, zero, suc, ◌+◌, ◌-◌, List, [], ◌∷◌, ◌++◌, none, some, length, ltb, ◌==◌, if◌then◌else◌,
}
use wasmjit.Prelude.Overwrite.{overwrite}
use wasmjit.Ast.Valtype
use wasmjit.Ast.Instruction.{Instr, Instrs, block, loop, if_, nil, cons}
use wasmjit.Compile.State.{
  StackElt, done, out_of_fuel, Emit, pure, assert, get, ◌>>=◌, ◌>>◌, Allocator, set_size, le_bytes,
  out,
}
use wasmjit.Compile.Stack.{set_stack, push_label, stack_truncate, take_top, stack_depth}
use wasmjit.Compile.Control.{Env, patch}
use wasmjit.Compile.Instruction.{compile_instruction}

-- The initiator and the union `data`: an `if_` has `did_else` 0, and an `else_` 1.
pub data Footer : Type 0 where
  root : Footer
  end_block : (blocktype label_idx stack_idx : ℕ) → Footer
  end_loop : (blocktype label_idx stack_idx output_idx : ℕ) → Footer
  end_then :
      (blocktype : ℕ) (instructions_else : Instrs) (label_idx stack_idx jump_to_else_offset : ℕ)
      → Footer
  end_else : (blocktype label_idx stack_idx jump_to_after_else_offset : ℕ) → Footer

pub record Md : Type 0 where
  pub instructions : Instrs
  pub footer : Footer

abbrev pub md_size : ℕ
md_size = 72

-- `max_stack`, and what the loops go on with.
pub data Next : Type 0 where
  more : ℕ → Md → List Md → Next
  finished : ℕ → Next

-- The top is taken off the stack, which is reallocated unless it is empty then.
unfoldable pub pop_md : Allocator → ℕ → List Md → Emit Next
pop_md alloc max [] = pure (finished max)
pop_md alloc max (md ∷ []) = pure (more max md [])
pop_md alloc max (md ∷ next ∷ rest) = do
  set_size alloc (length (next ∷ rest)) md_size
  pure (more max md (next ∷ rest))

-- Both are pushed, and the first is popped again.
abbrev pub enter : Allocator → ℕ → Md → Md → List Md → Emit Next
enter alloc max inner outer rest = do
  set_size alloc (length rest + 2) md_size
  pop_md alloc max (inner ∷ outer ∷ rest)

abbrev pub arity_of : ℕ → ℕ
arity_of blocktype = if blocktype == Valtype.null then 0 else 1

-- INC_LABELS
unfoldable pub inc_labels : Allocator → Emit (Unit {0})
inc_labels alloc s =
    (set_size alloc (length s.labels + 1) 8 >> λ t.
    done tt (record t { labels = t.labels ++ none ∷ [] }))
      s

abbrev pub max_of : ℕ → ℕ → ℕ
max_of a b = if ltb a b then b else a

-- The depth is recorded where `max_stack` is asked for.
abbrev pub record_depth : Env → ℕ → Emit ℕ
record_depth env max s = done (if env.check_stack then max_of max (stack_depth s.stack) else max) s

-- A block or loop: its label, and what its end needs.
unfoldable pub start_block :
    Allocator → Env → ℕ → ℕ → (ℕ → ℕ → ℕ → Footer) → Instrs → Md → List Md → Emit Next
unfolding pop_md inc_labels push_label
start_block alloc env max arity footer body outer rest = do
  s ← get
  inc_labels alloc
  push_label alloc arity (length s.labels)
  t ← get
  max' ← record_depth env max
  enter alloc max'
      (record {
        instructions = body;
        footer = footer (length s.labels) (length s.stack) (length t.output);
      })
      outer rest

abbrev pub block_footer : ℕ → ℕ → ℕ → ℕ → Footer
block_footer blocktype label_idx stack_idx output_idx = end_block blocktype label_idx stack_idx

abbrev pub then_footer : ℕ → Instrs → ℕ → ℕ → ℕ → ℕ → Footer
then_footer blocktype elses offset label_idx stack_idx output_idx =
    end_then blocktype elses label_idx stack_idx offset

-- The jump over the then clause, whose operand is at `offset`, and that clause.
unfoldable pub start_then : Allocator → Env → ℕ → ℕ → Instrs → Instrs → ℕ → Md → List Md → Emit Next
unfolding start_block
start_then alloc env max blocktype thens elses offset outer rest = do
  out alloc (0x0f ∷ 0x84 ∷ 0x90 ∷ 0x90 ∷ 0x90 ∷ 0x90 ∷ [])
  start_block alloc env max (arity_of blocktype) (then_footer blocktype elses offset) thens outer
      rest

unfoldable pub start_if : Allocator → Env → ℕ → ℕ → Instrs → Instrs → Md → List Md → Emit Next
unfolding start_then
start_if alloc env max blocktype thens elses outer rest = do
  take_top alloc Valtype.i32
  out alloc (0x58 ∷ [])
  out alloc (0x85 ∷ 0xc0 ∷ [])
  s ← get
  start_then alloc env max blocktype thens elses (length s.output + 2) outer rest

-- One instruction; `outer` has the ones after it.
unfoldable pub compile_next : Allocator → Env → ℕ → Instr → Md → List Md → Emit Next
unfolding start_block start_if
compile_next alloc env max (block blocktype body) outer rest =
    start_block alloc env max (arity_of blocktype) (block_footer blocktype) body outer rest
compile_next alloc env max (loop blocktype body) outer rest =
    start_block alloc env max 0 (end_loop blocktype) body outer rest
compile_next alloc env max (if_ blocktype thens elses) outer rest =
    start_if alloc env max blocktype thens elses outer rest
compile_next alloc env max instruction outer rest = do
  compile_instruction alloc env instruction
  max' ← record_depth env max
  pure (more max' outer rest)

-- The element on top, the former label where a block has a result, gets the result's type.
abbrev pub retype : ℕ → ℕ → List StackElt → List StackElt
retype zero type stack = stack
retype (suc arity) type [] = []
retype (suc arity) type (e ∷ es) = record e { type = type } ∷ es

-- The values of the block give way to its result, and its label is placed in the code.
unfoldable pub close : Allocator → ℕ → ℕ → ℕ → ℕ → Emit (Unit {0})
unfolding stack_truncate
close alloc blocktype label_idx stack_idx place = do
  stack_truncate alloc (stack_idx + arity_of blocktype)
  s ← get
  set_stack (retype (arity_of blocktype) blocktype s.stack)
  assert (ltb label_idx (length s.labels))
  λ t. done tt (record t { labels = overwrite t.labels label_idx (some place ∷ []) })

-- A jump's operand, now that its target is the end of the output.
abbrev pub patch_here : ℕ → Emit (Unit {0})
patch_here offset = do s ← get; patch offset (le_bytes 4 (length s.output - offset - 4))

-- A block that ends here.
unfoldable pub close_here : Allocator → ℕ → ℕ → ℕ → ℕ → List Md → Emit Next
unfolding pop_md close
close_here alloc max blocktype label_idx stack_idx rest = do
  s ← get
  close alloc blocktype label_idx stack_idx (length s.output)
  pop_md alloc max rest

-- The jump over the else clause, and that clause.
unfoldable pub start_else : Allocator → ℕ → ℕ → Instrs → ℕ → ℕ → ℕ → ℕ → List Md → Emit Next
unfolding pop_md stack_truncate
start_else alloc max blocktype elses label_idx stack_idx jump_to_else_offset
      jump_to_after_else_offset rest =
    do
      out alloc (0xe9 ∷ 0x90 ∷ 0x90 ∷ 0x90 ∷ 0x90 ∷ [])
      patch_here jump_to_else_offset
      stack_truncate alloc (stack_idx + 1)
      set_size alloc (length rest + 1) md_size
      pop_md alloc max (
          record {
            instructions = elses;
            footer = end_else blocktype label_idx stack_idx jump_to_after_else_offset;
          }
          ∷ rest)

-- The end of a vector, with what its initiator asks for there.
unfoldable pub compile_footer : Allocator → ℕ → Footer → List Md → Emit Next
unfolding close_here start_else
compile_footer alloc max root rest = pop_md alloc max rest
compile_footer alloc max (end_block blocktype label_idx stack_idx) rest =
    close_here alloc max blocktype label_idx stack_idx rest
compile_footer alloc max (end_loop blocktype label_idx stack_idx output_idx) rest = do
  close alloc blocktype label_idx stack_idx output_idx
  pop_md alloc max rest
compile_footer alloc max (end_then blocktype nil label_idx stack_idx jump_to_else_offset) rest = do
  patch_here jump_to_else_offset
  close_here alloc max blocktype label_idx stack_idx rest
compile_footer alloc max (end_then blocktype (cons i is) label_idx stack_idx jump_to_else_offset)
      rest =
    do
      s ← get
      start_else alloc max blocktype (cons i is) label_idx stack_idx jump_to_else_offset
          (length s.output + 1) rest
compile_footer alloc max (end_else blocktype label_idx stack_idx jump_to_after_else_offset) rest =
    do patch_here jump_to_after_else_offset; close_here alloc max blocktype label_idx stack_idx rest

unfoldable pub compile_step : Allocator → Env → ℕ → Md → List Md → Emit Next
unfolding compile_next compile_footer
compile_step alloc env max md rest = elim md.instructions [
  | nil ↦ compile_footer alloc max md.footer rest
  | cons i is ↦ compile_next alloc env max i (record md { instructions = is }) rest
]

-- The rounds; the result is the depth that the stack reached.
unfoldable pub compile_rounds : Allocator → Env → ℕ → Next → Emit ℕ
unfolding compile_step
compile_rounds alloc env fuel (finished max) = pure max
compile_rounds alloc env zero (more max md rest) = λ s. out_of_fuel
compile_rounds alloc env (suc fuel) (more max md rest) =
    compile_step alloc env max md rest >>= compile_rounds alloc env fuel

-- The stack starts with the function's instructions.
unfoldable pub compile_instructions : Allocator → Env → ℕ → Instrs → Emit ℕ
unfolding compile_rounds
compile_instructions alloc env fuel instructions = do
  set_size alloc 1 md_size
  compile_rounds alloc env fuel (more 0 (record { instructions = instructions; footer = root }) [])
