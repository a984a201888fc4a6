-- ===== src/Compile/Stack.antt =====
-- src/wasmjit/compile.c: the static stack, which holds the types of the values that the code has on
-- the machine's stack, and the labels between them.
use wasmjit.Prelude.{
  ℕ, suc, ◌+◌, ◌-◌, Bool, ◌||◌, List, [], ◌∷◌, none, some, length, drop, leb, ◌==◌, if◌then◌else◌,
}
use wasmjit.Ast.Valtype
use wasmjit.Compile.State.{
  StackElt, stack_label, done, Emit, pure, wrong, assert, unchecked, ◌>>=◌, ◌>>◌, Allocator,
  set_size,
}

abbrev pub is_value_type : ℕ → Bool
is_value_type t = t == Valtype.i32 || t == Valtype.i64 || t == Valtype.f32 || t == Valtype.f64

abbrev pub is_label : StackElt → Bool
is_label e = e.type == stack_label

abbrev pub stack_elt_size : ℕ
stack_elt_size = 24

abbrev pub set_stack : List StackElt → Emit (Unit {0})
set_stack stack s = done tt (record s { stack = stack })

abbrev pub value : ℕ → StackElt
value type = record { type = type; label = none }

unfoldable pub push_stack : Allocator → ℕ → Emit (Unit {0})
push_stack alloc type s =
    (assert (is_value_type type)
        >> set_size alloc (length s.stack + 1) stack_elt_size
        >> set_stack (value type ∷ s.stack))
      s

unfoldable pub push_label : Allocator → ℕ → ℕ → Emit (Unit {0})
push_label alloc arity continuation_idx s =
    (set_size alloc (length s.stack + 1) stack_elt_size
        >> set_stack (
            record {
              type = stack_label;
              label = some (record { arity = arity; continuation_idx = continuation_idx });
            }
            ∷ s.stack))
      s

abbrev pub top_type : List StackElt → Emit ℕ
top_type [] = wrong
top_type (e ∷ es) = pure e.type

unfoldable pub peek_stack : Emit ℕ
peek_stack s = top_type s.stack s

-- `stack_truncate` to `n` elements; to more than there are, it would leave elements that are not set.
unfoldable pub stack_truncate : Allocator → ℕ → Emit (Unit {0})
stack_truncate alloc n s =
    (assert (leb n (length s.stack))
        >> set_size alloc n stack_elt_size
        >> set_stack (drop (length s.stack - n) s.stack))
      s

abbrev pub tail : Allocator → List StackElt → Emit (Unit {0})
tail alloc [] = wrong
tail alloc (e ∷ es) = set_size alloc (length es) stack_elt_size >> set_stack es

unfoldable pub pop_stack : Allocator → Emit (Unit {0})
pop_stack alloc s = tail alloc s.stack s

-- `assert(peek_stack(sstack) == type); if (!pop_stack(sstack)) goto error;`
unfoldable pub pop_type : Allocator → ℕ → Emit (Unit {0})
unfolding peek_stack pop_stack
pop_type alloc type = do t ← peek_stack; assert (t == type); pop_stack alloc

-- `assert(peek_stack(sstack) == type);`
unfoldable pub check_top : ℕ → Emit (Unit {0})
unfolding peek_stack
check_top type = do t ← peek_stack; assert (t == type)

-- `assert(peek_stack(sstack) == stack_type); pop_stack(sstack);`
unfoldable pub take_top : Allocator → ℕ → Emit (Unit {0})
unfolding check_top
take_top alloc stack_type = do check_top stack_type; unchecked (pop_stack alloc)

-- The elements that are no labels.
unfoldable pub stack_depth : List StackElt → ℕ
stack_depth [] = 0
stack_depth (e ∷ es) = if is_label e then stack_depth es else suc (stack_depth es)
