-- ===== src/Compile/Emits/Stack.antt =====
-- The postcondition for the static stack of src/wasmjit/compile.c.
use wasmjit.Prelude.{
  ℕ, ◌+◌, ◌-◌, ◌<◌, ◌≡◌, refl, Bool, List, [], ◌∷◌, length, drop, All, All-drop, arith, leb, ◌∙◌,
}
use wasmjit.Compile.State.{State, StackElt, assert, Allocator, set_size, ◌>>◌}
use wasmjit.Compile.Stack.{
  set_stack, value, is_value_type, stack_elt_size, push_stack, push_label, peek_stack,
  stack_truncate, pop_stack, pop_type, check_top, take_top, top_type, tail,
}
use wasmjit.Compile.Emits.{EltIn, Placed, holds, Yields, Anything, Emits}
use wasmjit.Compile.Emits.Rules.{
  Later-output, Yields-bind, Yields-wrong, Yields-pure, ensure-Yields, assert-Yields, Yields-map,
  emits_rules,
}
use wasmjit.Compile.Emits.Output.{set_size-Emits, output_rules}

-- Another stack whose labels are there.
pub set_stack-Yields :
    (stack : List StackElt) (s : State)
    → (Placed s → All (EltIn (length s.labels)) stack)
    → Yields Anything (set_stack stack) s
set_stack-Yields stack s h = record {
  at = λ p.
      holds
        (record {
          memrefs_in = p.memrefs_in;
          branches_in = p.branches_in;
          labels_in = p.labels_in;
          stack_in = h p;
        })
        (Later-output _ _ (omega arith) refl) tt;
}

-- A stack that has its labels from that of an earlier state.
earlier_stack-Yields :
    (stack : List StackElt) (s t : State)
    → t ≡ s
    → (Placed s → All (EltIn (length s.labels)) stack)
    → Yields Anything (set_stack stack) t
earlier_stack-Yields stack s t same h = rw same (set_stack-Yields stack s h)

module _ (alloc : Allocator) where
  -- Tests, and then a stack that has its labels from the state that they leave as it is.
  resized-Yields :
      (n size : ℕ) (stack : List StackElt) (s : State)
      → (Placed s → All (EltIn (length s.labels)) stack)
      → Yields Anything (set_size alloc n size >> set_stack stack) s
  resized-Yields n size stack s h = record {
    at =
        (Yields-bind {Q = λ _ t. t ≡ s} (ensure-Yields (alloc s n size) s)
          λ _ t _ same. earlier_stack-Yields stack s t same h).at;
  }

  pub set_size-Yields : (n size : ℕ) (s : State) → Yields (λ _ t. t ≡ s) (set_size alloc n size) s
  set_size-Yields n size s = record { at = (ensure-Yields (alloc s n size) s).at }

  asserted-Yields :
      (b : Bool) (n size : ℕ) (stack : List StackElt) (s : State)
      → (Placed s → All (EltIn (length s.labels)) stack)
      → Yields Anything (assert b >> set_size alloc n size >> set_stack stack) s
  asserted-Yields b n size stack s h =
      Yields-bind {Q = λ _ t. t ≡ s}
        (Yields-bind {Q = λ _ t. t ≡ s} (assert-Yields b s)
          λ _ t _ same. Yields-map (λ _ _ same'. same' ∙ same) (set_size-Yields n size t))
        λ _ t _ same. earlier_stack-Yields stack s t same h

  pub push_stack-Emits : (type : ℕ) → Emits (push_stack alloc type)
  unfolding push_stack
  push_stack-Emits type s = record {
    at =
        (asserted-Yields (is_value_type type) (length s.stack + 1) stack_elt_size
          (value type ∷ s.stack) s (λ q. (tt, q.stack_in))).at;
  }

  -- A new label is one of those that there are.
  pub push_label-Yields :
      (arity continuation_idx : ℕ) (s : State)
      → continuation_idx < length s.labels
      → Yields Anything (push_label alloc arity continuation_idx) s
  unfolding push_label
  push_label-Yields arity continuation_idx s h = record {
    at = (resized-Yields _ _ _ s (λ q. (h, q.stack_in))).at;
  }

  pub stack_truncate-Emits : (n : ℕ) → Emits (stack_truncate alloc n)
  unfolding stack_truncate
  stack_truncate-Emits n s = record {
    at =
        (asserted-Yields (leb n (length s.stack)) n stack_elt_size
          (drop (length s.stack - n) s.stack) s
          (λ q. All-drop (EltIn (length s.labels)) (length s.stack - n) s.stack q.stack_in)).at;
  }

  tail-Yields :
      (stack : List StackElt) (s : State)
      → (Placed s → All (EltIn (length s.labels)) stack)
      → Yields Anything (tail alloc stack) s
  tail-Yields [] s h = Yields-wrong s
  tail-Yields (e ∷ es) s h = resized-Yields _ _ es s (λ q. (h q).1)

  pub pop_stack-Emits : Emits (pop_stack alloc)
  unfolding pop_stack
  pop_stack-Emits s = record { at = (tail-Yields s.stack s (λ q. q.stack_in)).at }

top_type-Emits : (stack : List StackElt) → Emits (top_type stack)
top_type-Emits [] s = Yields-wrong s
top_type-Emits (e ∷ es) s = Yields-pure e.type s tt

pub peek_stack-Emits : Emits peek_stack
unfolding peek_stack
peek_stack-Emits s = record { at = (top_type-Emits s.stack s).at }

pub check_top-Emits : (type : ℕ) → Emits (check_top type)
unfolding check_top
check_top-Emits type = search (emits_rules, peek_stack-Emits)

pub pop_type-Emits : (alloc : Allocator) (type : ℕ) → Emits (pop_type alloc type)
unfolding pop_type
pop_type-Emits alloc type = search (emits_rules, peek_stack-Emits, pop_stack-Emits)

pub take_top-Emits : (alloc : Allocator) (type : ℕ) → Emits (take_top alloc type)
unfolding take_top
take_top-Emits alloc type = search (emits_rules, check_top-Emits, pop_stack-Emits)

pub ruleset stack_rules = (
  output_rules, push_stack-Emits, stack_truncate-Emits, pop_stack-Emits, peek_stack-Emits,
  check_top-Emits, pop_type-Emits, take_top-Emits,
)
