-- ===== src/Compile/Branch.antt =====
-- src/wasmjit/compile.c: emit_br_code, the jump to a label with the values that it takes.
pub mod Search
use wasmjit.Prelude.{
  ℕ, ◌+◌, ◌-◌, ◌*◌, ◌%◌, ◌^◌, Bool, List, [], ◌∷◌, Option, none, some, length, ltb, leb, ◌==◌,
  if◌then◌else◌,
}
use wasmjit.Compile.State.{
  StackElt, Label, Emit, skip, ensure, assert, get, found, ◌>>=◌, ◌>>◌, Allocator, out, out_uint32,
  add_branch,
}
use wasmjit.Compile.Stack.{is_label}

-- A label that was found, and the elements above it.
pub record Target : Type 0 where
  pub above : ℕ
  pub data_of : Option Label

-- The search from the top, past `labelidx` labels. Where there is none, it ends on the bottom
-- element, whatever that is.
unfoldable pub find_label : ℕ → List StackElt → ℕ → Option Target
find_label above [] labelidx = none
find_label above (e ∷ []) labelidx = some (record { above = above; data_of = e.label })
find_label above (e ∷ f ∷ es) labelidx =
    let deeper = find_label (above + 1) (f ∷ es) (labelidx - 1) in
    let next = find_label (above + 1) (f ∷ es) labelidx in
    if is_label e
    then (if labelidx == 0 then some (record { above = above; data_of = e.label }) else deeper)
    else next

-- Eight times a number, as an `int32_t`.
abbrev pub fits_int32 : ℕ → Bool
fits_int32 n = ltb n (2 ^ 31)

-- `memmove` of the values for the label to the bottom of what the label has above it.
unfoldable pub emit_move : Allocator → ℕ → ℕ → Emit (Unit {0})
emit_move alloc arity stack_shift = do
  ensure (fits_int32 ((arity - 1) * 8))
  out alloc (0x48 ∷ 0x89 ∷ 0xe6 ∷ [])
  if arity - 1 == 0
      then skip
      else (do out alloc (0x48 ∷ 0x03 ∷ 0x34 ∷ 0x25 ∷ []); out_uint32 alloc ((arity - 1) * 8))
  out alloc (0x48 ∷ 0x89 ∷ 0xe7 ∷ [])
  if arity - 1 + stack_shift == 0 then skip else (do
    ensure (fits_int32 ((arity - 1) * 8 + stack_shift))
    out alloc (0x48 ∷ 0x81 ∷ 0xc7 ∷ [])
    out_uint32 alloc ((arity - 1) * 8 + stack_shift))
  out alloc (0x48 ∷ 0xc7 ∷ 0xc1 ∷ [])
  ensure (fits_int32 arity)
  out_uint32 alloc arity
  out alloc (0xfd ∷ [])
  out alloc (0x48 ∷ 0xa5 ∷ [])
  out alloc (0xfc ∷ [])

-- The jump, whose operand is not known yet.
unfoldable pub emit_jump : Allocator → ℕ → Emit (Unit {0})
emit_jump alloc continuation_idx = do
  s ← get
  out alloc (0xe9 ∷ 0x90 ∷ 0x90 ∷ 0x90 ∷ 0x90 ∷ [])
  add_branch alloc (length s.output) continuation_idx

-- The elements above a label that are dropped: what `olabelidx + 1` gives has 32 bits.
abbrev pub dropped : ℕ → ℕ → ℕ → ℕ
dropped labelidx arity above = above + 1 - (labelidx + 1) % 2 ^ 32 - arity

-- The values that the label takes stay, and the others above it are dropped.
unfoldable pub emit_discard : Allocator → ℕ → Target → Label → Emit (Unit {0})
unfolding emit_move
emit_discard alloc labelidx target label = do
  let extra = dropped labelidx label.arity target.above
  assert (leb ((labelidx + 1) % 2 ^ 32 + label.arity) (target.above + 1))
  ensure (fits_int32 (extra * 8))
  if label.arity == 0 then skip else emit_move alloc label.arity (extra * 8)
  if extra == 0
      then skip
      else (do out alloc (0x48 ∷ 0x81 ∷ 0xc4 ∷ []); out_uint32 alloc (extra * 8))

unfoldable pub emit_br_code : Allocator → ℕ → Emit (Unit {0})
unfolding find_label emit_discard emit_jump
emit_br_code alloc labelidx = do
  s ← get
  target ← found (find_label 0 s.stack labelidx)
  label ← found target.data_of
  emit_discard alloc labelidx target label
  emit_jump alloc label.continuation_idx
