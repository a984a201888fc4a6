-- ===== src/Compile/Frame.antt =====
-- src/wasmjit/compile.c: the places that wasmjit_compile_function gives to the arguments and the
-- other locals. An argument in a register and a local are below the frame pointer, the other
-- arguments above it, over the return address.
pub mod Layout
pub mod Places
use wasmjit.Prelude.{
  ℕ, zero, suc, ◌+◌, ◌-◌, ◌*◌, ◌^◌, ◌&&◌, ◌||◌, List, [], ◌∷◌, ◌++◌, length, take, leb, ltb, ◌==◌,
  if◌then◌else◌,
}
use wasmjit.Ast.Valtype
use wasmjit.Ast.Section.{FuncType, CodeLocal}
use wasmjit.Compile.State.{Emit, pure, skip, ensure, ◌>>=◌, ◌>>◌, Allocator, set_size}
use wasmjit.Compile.Control.{LocalMd, FpOffset, below, above}
use wasmjit.Compile.Call.{Passed, none_passed, pass, pass_all, is_int}

pub record Frame : Type 0 where
  pub locals_md : List LocalMd
  pub n_frame_locals : ℕ

abbrev pub args_of : FuncType → Frame → List LocalMd
args_of type frame = take (length type.input_types) frame.locals_md

-- The words below the frame pointer that the arguments take.
abbrev pub in_registers : Passed → ℕ
in_registers p = p.n_movs + p.n_xmm_movs

abbrev pub place_of : ℕ → Passed → FpOffset
place_of t p =
    if is_int t && ltb p.n_movs 6
    then below ((1 + p.n_movs + p.n_xmm_movs) * 8)
    else if (t == Valtype.f32 || t == Valtype.f64) && ltb p.n_xmm_movs 8
    then below ((1 + p.n_movs + p.n_xmm_movs) * 8)
    else above (p.n_stack * 8 + 16)

-- A distance as an `int32_t`.
abbrev pub fits : FpOffset → Emit (Unit {0})
fits (below n) = skip
fits (above n) = ensure (ltb n (2 ^ 31))

-- The arguments, after the ones before them.
unfoldable pub place_args : List ℕ → Passed → Emit (List LocalMd)
place_args [] p = pure []
place_args (t ∷ ts) p = do
  fits (place_of t p)
  locals_md ← place_args ts (pass t p)
  pure (record { valtype = t; fp_offset = place_of t p } ∷ locals_md)

-- The types of the locals in a code section's entry, each group's as often as it says.
abbrev pub repeated : ℕ → ℕ → List ℕ
repeated zero t = []
repeated (suc n) t = t ∷ repeated n t

unfoldable pub local_types : List CodeLocal → List ℕ
local_types [] = []
local_types (l ∷ ls) = repeated l.count l.valtype ++ local_types ls

-- The locals from the `i`th on, below so many words.
unfoldable pub place_locals : ℕ → ℕ → List ℕ → Emit (List LocalMd)
place_locals words i [] = pure []
place_locals words i (t ∷ ts) = do
  ensure (leb ((1 + words + i) * 8) (2 ^ 31))
  locals_md ← place_locals words (i + 1) ts
  pure (record { valtype = t; fp_offset = below ((1 + words + i) * 8) } ∷ locals_md)

abbrev pub locals_md_size : ℕ
locals_md_size = 8

unfoldable pub frame_of : Allocator → FuncType → List CodeLocal → Emit Frame
unfolding place_args local_types place_locals
frame_of alloc type locals = do
  let types = local_types locals
  let words = in_registers (pass_all type.input_types none_passed)
  let n_locals = length type.input_types + length types
  if n_locals == 0 then skip else set_size alloc n_locals locals_md_size
  args_md ← place_args type.input_types none_passed
  locals_md ← place_locals words 0 types
  ensure (leb (length types + words) (2 ^ 64 - 1))
  pure (record { locals_md = args_md ++ locals_md; n_frame_locals = words + length types })
