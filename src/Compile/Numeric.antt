-- ===== src/Compile/Numeric.antt =====
-- src/wasmjit/compile.c: the numeric instructions of wasmjit_compile_instruction, in groups that
-- share their code. A group's cases are the entries of a table here.
pub mod Cases
use wasmjit.Prelude.{ℕ, List, [], ◌∷◌, ◌==◌, if◌then◌else◌}
use wasmjit.Ast.Valtype
use wasmjit.Compile.State.{Emit, skip, unchecked, ◌>>=◌, ◌>>◌, Allocator, out, outs}
use wasmjit.Compile.Stack.{push_stack, check_top, take_top}

-- A case with its type and what its own code is.
pub data Numeric : Type 0 where
  eqz : Numeric
  compare : (stack_type : ℕ) (set : List ℕ) → Numeric
  compare_f64 : (before after : List (List ℕ)) → Numeric
  arithmetic : (stack_type : ℕ) (codes : List (List ℕ)) → Numeric
  divide : (stack_type : ℕ) (codes : List (List ℕ)) → Numeric
  shift : (stack_type : ℕ) (code : List ℕ) → Numeric
  negate_f64 : Numeric
  arithmetic_f64 : (code : List ℕ) → Numeric
  convert : (from to : ℕ) (codes : List (List ℕ)) → Numeric

-- Instructions with the prefix for operands of 64 bits where that is the type.
unfoldable pub outs_wide : Allocator → ℕ → List (List ℕ) → Emit (Unit {0})
outs_wide alloc stack_type [] = skip
outs_wide alloc stack_type (code ∷ codes) = do
  if stack_type == Valtype.i64 then out alloc (0x48 ∷ []) else skip
  out alloc code
  outs_wide alloc stack_type codes

unfoldable pub emit_numeric : Allocator → Numeric → Emit (Unit {0})
unfolding outs_wide
emit_numeric alloc eqz = do
  check_top Valtype.i32
  outs alloc (
      (0x31 ∷ 0xc0 ∷ [])
      ∷ (0x83 ∷ 0x3c ∷ 0x24 ∷ [])
      ∷ (0x00 ∷ [])
      ∷ (0x0f ∷ 0x94 ∷ 0xc0 ∷ [])
      ∷ (0x89 ∷ 0x04 ∷ 0x24 ∷ [])
      ∷ [])
emit_numeric alloc (compare stack_type set) = do
  take_top alloc stack_type
  take_top alloc stack_type
  out alloc (0x5f ∷ [])
  outs_wide alloc stack_type ((0x31 ∷ 0xc0 ∷ []) ∷ (0x39 ∷ 0x3c ∷ 0x24 ∷ []) ∷ [])
  out alloc set
  outs_wide alloc stack_type ((0x89 ∷ 0x04 ∷ 0x24 ∷ []) ∷ [])
  unchecked (push_stack alloc Valtype.i32)
emit_numeric alloc (compare_f64 before after) = do
  take_top alloc Valtype.f64
  take_top alloc Valtype.f64
  outs alloc (
      (0xf2 ∷ 0x0f ∷ 0x10 ∷ 0x04 ∷ 0x24 ∷ [])
      ∷ (0x48 ∷ 0x83 ∷ 0xc4 ∷ 0x08 ∷ [])
      ∷ (0x31 ∷ 0xc0 ∷ [])
      ∷ [])
  outs alloc before
  out alloc (0x66 ∷ 0x0f ∷ 0x2e ∷ 0x04 ∷ 0x24 ∷ [])
  outs alloc after
  out alloc (0x48 ∷ 0x89 ∷ 0x04 ∷ 0x24 ∷ [])
  unchecked (push_stack alloc Valtype.i32)
emit_numeric alloc (arithmetic stack_type codes) = do
  take_top alloc stack_type
  out alloc (0x58 ∷ [])
  check_top stack_type
  outs_wide alloc stack_type codes
emit_numeric alloc (divide stack_type codes) = do
  take_top alloc stack_type
  check_top stack_type
  out alloc (0x5f ∷ [])
  outs_wide alloc stack_type codes
emit_numeric alloc (shift stack_type code) = do
  out alloc (0x59 ∷ [])
  take_top alloc stack_type
  check_top stack_type
  outs_wide alloc stack_type (code ∷ [])
emit_numeric alloc negate_f64 = do
  check_top Valtype.f64
  out alloc (0x48 ∷ 0x0f ∷ 0xba ∷ 0x3c ∷ 0x24 ∷ 0x3f ∷ [])
emit_numeric alloc (arithmetic_f64 code) = do
  take_top alloc Valtype.f64
  check_top Valtype.f64
  outs alloc (
      (0xf2 ∷ 0x0f ∷ 0x10 ∷ 0x04 ∷ 0x24 ∷ [])
      ∷ (0x48 ∷ 0x83 ∷ 0xc4 ∷ 0x08 ∷ [])
      ∷ code
      ∷ (0xf2 ∷ 0x0f ∷ 0x11 ∷ 0x04 ∷ 0x24 ∷ [])
      ∷ [])
emit_numeric alloc (convert from to codes) = do
  take_top alloc from
  outs alloc codes
  push_stack alloc to
