-- ===== src/Compile/Variable.antt =====
-- src/wasmjit/compile.c: the cases of wasmjit_compile_instruction for drop and select, local and
-- global variables, and constants.
use wasmjit.Prelude.{ℕ, ◌||◌, List, [], ◌∷◌, length, get_elem?, ltb, ◌==◌, if◌then◌else◌, some}
use wasmjit.Ast.Valtype
use wasmjit.Compile.State.{
  memref_global, Emit, wrong, assert, found, unchecked, ◌>>=◌, ◌>>◌, Allocator, le_bytes, negative,
  out, outs, out_uint32, out_memref,
}
use wasmjit.Compile.Stack.{push_stack, pop_stack, pop_type, check_top}
use wasmjit.Compile.Control.{Env, LocalMd, FpOffset, below, above}

unfoldable pub emit_drop : Allocator → Emit (Unit {0})
emit_drop alloc = do out alloc (0x48 ∷ 0x83 ∷ 0xc4 ∷ 0x08 ∷ []); pop_stack alloc

unfoldable pub emit_select : Allocator → Emit (Unit {0})
emit_select alloc = do
  pop_type alloc Valtype.i32
  pop_stack alloc
  outs alloc (
      (0x58 ∷ [])
      ∷ (0x5a ∷ [])
      ∷ (0x85 ∷ 0xc0 ∷ [])
      ∷ (0x75 ∷ 0x04 ∷ [])
      ∷ (0x48 ∷ 0x89 ∷ 0x14 ∷ 0x24 ∷ [])
      ∷ [])

-- An `int32_t`, as the four bytes hold it.
abbrev pub fp_uint32 : FpOffset → ℕ
fp_uint32 (below n) = negative 32 n
fp_uint32 (above n) = n

unfoldable pub emit_get_local : Allocator → List LocalMd → ℕ → Emit (Unit {0})
emit_get_local alloc locals_md localidx = do
  assert (ltb localidx (length locals_md))
  local ← found (get_elem? locals_md localidx)
  unchecked (push_stack alloc local.valtype)
  out alloc (0xff ∷ 0xb5 ∷ [])
  out_uint32 alloc (fp_uint32 local.fp_offset)

unfoldable pub emit_set_local : Allocator → List LocalMd → ℕ → Emit (Unit {0})
emit_set_local alloc locals_md localidx = do
  local ← found (get_elem? locals_md localidx)
  check_top local.valtype
  out alloc (0x8f ∷ 0x85 ∷ [])
  out_uint32 alloc (fp_uint32 local.fp_offset)
  unchecked (pop_stack alloc)

unfoldable pub emit_tee_local : Allocator → List LocalMd → ℕ → Emit (Unit {0})
emit_tee_local alloc locals_md localidx = do
  local ← found (get_elem? locals_md localidx)
  check_top local.valtype
  out alloc (0x48 ∷ 0x8b ∷ 0x04 ∷ 0x24 ∷ [])
  out alloc (0x48 ∷ 0x89 ∷ 0x85 ∷ [])
  out_uint32 alloc (fp_uint32 local.fp_offset)

-- The offset of a global's value: of `data` in `value` in `struct GlobalInst`.
abbrev pub global_value : ℕ
global_value = 8

-- The code for a global of 32 bits or of 64.
abbrev pub emit_access : Allocator → List ℕ → List ℕ → ℕ → Emit (Unit {0})
emit_access alloc code32 code64 type =
    if type == Valtype.i32 || type == Valtype.f32
    then outs alloc (code32 ∷ (global_value ∷ []) ∷ [])
    else if type == Valtype.i64 || type == Valtype.f64
    then outs alloc (code64 ∷ (global_value ∷ []) ∷ [])
    else wrong

unfoldable pub emit_get_global : Allocator → Env → ℕ → Emit (Unit {0})
emit_get_global alloc env globalidx = do
  out alloc (0x48 ∷ 0xb8 ∷ [])
  out_memref alloc memref_global (some globalidx)
  global ← found (get_elem? env.globaltypes globalidx)
  emit_access alloc (0x8b ∷ 0x40 ∷ []) (0x48 ∷ 0x8b ∷ 0x40 ∷ []) global.valtype
  out alloc (0x50 ∷ [])
  unchecked (push_stack alloc global.valtype)

unfoldable pub emit_set_global : Allocator → Env → ℕ → Emit (Unit {0})
emit_set_global alloc env globalidx = do
  global ← found (get_elem? env.globaltypes globalidx)
  out alloc (0x5a ∷ [])
  pop_type alloc global.valtype
  out alloc (0x48 ∷ 0xb8 ∷ [])
  out_memref alloc memref_global (some globalidx)
  emit_access alloc (0x89 ∷ 0x50 ∷ []) (0x48 ∷ 0x89 ∷ 0x50 ∷ []) global.valtype

-- A constant's bytes, `n` of them. A float is its bit pattern here.
unfoldable pub emit_const : Allocator → List ℕ → ℕ → ℕ → ℕ → Emit (Unit {0})
emit_const alloc code n value type = do
  out alloc code
  out alloc (le_bytes n value)
  out alloc (0x50 ∷ [])
  unchecked (push_stack alloc type)
