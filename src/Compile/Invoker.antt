-- ===== src/Compile/Invoker.antt =====
-- src/wasmjit/compile.c: wasmjit_compile_invoker_offset and wasmjit_compile_invoker, the code that
-- calls a translated function with arguments from an array. The numbers of bytes are below 2^32 as
-- far as le_bytes does not cut them off.
use wasmjit.Prelude.{
  ℕ, ◌+◌, ◌-◌, ◌*◌, ◌%◌, Bool, ◌&&◌, ◌||◌, List, [], ◌∷◌, length, get_elem?, ltb, ◌==◌,
  if◌then◌else◌,
}
use wasmjit.Ast.Valtype
use wasmjit.Ast.Section.{FuncType}
use wasmjit.Compile.State.{
  Flags, Emit, error, undefined, pure, skip, get, found, ◌>>=◌, ◌>>◌, Allocator, out, outs,
  out_uint32, eight_nulls, le_bytes,
}
use wasmjit.Compile.Retpoline.{emit_indirect_call}
use wasmjit.Compile.Control.{patch}
use wasmjit.Compile.Call.{is_int, Passed, none_passed}
pub mod Laws
pub mod Counts

abbrev pub is_float : ℕ → Bool
is_float t = t == Valtype.f32 || t == Valtype.f64

abbrev pub invoker_pass : ℕ → Passed → Passed
invoker_pass t p =
    if is_int t && ltb p.n_movs 6
    then record p { n_movs = p.n_movs + 1 }
    else if is_float t && ltb p.n_xmm_movs 8
    then record p { n_xmm_movs = p.n_xmm_movs + 1 }
    else record p { n_stack = p.n_stack + 1 }

abbrev pub invoker_pass_all : List ℕ → Passed → Passed
invoker_pass_all [] p = p
invoker_pass_all (t ∷ ts) p = invoker_pass_all ts (invoker_pass t p)

-- The words that the invoker's frame has: an odd number of them.
abbrev pub reserved : ℕ → ℕ
reserved n_stack = if (1 + n_stack) % 2 == 0 then 1 + n_stack + 1 else 1 + n_stack

-- `mov N(%rbx), …`, and `movss` and `movsd`.
abbrev pub invoker_movs : List (List ℕ)
invoker_movs =
    (0x48 ∷ 0x8b ∷ 0xbb ∷ [])
    ∷ (0x48 ∷ 0x8b ∷ 0xb3 ∷ [])
    ∷ (0x48 ∷ 0x8b ∷ 0x93 ∷ [])
    ∷ (0x48 ∷ 0x8b ∷ 0x8b ∷ [])
    ∷ (0x4c ∷ 0x8b ∷ 0x83 ∷ [])
    ∷ (0x4c ∷ 0x8b ∷ 0x8b ∷ [])
    ∷ []

abbrev pub invoker_f32_movs : List (List ℕ)
invoker_f32_movs =
    (0xf3 ∷ 0x0f ∷ 0x10 ∷ 0x83 ∷ [])
    ∷ (0xf3 ∷ 0x0f ∷ 0x10 ∷ 0x8b ∷ [])
    ∷ (0xf3 ∷ 0x0f ∷ 0x10 ∷ 0x93 ∷ [])
    ∷ (0xf3 ∷ 0x0f ∷ 0x10 ∷ 0x9b ∷ [])
    ∷ (0xf3 ∷ 0x0f ∷ 0x10 ∷ 0xa3 ∷ [])
    ∷ (0xf3 ∷ 0x0f ∷ 0x10 ∷ 0xab ∷ [])
    ∷ (0xf3 ∷ 0x0f ∷ 0x10 ∷ 0xb3 ∷ [])
    ∷ (0xf3 ∷ 0x0f ∷ 0x10 ∷ 0xbb ∷ [])
    ∷ []

abbrev pub invoker_f64_movs : List (List ℕ)
invoker_f64_movs =
    (0xf2 ∷ 0x0f ∷ 0x10 ∷ 0x83 ∷ [])
    ∷ (0xf2 ∷ 0x0f ∷ 0x10 ∷ 0x8b ∷ [])
    ∷ (0xf2 ∷ 0x0f ∷ 0x10 ∷ 0x93 ∷ [])
    ∷ (0xf2 ∷ 0x0f ∷ 0x10 ∷ 0x9b ∷ [])
    ∷ (0xf2 ∷ 0x0f ∷ 0x10 ∷ 0xa3 ∷ [])
    ∷ (0xf2 ∷ 0x0f ∷ 0x10 ∷ 0xab ∷ [])
    ∷ (0xf2 ∷ 0x0f ∷ 0x10 ∷ 0xb3 ∷ [])
    ∷ (0xf2 ∷ 0x0f ∷ 0x10 ∷ 0xbb ∷ [])
    ∷ []

-- One argument is read. That of a register of floats is taken by the number of integers so far.
abbrev pub emit_read : Allocator → ℕ → ℕ → Passed → Emit (Unit {0})
emit_read alloc i t p =
    if is_int t && ltb p.n_movs 6
    then (do
      code ← found (get_elem? invoker_movs p.n_movs)
      out alloc code
      out_uint32 alloc (i * 8))
    else if is_float t && ltb p.n_xmm_movs 8
    then (do
      code ←
          found
            (get_elem? (if t == Valtype.f32 then invoker_f32_movs else invoker_f64_movs) p.n_movs)
      out alloc code
      out_uint32 alloc (i * 8))
    else (do
      out alloc (0x48 ∷ 0x8b ∷ 0x83 ∷ [])
      out_uint32 alloc (i * 8)
      out alloc (0x48 ∷ 0x89 ∷ 0x84 ∷ 0x24 ∷ [])
      out_uint32 alloc (p.n_stack * 8))

-- The arguments from the `i`th on.
unfoldable pub emit_reads : Allocator → ℕ → List ℕ → Passed → Emit (Unit {0})
emit_reads alloc i [] p = skip
emit_reads alloc i (t ∷ ts) p = do
  emit_read alloc i t p
  emit_reads alloc (i + 1) ts (invoker_pass t p)

-- The first bytes of the invoker's code.
abbrev pub emit_first : Allocator → Emit (Unit {0})
emit_first alloc = out alloc (0x48 ∷ 0x81 ∷ 0xec ∷ [])

-- The invoker's code after that, up to the operand that holds the address of the function's code.
unfoldable pub emit_before : Allocator → List ℕ → ℕ → Emit (Unit {0})
unfolding emit_reads
emit_before alloc types to_reserve = do
  out_uint32 alloc (to_reserve * 8)
  out alloc (0x48 ∷ 0x89 ∷ 0x9c ∷ 0x24 ∷ [])
  out_uint32 alloc ((to_reserve - 1) * 8)
  out alloc (0x48 ∷ 0x89 ∷ 0xfb ∷ [])
  emit_reads alloc 0 types none_passed
  out alloc (0x48 ∷ 0xb8 ∷ [])

-- What follows that operand.
unfoldable pub emit_after : Allocator → Flags → ℕ → Emit (Unit {0})
emit_after alloc flags to_reserve = do
  emit_indirect_call alloc flags
  out alloc (0x48 ∷ 0x8b ∷ 0x9c ∷ 0x24 ∷ [])
  out_uint32 alloc ((to_reserve - 1) * 8)
  if to_reserve == 0
      then skip
      else (do out alloc (0x48 ∷ 0x81 ∷ 0xc4 ∷ []); out_uint32 alloc (to_reserve * 8))
  out alloc (0xc3 ∷ [])

-- Where the output cannot grow it is freed, and the error path frees it again. Before the first bytes
-- there is nothing to free.
abbrev pub freed_twice {ℓ} : {A : Type ℓ} → Emit A → Emit A
freed_twice m s = elim (m s) [ error ↦ undefined | r ↦ r ]

unfoldable pub emit_rest : Allocator → Flags → FuncType → Emit ℕ
unfolding emit_before emit_after
emit_rest alloc flags type = do
  let to_reserve = reserved (invoker_pass_all type.input_types none_passed).n_stack
  emit_before alloc type.input_types to_reserve
  s ← get
  out alloc eight_nulls
  emit_after alloc flags to_reserve
  pure (length s.output)

-- The result is `*compiled_code_offset`, and the code is the output.
unfoldable pub compile_invoker_offset : Allocator → Flags → FuncType → Emit ℕ
unfolding emit_rest
compile_invoker_offset alloc flags type = do
  emit_first alloc
  freed_twice (emit_rest alloc flags type)

-- With the address of the function's code in its place.
unfoldable pub compile_invoker : Allocator → Flags → FuncType → ℕ → Emit ℕ
unfolding compile_invoker_offset patch
compile_invoker alloc flags type compiled_code = do
  offset ← compile_invoker_offset alloc flags type
  patch offset (le_bytes 8 compiled_code)
  pure offset
