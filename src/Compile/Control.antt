-- ===== src/Compile/Control.antt =====
-- src/wasmjit/compile.c: what wasmjit_compile_instruction is given, and its cases for control:
-- unreachable, br, br_if, br_table and return. The debugging code under WASMJIT_DEBUG_STACK, which is
-- 0, is left out.
use wasmjit.Prelude.{
  ℕ, zero, suc, ◌+◌, ◌-◌, ◌*◌, ◌^◌, Bool, not, ◌&&◌, List, [], ◌∷◌, length, ltb, leb, ◌==◌,
  if◌then◌else◌,
}
use wasmjit.Prelude.Overwrite.{overwrite}
use wasmjit.Ast.Valtype
use wasmjit.Ast.Section.{FuncType, GlobalType}
use wasmjit.Parse.Types.{n_outputs_of}
use wasmjit.Compile.State.{
  Flags, done, Emit, skip, ensure, assert, get, ◌>>=◌, ◌>>◌, Allocator, le_bytes, negative, out,
  out_uint32, add_branch, func_exit_cont,
}
use wasmjit.Compile.Stack.{pop_stack, pop_type}
use wasmjit.Compile.Retpoline.{emit_indirect_jump, indirect_jump_size}
use wasmjit.Compile.Branch.{emit_br_code}

-- A distance from the frame pointer.
pub data FpOffset : Type 0 where
  below above : ℕ → FpOffset

-- `struct LocalsMD`
pub record LocalMd : Type 0 where
  pub valtype : ℕ
  pub fp_offset : FpOffset

-- The arguments that stay as they are throughout a function: `func_types`, `module_types`, `type`,
-- `locals_md`, `n_frame_locals`, `check_stack` and `flags`.
pub record Env : Type 0 where
  pub func_types : List FuncType
  pub functypes : List FuncType
  pub globaltypes : List GlobalType
  pub type : FuncType
  pub locals_md : List LocalMd
  pub n_frame_locals : ℕ
  pub check_stack : Bool
  pub flags : Flags

-- Bytes of the output that are written anew.
unfoldable pub patch : ℕ → List ℕ → Emit (Unit {0})
patch offset bytes s =
    (assert (leb (offset + length bytes) (length s.output)) >> λ t.
    done tt (record t { output = overwrite t.output offset bytes }))
      s

unfoldable pub emit_br : Allocator → ℕ → Emit (Unit {0})
emit_br alloc labelidx = emit_br_code alloc labelidx

-- The operand of the `je` over the branch is known once that is there.
unfoldable pub emit_br_if : Allocator → ℕ → Emit (Unit {0})
unfolding patch pop_type
emit_br_if alloc labelidx = do
  pop_type alloc Valtype.i32
  out alloc (0x5e ∷ [])
  out alloc (0x85 ∷ 0xf6 ∷ [])
  before ← get
  out alloc (0x74 ∷ 0x01 ∷ [])
  emit_br_code alloc labelidx
  after ← get
  let offset = length after.output - length before.output - 2
  assert (ltb offset 128 && not (offset == 0))
  patch (length before.output) (0x74 ∷ offset ∷ [])

-- The table's cells, to be filled in.
unfoldable pub emit_cells : Allocator → ℕ → Emit (Unit {0})
emit_cells alloc zero = skip
emit_cells alloc (suc n) = do out alloc (0x90 ∷ 0x90 ∷ 0x90 ∷ 0x90 ∷ []); emit_cells alloc n

-- The branch of each label, and its offset from the table in the label's cell.
unfoldable pub emit_branches : Allocator → ℕ → ℕ → List ℕ → Emit (Unit {0})
unfolding patch
emit_branches alloc table_offset i [] = skip
emit_branches alloc table_offset i (labelidx ∷ labelidxs) = do
  s ← get
  patch (table_offset + i * 4) (le_bytes 4 (length s.output - table_offset))
  emit_br_code alloc labelidx
  emit_branches alloc table_offset (i + 1) labelidxs

unfoldable pub emit_br_table : Allocator → Flags → List ℕ → ℕ → Emit (Unit {0})
unfolding emit_cells emit_branches patch
emit_br_table alloc flags labelidxs labelidx = do
  out alloc (0x58 ∷ [])
  pop_stack alloc
  out alloc (0x3d ∷ [])
  out_uint32 alloc (length labelidxs)
  out alloc (0x0f ∷ 0x83 ∷ 0x90 ∷ 0x90 ∷ 0x90 ∷ 0x90 ∷ [])
  default_branch ← get
  out alloc (0x19 ∷ 0xc9 ∷ [])
  out alloc (0x21 ∷ 0xc8 ∷ [])
  out alloc (0x48 ∷ 0x8d ∷ 0x15 ∷ [])
  out_uint32 alloc (7 + indirect_jump_size flags)
  out alloc (0x48 ∷ 0x63 ∷ 0x04 ∷ 0x82 ∷ [])
  out alloc (0x48 ∷ 0x01 ∷ 0xd0 ∷ [])
  emit_indirect_jump alloc flags
  table ← get
  emit_cells alloc (length labelidxs)
  emit_branches alloc (length table.output) 0 labelidxs
  s ← get
  patch (length default_branch.output - 4)
      (le_bytes 4 (length s.output - length default_branch.output))
  emit_br_code alloc labelidx

-- Whether eight times the number can be subtracted as an `int32_t`.
abbrev pub fits_below : ℕ → Bool
fits_below n = leb (n * 8) (2 ^ 31)

abbrev pub emit_results : Allocator → ℕ → Emit (Unit {0})
emit_results alloc n_frame_locals = do
  out alloc (0x48 ∷ 0x8d ∷ 0x74 ∷ 0x24 ∷ [])
  out alloc (0x00 ∷ [])
  out alloc (0x48 ∷ 0x8d ∷ 0xbd ∷ [])
  ensure (fits_below (n_frame_locals + 1))
  out_uint32 alloc (negative 32 ((n_frame_locals + 1) * 8))
  out alloc (0x48 ∷ 0xc7 ∷ 0xc1 ∷ [])
  out_uint32 alloc 1
  out alloc (0xfd ∷ [])
  out alloc (0x48 ∷ 0xa5 ∷ [])
  out alloc (0xfc ∷ [])

-- The jump to the function's end.
unfoldable pub emit_exit : Allocator → Emit (Unit {0})
emit_exit alloc = do
  s ← get
  add_branch alloc (length s.output) func_exit_cont
  out alloc (0xe9 ∷ 0x90 ∷ 0x90 ∷ 0x90 ∷ 0x90 ∷ [])

unfoldable pub emit_return : Allocator → FuncType → ℕ → Emit (Unit {0})
unfolding emit_exit
emit_return alloc type n_frame_locals = do
  if n_outputs_of type == 0 then skip else emit_results alloc n_frame_locals
  out alloc (0x48 ∷ 0x8d ∷ 0xa5 ∷ [])
  ensure (fits_below (n_frame_locals + n_outputs_of type))
  out_uint32 alloc (negative 32 ((n_frame_locals + n_outputs_of type) * 8))
  emit_exit alloc
