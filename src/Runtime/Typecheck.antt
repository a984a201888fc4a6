-- ===== src/Runtime/Typecheck.antt =====
-- src/wasmjit/runtime.c and runtime.h: the type checks of functions, tables, memories and globals.
pub mod Exact
pub mod Limits
use wasmjit.Prelude.{
  ℕ, zero, suc, ◌/◌, Bool, true, false, not, ◌&&◌, ◌||◌, List, [], ◌∷◌, length, leb, ◌==◌,
}
use wasmjit.Ast.Section.{FuncType, TableType, MemoryType, GlobalType}
use wasmjit.Ast.Valtype
use wasmjit.Runtime.Store.{FuncInst, TableInst, MemInst, GlobalInst, wasm_page_size}

-- The comparison of the elements, of two lists of one length.
unfoldable pub all_equal : List ℕ → List ℕ → Bool
all_equal (x ∷ xs) (y ∷ ys) = (x == y) && all_equal xs ys
all_equal _ _ = true

unfoldable pub typelist_equal : List ℕ → List ℕ → Bool
unfolding all_equal
typelist_equal elts oelts = (length elts == length oelts) && all_equal elts oelts

-- FUNC_TYPE_OUTPUT_TYPES, of the length FUNC_TYPE_N_OUTPUTS.
abbrev pub output_types : FuncType → List ℕ
output_types ft = elim (ft.output_type == Valtype.null) [ true ↦ [] | false ↦ ft.output_type ∷ [] ]

unfoldable pub typecheck_func : FuncType → FuncInst → Bool
unfolding typelist_equal
typecheck_func type funcinst =
    typelist_equal type.input_types funcinst.type.input_types
    && typelist_equal (output_types type) (output_types funcinst.type)

-- A limit's maximum of 0 is none.
abbrev pub max_within : ℕ → ℕ → Bool
max_within wanted have = (wanted == 0) || (not (wanted == 0) && not (have == 0) && leb have wanted)

unfoldable pub typecheck_table : TableType → TableInst → Bool
typecheck_table type tableinst =
    (tableinst.elemtype == type.elemtype)
    && (leb type.limits.min tableinst.length && max_within type.limits.max tableinst.max)

unfoldable pub typecheck_memory : MemoryType → MemInst → Bool
typecheck_memory type meminst =
    leb type.limits.min (meminst.size / wasm_page_size)
    && max_within type.limits.max (meminst.max / wasm_page_size)

unfoldable pub typecheck_global : GlobalType → GlobalInst → Bool
typecheck_global globaltype globalinst =
    (globalinst.value.type == globaltype.valtype) && (globalinst.mut == globaltype.mut)
