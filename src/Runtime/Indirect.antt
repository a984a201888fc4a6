-- ===== src/Runtime/Indirect.antt =====
-- src/wasmjit/runtime.c: wasmjit_resolve_indirect_call, by which compiled code calls through a
-- table, and from runtime.h the masked index that it uses. `size_t` has 64 bits.
pub mod Resolves
use wasmjit.Prelude.{
  ℕ, ◌+◌, ◌-◌, ◌^◌, ◌%◌, bit_and, not, Option, none, some, List, get_elem?, ltb, leb, if◌then◌else◌,
}
use wasmjit.Ast.Section.{FuncType}
use wasmjit.Runtime.Store.{FuncInst, TableInst, Store}
use wasmjit.Runtime.Typecheck.{typecheck_func}

-- `end = index + extent` in 64 bits; the result is the index masked by all ones or by none.
unfoldable pub array_index_nospec : ℕ → ℕ → ℕ → ℕ
array_index_nospec index extent size =
    let val =
      if leb (2 ^ 64) (index + extent) then 0 else if leb (index + extent) size then 1 else 0 in
    bit_and index ((2 ^ 64 - val) % 2 ^ 64)

-- WASMJIT_TRAP_TABLE_OVERFLOW, WASMJIT_TRAP_UNINITIALIZED_TABLE_ENTRY and
-- WASMJIT_TRAP_MISMATCHED_TYPE
pub data Trap : Type 0 where
  table_overflow uninitialized_table_entry mismatched_type : Trap

-- The function's address, or a trap, which does not return. `undefined` is a read outside the
-- table's slots or through an address with no function.
pub data Resolution : Type 0 where
  resolved : ℕ → Resolution
  trapped : Trap → Resolution
  undefined : Resolution

abbrev pub check_type : FuncType → ℕ → Option FuncInst → Resolution
check_type expected_type f none = undefined
check_type expected_type f (some funcinst) =
    if typecheck_func expected_type funcinst then resolved f else trapped mismatched_type

abbrev pub check_slot : Store → FuncType → Option (Option ℕ) → Resolution
check_slot store expected_type none = undefined
check_slot store expected_type (some none) = trapped uninitialized_table_entry
check_slot store expected_type (some (some f)) =
    check_type expected_type f (get_elem? store.funcs f)

unfoldable pub resolve_indirect_call : Store → TableInst → FuncType → ℕ → Resolution
unfolding array_index_nospec
resolve_indirect_call store tableinst expected_type idx =
    if leb tableinst.length idx
    then trapped table_overflow
    else check_slot store expected_type
        (get_elem? tableinst.slots (array_index_nospec idx 1 tableinst.length))
