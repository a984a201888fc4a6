-- ===== src/Instantiate/Export.antt =====
-- src/wasmjit/runtime.c: the lookup of an export of an instance, by its name and the number of its type.
use wasmjit.Prelude.{
  ℕ, ◌≡◌, refl, List, [], ◌∷◌, Option, none, some, ◌==◌, Bool-cases, inl, inr, if◌then◌else◌,
}
use wasmjit.Runtime.Store.{ExportPtr, ExportInst}
use wasmjit.Instantiate.Import.{same_name, find_export}

-- IMPORT_DESC_TYPE_FUNC, _TABLE, _MEM and _GLOBAL.
abbrev pub export_type : ExportPtr → ℕ
export_type (ExportPtr.func _) = 0
export_type (ExportPtr.table _) = 1
export_type (ExportPtr.mem _) = 2
export_type (ExportPtr.global _) = 3

abbrev pub of_type : ℕ → ExportPtr → Option ExportPtr
of_type type value = if export_type value == type then some value else none

-- The null pointer is `none`.
unfoldable pub get_export : List ExportInst → List ℕ → ℕ → Option ExportPtr
unfolding same_name
get_export [] name type = none
get_export (e ∷ exports) name type =
    if same_name e.name name then of_type type e.value else get_export exports name type

abbrev checked : ℕ → Option ExportInst → Option ExportPtr
checked type none = none
checked type (some e) = of_type type e.value

-- The export is the one that an import of that name finds, if it has the type.
get_export-find_export :
    (exports : List ExportInst) (name : List ℕ) (type : ℕ)
    → get_export exports name type ≡ checked type (find_export name exports)
unfolding get_export
get_export-find_export [] name type = refl
get_export-find_export (e ∷ exports) name type = elim (Bool-cases (same_name e.name name)) [
  | inl same ↦ rw same refl
  | inr other ↦ rw other (get_export-find_export exports name type)
]
