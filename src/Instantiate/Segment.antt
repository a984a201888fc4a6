-- ===== src/Instantiate/Segment.antt =====
-- src/wasmjit/instantiate.c: the element and data segments, which are copied into tables and
-- memories at the value of a constant expression, an i32.
pub mod Data
pub mod Table
pub mod Keeps
pub mod Elements
pub mod Within
use wasmjit.Prelude.{
  ℕ, zero, suc, ◌+◌, ◌-◌, ◌^◌, ◌%◌, not, List, [], ◌∷◌, ◌++◌, Option, none, some, length, take,
  drop, get_elem?, ltb, if◌then◌else◌,
}
use wasmjit.Prelude.Overwrite.{overwrite}
use wasmjit.Ast.Section.{Element, DataSegment}
use wasmjit.Ast.Valtype
use wasmjit.Runtime.Store.{TableInst, MemInst, Store}
use wasmjit.Instantiate.State.{ModuleInst, Attempt, done, undefined, ensure, element, object, ◌>>=◌}
use wasmjit.Instantiate.Constant.{read_constant_expression}

-- A write by index, inside the list.
abbrev pub set_elem {ℓ} : {A : Type ℓ} → List A → ℕ → A → List A
set_elem [] i a = []
set_elem (x ∷ xs) zero a = a ∷ xs
set_elem (x ∷ xs) (suc i) a = x ∷ set_elem xs i a

-- `tableinst->data[offset + j] = funcs[funcidxs[j]]` for each `j`.
unfoldable pub fill_slots : List ℕ → ℕ → List ℕ → List (Option ℕ) → Attempt (List (Option ℕ))
fill_slots funcs offset [] slots = done slots
fill_slots funcs offset (funcidx ∷ funcidxs) slots =
    let rest : ℕ → Attempt (List (Option ℕ)) =
      λ f. fill_slots funcs (offset + 1) funcidxs (set_elem slots offset (some f)) in
    element (get_elem? funcs funcidx) >>= λ f.
    if ltb offset (length slots) then rest f else undefined

-- The sum in the test has 32 bits.
unfoldable pub init_table : List ℕ → ℕ → List ℕ → TableInst → Attempt TableInst
unfolding fill_slots
init_table funcs offset funcidxs tableinst = do
  _ ← ensure (not (ltb tableinst.length ((offset + length funcidxs) % 2 ^ 32)))
  slots ← fill_slots funcs offset funcidxs tableinst.slots
  done (record tableinst { slots = slots })

unfoldable pub init_element : Store → ModuleInst → Element → Attempt Store
unfolding init_table read_constant_expression
init_element store module_inst e = do
  value ← read_constant_expression store module_inst Valtype.i32 e.instructions
  address ← element (get_elem? module_inst.tables e.tableidx)
  tableinst ← element (get_elem? store.tables address)
  tableinst' ← init_table module_inst.funcs value.bits e.funcidxs tableinst
  done (record store { tables = set_elem store.tables address tableinst' })

unfoldable pub init_memory : ℕ → List ℕ → MemInst → Attempt MemInst
init_memory offset buf meminst = do
  _ ← ensure (not (ltb meminst.size (length buf)))
  _ ← ensure (not (ltb (meminst.size - length buf) offset))
  done (record meminst { bytes = overwrite meminst.bytes offset buf })

unfoldable pub init_data : Store → ModuleInst → DataSegment → Attempt Store
unfolding init_memory read_constant_expression
init_data store module_inst d = do
  address ← element (get_elem? module_inst.mems d.memidx)
  meminst ← element (get_elem? store.mems address)
  value ← read_constant_expression store module_inst Valtype.i32 d.instructions
  meminst' ← init_memory value.bits d.buf meminst
  done (record store { mems = set_elem store.mems address meminst' })
