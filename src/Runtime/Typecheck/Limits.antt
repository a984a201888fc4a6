-- ===== src/Runtime/Typecheck/Limits.antt =====
-- src/wasmjit/runtime.c: the type checks of tables and memories, in terms of the sizes that limits
-- allow.
use wasmjit.Prelude.{ℕ, ◌+◌, ◌/◌, ◌≤◌, ◌≡◌, ◌↔◌, ◌⊎◌, inl, inr, true, ◌&&◌, leb, ◌==◌, arith}
use wasmjit.Ast.Section.{TableType, MemoryType}
use wasmjit.Runtime.Store.{TableInst, MemInst, wasm_page_size}
use wasmjit.Runtime.Typecheck.{max_within, typecheck_table, typecheck_memory}
use wasmjit.Runtime.Typecheck.Exact.{both}

-- Limits from `min` on, up to `max` unless that is 0, allow a size.
abbrev pub Allows : ℕ → ℕ → ℕ → Type 0
Allows min max n = (min ≤ n) × ((max ≡ 0) ⊎ (n ≤ max))

-- Limits that allow their own minimum.
abbrev pub IsProper : ℕ → ℕ → Type 0
IsProper min max = (max ≡ 0) ⊎ (min ≤ max)

module _ (min max have_min have_max : ℕ) where
  within→Allows :
      (leb min have_min && max_within max have_max) ≡ true
      → (n : ℕ) → Allows have_min have_max n
      → Allows min max n
  within→Allows e n h = ground arith

  Allows→within :
      IsProper have_min have_max
      → ((n : ℕ) → Allows have_min have_max n → Allows min max n)
      → (leb min have_min && max_within max have_max) ≡ true
  Allows→within proper h =
      let low = (h have_min (omega arith, proper)).0 in
      let unbounded = λ (z : have_max ≡ 0). (h (have_min + max + 1) (omega arith, inl z)).1 in
      let largest = λ (le : have_min ≤ have_max). (h have_max (le, inr (omega arith))).1 in
      ground (arith, low, unbounded, largest)

-- `typecheck_table` accepts a table of proper limits exactly where it has the type of elements that
-- the import names, and the import's limits allow each length that the table's own limits allow.
pub typecheck_table_iff :
    (type : TableType) (tableinst : TableInst)
    → IsProper tableinst.length tableinst.max
    → (typecheck_table type tableinst ≡ true) ↔ (
        (tableinst.elemtype ≡ type.elemtype)
        × ((n : ℕ)
            → Allows tableinst.length tableinst.max n
            → Allows type.limits.min type.limits.max n))
unfolding typecheck_table
typecheck_table_iff type tableinst proper = (
  λ e.
      let p = both (tableinst.elemtype == type.elemtype) _ e in
      (ground (arith, p.0), within→Allows _ _ _ _ p.1),
  λ h.
      let same : (tableinst.elemtype == type.elemtype) ≡ true = ground (arith, h.0) in
      rw same (Allows→within _ _ _ _ proper h.1),
)

-- `typecheck_memory` accepts a memory of proper limits, in whole pages, exactly where the import's
-- limits allow each number of pages that the memory's own limits allow.
pub typecheck_memory_iff :
    (type : MemoryType) (meminst : MemInst)
    → IsProper (meminst.size / wasm_page_size) (meminst.max / wasm_page_size)
    → (typecheck_memory type meminst ≡ true) ↔ (
        (n : ℕ)
        → Allows (meminst.size / wasm_page_size) (meminst.max / wasm_page_size) n
        → Allows type.limits.min type.limits.max n)
unfolding typecheck_memory
typecheck_memory_iff type meminst proper =
    (λ e. within→Allows _ _ _ _ e, λ h. Allows→within _ _ _ _ proper h)
