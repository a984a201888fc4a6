-- ===== src/Instantiate/Create.antt =====
-- src/wasmjit/instantiate.c: the creation of a table and of a memory. The allocator is a
-- parameter, as in the reader; the two answers asked for are those on the object and on its data.
pub mod Typed
use wasmjit.Prelude.{
  ℕ, zero, suc, ◌*◌, ◌^◌, Bool, not, ◌||◌, List, [], ◌∷◌, Option, none, ltb, leb, ◌==◌,
}
use wasmjit.Ast.Section.{TableType, MemoryType}
use wasmjit.Runtime.Store.{TableInst, MemInst, wasm_page_size}
use wasmjit.Instantiate.State.{Attempt, done, error, undefined, ensure, assert, ◌>>=◌}

-- `calloc`: so many cells, each of them zero.
abbrev pub cells {ℓ} : {A : Type ℓ} → ℕ → A → List A
cells zero a = []
cells (suc n) a = a ∷ cells n a

unfoldable pub create_table : Bool → Bool → TableType → Attempt TableInst
create_table allocated data_allocated table = do
  _ ← assert ((table.limits.max == 0) || leb table.limits.min table.limits.max)
  _ ← ensure allocated
  _ ← ensure ((table.limits.min == 0) || data_allocated)
  done (record {
    slots = cells table.limits.min none;
    elemtype = table.elemtype;
    length = table.limits.min;
    max = table.limits.max;
  })

unfoldable pub create_memory : Bool → Bool → MemoryType → Attempt MemInst
create_memory allocated data_allocated memtype = do
  _ ← assert ((memtype.limits.max == 0) || leb memtype.limits.min memtype.limits.max)
  _ ← ensure (ltb (memtype.limits.min * wasm_page_size) (2 ^ 64))
  _ ← ensure (ltb (memtype.limits.max * wasm_page_size) (2 ^ 64))
  _ ← ensure allocated
  _ ← ensure ((memtype.limits.min * wasm_page_size == 0) || data_allocated)
  done (record {
    bytes = cells (memtype.limits.min * wasm_page_size) 0;
    size = memtype.limits.min * wasm_page_size;
    max = memtype.limits.max * wasm_page_size;
  })
