-- ===== src/Instantiate/Create/Typed.antt =====
-- src/wasmjit/instantiate.c: the types of the tables and memories that an instance creates.
use wasmjit.Prelude.{
  ℕ, zero, suc, ◌/◌, ◌*◌, ◌^◌, ◌<◌, ◌≡◌, refl, ap, Bool, true, ◌||◌, ◌&&◌, List, none, length,
  arith, leb, ◌==◌, lt→ltb, All,
}
use wasmjit.Ast.Section.{TableType, MemoryType}
use wasmjit.Runtime.Store.{FuncInst, MemInst, wasm_page_size}
use wasmjit.Runtime.Typecheck.{typecheck_table, typecheck_memory, max_within}
use wasmjit.Runtime.Typecheck.Limits.{IsProper}
use wasmjit.Runtime.Indirect.Resolves.{Points, IsTable}
use wasmjit.Instantiate.State.{Attempt, done, error, undefined}
use wasmjit.Instantiate.Create.{cells, create_table, create_memory}

-- The step is done, with a result of that property.
abbrev pub Yields : {A : Type 0} → (A → Type 0) → Attempt A → Type 0
Yields P (done a) = P a
Yields P error = ⊥
Yields P undefined = ⊥

length-cells {ℓ} : {A : Type ℓ} (n : ℕ) (a : A) → length (cells n a) ≡ n
length-cells zero a = refl
length-cells (suc n) a = ap suc (length-cells n a)

All-cells {ℓ κ} : {A : Type ℓ} (P : A → Type κ) (n : ℕ) (a : A) → P a → All P (cells n a)
All-cells P zero a p = tt
All-cells P (suc n) a p = (p, All-cells P n a p)

-- A memory with as many bytes as its size says.
abbrev pub IsMemory : MemInst → Type 0
IsMemory meminst = length meminst.bytes ≡ meminst.size

proper_test : (min max : ℕ) → IsProper min max → ((max == 0) || leb min max) ≡ true
proper_test min max h = ground arith

or_true : (b : Bool) → (b || true) ≡ true
or_true b = ground arith

typed_memory :
    (t : MemoryType)
    → IsProper t.limits.min t.limits.max
    → (leb t.limits.min (t.limits.min * wasm_page_size / wasm_page_size)
        && max_within t.limits.max (t.limits.max * wasm_page_size / wasm_page_size))
      ≡ true
typed_memory t proper = ground arith

typed_table :
    (t : TableType)
    → IsProper t.limits.min t.limits.max
    → ((t.elemtype == t.elemtype)
        && (leb t.limits.min t.limits.min && max_within t.limits.max t.limits.max))
      ≡ true
typed_table t proper = ground arith

-- For proper limits of 32 bits and an allocator that answers, the memory that an instance creates
-- passes the check of the type that it was declared with, and has as many bytes as its size says.
pub create_memory-typecheck_memory :
    (t : MemoryType)
    → IsProper t.limits.min t.limits.max
    → t.limits.min < 2 ^ 32
    → t.limits.max < 2 ^ 32
    → Yields (λ m. (typecheck_memory t m ≡ true) × IsMemory m) (create_memory true true t)
unfolding create_memory typecheck_memory
create_memory-typecheck_memory t proper h k =
    rw
      (
        proper_test t.limits.min t.limits.max proper,
        lt→ltb (t.limits.min * wasm_page_size) (2 ^ 64) (omega arith),
        lt→ltb (t.limits.max * wasm_page_size) (2 ^ 64) (omega arith),
        or_true (t.limits.min * wasm_page_size == 0),
      )
      (typed_memory t proper, length-cells (t.limits.min * wasm_page_size) 0)

-- For proper limits, of which the minimum has 32 bits, and an allocator that answers, the table that an instance creates passes the
-- check of the type that it was declared with, and its slots are those that its length says, all of
-- them empty.
pub create_table-typecheck_table :
    (funcs : List FuncInst) (t : TableType)
    → IsProper t.limits.min t.limits.max
    → t.limits.min < 2 ^ 32
    → Yields
        (λ tableinst.
          (typecheck_table t tableinst ≡ true)
          × IsTable funcs tableinst
          × All (λ s. s ≡ none) tableinst.slots)
        (create_table true true t)
unfolding create_table typecheck_table
create_table-typecheck_table funcs t proper h =
    rw (proper_test t.limits.min t.limits.max proper, or_true (t.limits.min == 0))
      (
        typed_table t proper,
        record {
          slots = length-cells t.limits.min none;
          points = All-cells (Points funcs) t.limits.min none tt;
          bound = omega arith;
        },
        All-cells (λ s. s ≡ none) t.limits.min none refl,
      )
