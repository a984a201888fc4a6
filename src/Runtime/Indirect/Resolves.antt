-- ===== src/Runtime/Indirect/Resolves.antt =====
-- src/wasmjit/runtime.c: what an indirect call is to do, in terms of the table's slots.
use wasmjit.Prelude.{
  ◌∙◌, ℕ, ◌+◌, ◌^◌, ◌≤◌, ◌<◌, ◌≡◌, refl, Option, none, some, List, length, get_elem?, leb, le→leb,
  lt→leb, arith, if◌then◌else◌, Bool-cases, inl, inr, All, ◌≢◌, get_elem?-none, get_elem?-All,
}
use wasmjit.Prelude.Bits.Ones.{bit_and-zero, bit_and-ones}
use wasmjit.Ast.Section.{FuncType}
use wasmjit.Runtime.Store.{FuncInst, TableInst, Store}
use wasmjit.Runtime.Typecheck.{typecheck_func}
use wasmjit.Runtime.Typecheck.Exact.{typecheck_func_iff}
use wasmjit.Runtime.Indirect.{
  array_index_nospec, table_overflow, uninitialized_table_entry, mismatched_type, Resolution,
  resolved, trapped, check_type, check_slot, resolve_indirect_call,
}

-- For operands of 64 bits the masked index is the index where its extent lies within the size, and
-- 0 otherwise, the overflow of `index + extent` included.
pub array_index_nospec_lem :
    (index extent size : ℕ)
    → index < 2 ^ 64
    → size < 2 ^ 64
    → array_index_nospec index extent size ≡ if◌then◌else◌ (leb (index + extent) size) index 0
unfolding array_index_nospec
array_index_nospec_lem index extent size hi hs = elim (Bool-cases (leb (index + extent) size)) [
  | inl inside ↦
      rw (lt→leb (2 ^ 64) (index + extent) (ground arith), inside) (bit_and-ones 64 index hi)
  | inr outside ↦ elim (Bool-cases (leb (2 ^ 64) (index + extent))) [
    | inl wraps ↦ rw (wraps, outside) (bit_and-zero index)
    | inr fits ↦ rw (fits, outside) (bit_and-zero index)
  ]
]

-- A slot is empty, or points to a function.
abbrev pub Points : List FuncInst → Option ℕ → Type 0
Points funcs none = Unit
Points funcs (some f) = f < length funcs

-- A table with as many slots as its length says.
pub record IsTable (funcs : List FuncInst) (tableinst : TableInst) : Type 0 where
  pub slots : length tableinst.slots ≡ tableinst.length
  pub points : All (Points funcs) tableinst.slots
  pub bound : tableinst.length < 2 ^ 64

-- What an indirect call is to do.
pub data Resolves (store : Store) (tableinst : TableInst) (type : FuncType) (idx : ℕ)
    : Resolution → Type 0 where
  overflow :
      length tableinst.slots ≤ idx → Resolves store tableinst type idx (trapped table_overflow)
  uninitialized :
      get_elem? tableinst.slots idx ≡ some none
      → Resolves store tableinst type idx (trapped uninitialized_table_entry)
  mismatched :
      {f : ℕ} {funcinst : FuncInst}
      → get_elem? tableinst.slots idx ≡ some (some f)
      → get_elem? store.funcs f ≡ some funcinst
      → type ≢ funcinst.type
      → Resolves store tableinst type idx (trapped mismatched_type)
  found :
      {f : ℕ} {funcinst : FuncInst}
      → get_elem? tableinst.slots idx ≡ some (some f)
      → get_elem? store.funcs f ≡ some funcinst
      → type ≡ funcinst.type
      → Resolves store tableinst type idx (resolved f)

module _ (store : Store) (tableinst : TableInst) (type : FuncType) (idx : ℕ) where
  check_type-Resolves :
      (f : ℕ) (o : Option FuncInst)
      → get_elem? tableinst.slots idx ≡ some (some f)
      → get_elem? store.funcs f ≡ o
      → f < length store.funcs
      → Resolves store tableinst type idx (check_type type f o)
  check_type-Resolves f none p q h = absurd (get_elem?-none store.funcs f h q)
  check_type-Resolves f (some funcinst) p q h = elim (Bool-cases (typecheck_func type funcinst)) [
    | inl e ↦ rw e (found p q ((typecheck_func_iff type funcinst).0 e))
    | inr e ↦
        rw e (mismatched p q λ same. (let ok = (typecheck_func_iff type funcinst).1 same in cc))
  ]

  check_slot-Resolves :
      (o : Option (Option ℕ))
      → get_elem? tableinst.slots idx ≡ o
      → idx < length tableinst.slots
      → All (Points store.funcs) tableinst.slots
      → Resolves store tableinst type idx (check_slot store type o)
  check_slot-Resolves none p h points = absurd (get_elem?-none tableinst.slots idx h p)
  check_slot-Resolves (some none) p h points = uninitialized p
  check_slot-Resolves (some (some f)) p h points =
      check_type-Resolves f (get_elem? store.funcs f) p refl
        (get_elem?-All (Points store.funcs) tableinst.slots idx points p)

-- For a table with as many slots as its length says, each empty or pointing to a function, and an
-- index of 32 bits, `wasmjit_resolve_indirect_call` returns the function in the slot of that index
-- if it has the expected type. It traps, each time for its own reason, where the index is not below
-- the length, where the slot is empty, and where the type is another one. It reads no slot outside
-- the table.
pub resolve_indirect_call-Resolves :
    (store : Store) (tableinst : TableInst) (type : FuncType) (idx : ℕ)
    → IsTable store.funcs tableinst
    → idx < 2 ^ 32
    → Resolves store tableinst type idx (resolve_indirect_call store tableinst type idx)
unfolding resolve_indirect_call
resolve_indirect_call-Resolves store tableinst type idx t h =
    elim (Bool-cases (leb tableinst.length idx)) [
      | inl out ↦ rw out (overflow (ground (arith, t.slots)))
      | inr inside ↦
          let masked : array_index_nospec idx 1 tableinst.length ≡ idx =
            array_index_nospec_lem idx 1 tableinst.length (omega arith) t.bound
            ∙ rw (le→leb (idx + 1) tableinst.length (ground arith)) refl in
          rw (inside, masked)
            (check_slot-Resolves store tableinst type idx (get_elem? tableinst.slots idx) refl
              (ground (arith, t.slots)) t.points)
    ]
