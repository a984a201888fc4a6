-- ===== src/Instantiate/Segment/Elements.antt =====
-- src/wasmjit/instantiate.c: element segments on well-formed stores.
use wasmjit.Prelude.{
  ℕ, ◌+◌, ◌%◌, ◌^◌, ◌≤◌, ◌<◌, ◌≡◌, ◌⊎◌, List, Option, some, length, get_elem?, All,
}
use wasmjit.Ast.Section.{Element}
use wasmjit.Ast.Valtype
use wasmjit.Runtime.Store.{Value, FuncInst, TableInst, Store}
use wasmjit.Runtime.Indirect.Resolves.{Points}
use wasmjit.Instantiate.State.{ModuleInst, Attempt, done, error, undefined}
use wasmjit.Instantiate.Constant.Typed.{Denotes}

-- A result that has a property, an error for a reason, or something undefined for a reason.
abbrev pub Ended : {A : Type 0} → (A → Type 0) → Type 0 → Type 0 → Attempt A → Type 0
Ended P E W (done a) = P a
Ended P E W error = E
Ended P E W undefined = W

-- An end of a segment that wraps to a place in the table, and so passes the test of its bounds.
abbrev pub Wraps : ℕ → ℕ → Type 0
Wraps n end = (2 ^ 32 ≤ end) × (end % 2 ^ 32 ≤ n)

module _ (objects : List FuncInst) (funcs : List ℕ)
    (known : All (λ f. f < length objects) funcs) where
  abbrev AreSlots : ℕ → List (Option ℕ) → Type 0
  AreSlots n slots = (length slots ≡ n) × All (Points objects) slots

module _ (store : Store) (module_inst : ModuleInst) (e : Element) where
  abbrev IsValue : Value → Type 0
  IsValue value = Denotes store module_inst e.instructions value

  abbrev NoValue : Type 0
  NoValue = ¬ ((value : Value) × IsValue value × (value.type ≡ Valtype.i32))

  -- The value of the segment's expression, and its table.
  abbrev pub Goes : Value → TableInst → Type 0
  Goes value t =
      (address : ℕ) × IsValue value
      × (get_elem? module_inst.tables e.tableidx ≡ some address)
      × (get_elem? store.tables address ≡ some t)

  abbrev end : Value → ℕ
  end value = value.bits + length e.funcidxs

  -- The expression has no value that is an i32, or the segment ends outside its table.
  abbrev pub Refused : Type 0
  Refused =
      NoValue ⊎ ((value : Value) × (t : TableInst) × Goes value t × (t.length < end value % 2 ^ 32))

  -- The end of the segment wraps.
  abbrev pub Overruns : Type 0
  Overruns = (value : Value) × (t : TableInst) × Goes value t × Wraps t.length (end value)
