-- ===== src/Instantiate/State.antt =====
-- The instance under construction of src/wasmjit/instantiate.c, and the outcomes of its steps.
-- `error` stands for the jump to the label of that name, `undefined` for an assertion that fails or
-- an access outside an object.
use wasmjit.Prelude.{ℕ, Bool, true, false, List, Option, none, some, get_elem?}
use wasmjit.Ast.Section.{FuncType}
use wasmjit.Runtime.Store.{ExportInst}

-- `struct ModuleInst`: its types, the addresses of what it imports and defines, and its exports. The
-- private data, of which an instantiation makes none, are left out.
pub record ModuleInst : Type 0 where
  pub types : List FuncType
  pub funcs : List ℕ
  pub tables : List ℕ
  pub mems : List ℕ
  pub globals : List ℕ
  pub exports : List ExportInst
  pub n_imported_funcs : ℕ
  pub n_imported_tables : ℕ
  pub n_imported_mems : ℕ
  pub n_imported_globals : ℕ

pub data Attempt {ℓ} (A : Type ℓ) : Type ℓ where
  done : A → Attempt A
  error : Attempt A
  undefined : Attempt A

infixl 5 ◌>>=◌
abbrev pub ◌>>=◌ {ℓ κ} : {A : Type ℓ} {B : Type κ} → Attempt A → (A → Attempt B) → Attempt B
done a >>= f = f a
error >>= f = error
undefined >>= f = undefined

-- `if (!c) goto error;`
abbrev pub ensure : Bool → Attempt (Unit {0})
ensure true = done tt
ensure false = error

-- `assert(c);`
abbrev pub assert : Bool → Attempt (Unit {0})
assert true = done tt
assert false = undefined

-- An access by index.
abbrev pub element {ℓ} : {A : Type ℓ} → Option A → Attempt A
element none = undefined
element (some a) = done a

-- The object at an address of the module's, by way of its index.
abbrev pub object {ℓ} : {A : Type ℓ} → List ℕ → List A → ℕ → Attempt A
object addresses objects i = element (get_elem? addresses i) >>= λ a. element (get_elem? objects a)
