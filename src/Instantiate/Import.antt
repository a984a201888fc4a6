-- ===== src/Instantiate/Import.antt =====
-- src/wasmjit/instantiate.c: the imports of a module, which are looked up in the modules that are there
-- already. The text of an error message is not modelled.
use wasmjit.Prelude.{
  ℕ, ◌+◌, Bool, true, false, ◌&&◌, List, [], ◌∷◌, ◌++◌, Option, none, some, get_elem?, ◌==◌,
  if◌then◌else◌,
}
use wasmjit.Ast.Section.{FuncType, ImportDesc, Import}
use wasmjit.Runtime.Store.{ExportPtr, ExportInst, Store}
use wasmjit.Runtime.Typecheck.{typecheck_func, typecheck_table, typecheck_memory, typecheck_global}
use wasmjit.Instantiate.State.{ModuleInst, Attempt, done, error, ensure, element, ◌>>=◌}

-- A state of the instantiation. `segments` has the code segments that are mapped, by their addresses.
pub record Linking : Type 0 where
  pub store : Store
  pub module_inst : ModuleInst
  pub segments : List (ℕ × List ℕ)

-- Whether a request for memory is met, by the state and a number for each request of a step.
abbrev pub Allocator : Type 0
Allocator = Linking → ℕ → Bool

-- `struct NamedModule`
pub record NamedModule : Type 0 where
  pub name : List ℕ
  pub module_inst : ModuleInst

-- A C string ends at its first 0.
abbrev pub c_string : List ℕ → List ℕ
c_string [] = []
c_string (x ∷ xs) = if x == 0 then [] else x ∷ c_string xs

abbrev pub bytes_equal : List ℕ → List ℕ → Bool
bytes_equal [] [] = true
bytes_equal (x ∷ xs) (y ∷ ys) = (x == y) && bytes_equal xs ys
bytes_equal _ _ = false

-- `!strcmp(a, b)`
unfoldable pub same_name : List ℕ → List ℕ → Bool
same_name a b = bytes_equal (c_string a) (c_string b)

-- The search goes on after it has found a module: the last of that name counts.
abbrev pub find_module : List ℕ → List NamedModule → Option ModuleInst → Option ModuleInst
find_module name [] found = found
find_module name (m ∷ ms) found =
    find_module name ms (if same_name m.name name then some m.module_inst else found)

-- The first export of that name counts.
abbrev pub find_export : List ℕ → List ExportInst → Option ExportInst
find_export name [] = none
find_export name (e ∷ es) = if same_name e.name name then some e else find_export name es

-- `export->type != import->desc_type` is an error.
unfoldable pub add_import :
    Allocator → List FuncType → ImportDesc → ExportPtr → Linking → Attempt Linking
add_import alloc types (ImportDesc.func functypeidx) (ExportPtr.func f) l = do
  type ← element (get_elem? types functypeidx)
  funcinst ← element (get_elem? l.store.funcs f)
  _ ← ensure (typecheck_func type funcinst)
  _ ← ensure (alloc l 0)
  done (record l {
    module_inst = record l.module_inst {
      funcs = l.module_inst.funcs ++ f ∷ [];
      n_imported_funcs = l.module_inst.n_imported_funcs + 1;
    };
  })
add_import alloc types (ImportDesc.table type) (ExportPtr.table t) l = do
  tableinst ← element (get_elem? l.store.tables t)
  _ ← ensure (typecheck_table type tableinst)
  _ ← ensure (alloc l 0)
  done (record l {
    module_inst = record l.module_inst {
      tables = l.module_inst.tables ++ t ∷ [];
      n_imported_tables = l.module_inst.n_imported_tables + 1;
    };
  })
add_import alloc types (ImportDesc.mem type) (ExportPtr.mem m) l = do
  meminst ← element (get_elem? l.store.mems m)
  _ ← ensure (typecheck_memory type meminst)
  _ ← ensure (alloc l 0)
  done (record l {
    module_inst = record l.module_inst {
      mems = l.module_inst.mems ++ m ∷ [];
      n_imported_mems = l.module_inst.n_imported_mems + 1;
    };
  })
add_import alloc types (ImportDesc.global type) (ExportPtr.global g) l = do
  globalinst ← element (get_elem? l.store.globals g)
  _ ← ensure (typecheck_global type globalinst)
  _ ← ensure (alloc l 0)
  done (record l {
    module_inst = record l.module_inst {
      globals = l.module_inst.globals ++ g ∷ [];
      n_imported_globals = l.module_inst.n_imported_globals + 1;
    };
  })
add_import alloc types desc value l = error

-- `goto error` where nothing is found.
abbrev pub found {ℓ} : {A : Type ℓ} → Option A → Attempt A
found none = error
found (some a) = done a

unfoldable pub load_import :
    Allocator → List FuncType → List NamedModule → Import → Linking → Attempt Linking
unfolding add_import
load_import alloc types imports i l = do
  import_module ← found (find_module i.module_name imports none)
  exported ← found (find_export i.name import_module.exports)
  add_import alloc types i.desc exported.value l

-- A loop over the elements of a section.
abbrev pub for_each {ℓ} :
    {A : Type ℓ} → (A → Linking → Attempt Linking) → List A → Linking → Attempt Linking
for_each step [] l = done l
for_each step (x ∷ xs) l = step x l >>= for_each step xs
