-- ===== src/Instantiate/Whole.antt =====
-- src/wasmjit/instantiate.c: wasmjit_instantiate as a whole. What the start function does is a
-- parameter, as is the detection of the flags. At an error the instance is freed; what is written to
-- imported objects before stays.
mod Tests
use wasmjit.Prelude.{ℕ, List, [], Option, none, some, get_elem?}
use wasmjit.Ast.Section.{Module}
use wasmjit.Runtime.Store.{Store}
use wasmjit.Instantiate.State.{ModuleInst, Attempt, done, element, ◌>>=◌}
use wasmjit.Instantiate.Segment.{init_element, init_data}
use wasmjit.Instantiate.Import.{Linking, Allocator, NamedModule, for_each}
use wasmjit.Instantiate.Define.{link}
use wasmjit.Instantiate.Code.{Machine, ModuleTypes, fill_module_types, link_codes}
use wasmjit.Compile.State.{Flags}
use wasmjit.Compile.State

abbrev pub no_instance : ModuleInst
no_instance = record {
  types = [];
  funcs = [];
  tables = [];
  mems = [];
  globals = [];
  exports = [];
  n_imported_funcs = 0;
  n_imported_tables = 0;
  n_imported_mems = 0;
  n_imported_globals = 0;
}

-- A step that leaves all but the store.
abbrev pub on_store {ℓ} :
    {A : Type ℓ} → (Store → ModuleInst → A → Attempt Store) → A → Linking → Attempt Linking
on_store step a l = step l.store l.module_inst a >>= λ store. done (record l { store = store })

-- The start function, where there is one, by what invoking a function does to the state.
abbrev pub run_start : (ℕ → Linking → Linking) → Option ℕ → Linking → Attempt Linking
run_start invoke none l = done l
run_start invoke (some funcidx) l =
    element (get_elem? l.module_inst.funcs funcidx) >>= λ f. done (invoke f l)

-- Up to the types by which the functions are compiled.
unfoldable pub prepare :
    Allocator → List NamedModule → Module → Linking → Attempt (ModuleTypes × Linking)
unfolding link init_element fill_module_types
prepare alloc imports module_code l = do
  l ← link alloc imports module_code l
  l ← for_each (on_store init_element) module_code.elements l
  module_types ← fill_module_types alloc l
  done (module_types, l)

unfoldable pub instantiate :
    Allocator
    → State.Allocator
    → Machine
    → Flags
    → (ℕ → Linking → Linking)
    → List NamedModule
    → Module
    → Store
    → List (ℕ × List ℕ)
    → Attempt Linking
unfolding prepare link_codes init_data
instantiate alloc calloc machine flags invoke imports module_code store segments = do
  (module_types, l) ←
      prepare alloc imports module_code
        (record { store = store; module_inst = no_instance; segments = segments })
  l ← link_codes machine calloc flags module_types 0 module_code.codes l
  l ← for_each (on_store init_data) module_code.datas l
  run_start invoke module_code.start l
