-- ===== src/Instantiate/Define.antt =====
-- src/wasmjit/instantiate.c: the objects that a module defines, and its exports. Each object takes the
-- next address of the store.
pub mod Lists
pub mod Constants
pub mod Has
pub mod Declared
use wasmjit.Prelude.{
  ℕ, ◌+◌, List, [], ◌∷◌, ◌++◌, Option, none, some, length, get_elem?, ◌==◌, if◌then◌else◌,
}
use wasmjit.Ast.Section.{FuncType, TableType, MemoryType, Global, Export, Module}
use wasmjit.Runtime.Store.{FuncInst, Store, ExportPtr}
use wasmjit.Instantiate.State.{ModuleInst, Attempt, done, undefined, ensure, element, ◌>>=◌}
use wasmjit.Instantiate.Constant.{read_constant_expression}
use wasmjit.Instantiate.Create.{create_table, create_memory}
use wasmjit.Instantiate.Import.{Linking, Allocator, NamedModule, c_string, load_import, for_each}

unfoldable pub add_type : Allocator → FuncType → Linking → Attempt Linking
add_type alloc type l = ensure (alloc l 0) >>= λ _.
    done
      (record l { module_inst = record l.module_inst { types = l.module_inst.types ++ type ∷ [] } })

unfoldable pub add_func : Allocator → List FuncType → ℕ → Linking → Attempt Linking
add_func alloc types typeidx l = do
  _ ← ensure (alloc l 0)
  type ← element (get_elem? types typeidx)
  _ ← ensure (alloc l 1)
  done (record l {
    store = record l.store {
      funcs =
          l.store.funcs
          ++ record {
            compiled_code = none;
            compiled_code_size = 0;
            invoker = none;
            invoker_size = 0;
            stack_usage = 0;
            type = type;
          }
            ∷ [];
    };
    module_inst = record l.module_inst { funcs = l.module_inst.funcs ++ length l.store.funcs ∷ [] };
  })

unfoldable pub add_table : Allocator → TableType → Linking → Attempt Linking
unfolding create_table
add_table alloc table l = do
  tableinst ← create_table (alloc l 0) (alloc l 1) table
  _ ← ensure (alloc l 2)
  done (record l {
    store = record l.store { tables = l.store.tables ++ tableinst ∷ [] };
    module_inst = record l.module_inst {
      tables = l.module_inst.tables ++ length l.store.tables ∷ [];
    };
  })

unfoldable pub add_memory : Allocator → MemoryType → Linking → Attempt Linking
unfolding create_memory
add_memory alloc memtype l = do
  meminst ← create_memory (alloc l 0) (alloc l 1) memtype
  _ ← ensure (alloc l 2)
  done (record l {
    store = record l.store { mems = l.store.mems ++ meminst ∷ [] };
    module_inst = record l.module_inst { mems = l.module_inst.mems ++ length l.store.mems ∷ [] };
  })

unfoldable pub add_global : Allocator → Global → Linking → Attempt Linking
unfolding read_constant_expression
add_global alloc global l = do
  value ← read_constant_expression l.store l.module_inst global.type.valtype global.instructions
  _ ← ensure (alloc l 0)
  _ ← ensure (alloc l 1)
  done (record l {
    store = record l.store {
      globals = l.store.globals ++ record { value = value; mut = global.type.mut } ∷ [];
    };
    module_inst = record l.module_inst {
      globals = l.module_inst.globals ++ length l.store.globals ∷ [];
    };
  })

-- The switch on IMPORT_DESC_TYPE_FUNC, _TABLE, _MEM and _GLOBAL.
unfoldable pub export_value : ModuleInst → ℕ → ℕ → Attempt ExportPtr
export_value module_inst idx_type idx =
    if idx_type == 0
    then (element (get_elem? module_inst.funcs idx) >>= λ a. done (ExportPtr.func a))
    else if idx_type == 1
    then (element (get_elem? module_inst.tables idx) >>= λ a. done (ExportPtr.table a))
    else if idx_type == 2
    then (element (get_elem? module_inst.mems idx) >>= λ a. done (ExportPtr.mem a))
    else if idx_type == 3
    then (element (get_elem? module_inst.globals idx) >>= λ a. done (ExportPtr.global a))
    else undefined

unfoldable pub add_export : Allocator → Export → Linking → Attempt Linking
unfolding export_value
add_export alloc export l = do
  _ ← ensure (alloc l 0)
  _ ← ensure (alloc l 1)
  value ← export_value l.module_inst export.idx_type export.idx
  done (record l {
    module_inst = record l.module_inst {
      exports = l.module_inst.exports ++ record { name = c_string export.name; value = value } ∷ [];
    };
  })

-- The first half of wasmjit_instantiate: the module's types, imports, definitions and exports.
unfoldable pub link : Allocator → List NamedModule → Module → Linking → Attempt Linking
unfolding add_type load_import add_func add_table add_memory add_global add_export
link alloc imports module_code l = do
  l ← ensure (alloc l 1) >>= λ _. for_each (add_type alloc) module_code.types l
  l ← for_each (load_import alloc module_code.types imports) module_code.imports l
  l ← for_each (add_func alloc module_code.types) module_code.typeidxs l
  l ← for_each (add_table alloc) module_code.tables l
  l ← for_each (add_memory alloc) module_code.memories l
  l ← for_each (add_global alloc) module_code.globals l
  for_each (add_export alloc) module_code.exports l
