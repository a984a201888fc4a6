-- ===== src/Instantiate/Code.antt =====
-- src/wasmjit/instantiate.c: fill_module_types, and the machine code of a module's functions: it is
-- compiled, copied to a segment, and the addresses that it refers to are written into it. `machine` is
-- what the host does: it maps segments, and has the addresses of objects. A segment for so many bytes
-- has `room` for as many or more.
pub mod References
use wasmjit.Prelude.{
  ℕ, zero, suc, ◌+◌, ◌/◌, ◌%◌, ◌^◌, Bool, true, ◌||◌, List, [], ◌∷◌, ◌++◌, Option, none, some,
  length, get_elem?, leb, ◌==◌, if◌then◌else◌,
}
use wasmjit.Prelude.Overwrite.{overwrite}
use wasmjit.Ast.Section.{FuncType, GlobalType, TableType, MemoryType, Code}
use wasmjit.Runtime.Store.{FuncInst, TableInst, MemInst, GlobalInst, Store, wasm_page_size}
use wasmjit.Instantiate.State.{
  ModuleInst, Attempt, done, error, undefined, ensure, assert, element, ◌>>=◌,
}
use wasmjit.Instantiate.Segment.{set_elem}
use wasmjit.Instantiate.Import.{Linking, Allocator, found}
use wasmjit.Compile.State.{
  MemrefType, memref_type, memref_func, memref_table, memref_mem, memref_global,
  memref_resolve_indirect_call, memref_trap, memref_stack_top, Memref, State, Flags, Result,
  le_bytes,
}
use wasmjit.Compile.State
use wasmjit.Compile.Control.{Env}
use wasmjit.Compile.Function.{compile_function}
use wasmjit.Compile.Invoker.{compile_invoker}
use wasmjit.Compile.Hostfunc.{no_output}
use wasmjit.Compile.Emits.Frames.{rounds}

-- Something of each of the objects at some addresses.
abbrev pub collect {ℓ κ} : {A : Type ℓ} {B : Type κ} → (A → B) → List A → List ℕ → Attempt (List B)
collect f objects [] = done []
collect f objects (a ∷ rest) =
    element (get_elem? objects a) >>= λ x. collect f objects rest >>= λ ys. done (f x ∷ ys)

-- `struct ModuleTypes`
pub record ModuleTypes : Type 0 where
  pub functypes : List FuncType
  pub tabletypes : List TableType
  pub memorytypes : List MemoryType
  pub globaltypes : List GlobalType

abbrev pub func_type : FuncInst → FuncType
func_type f = f.type

-- The limits have 32 bits.
abbrev pub table_type : TableInst → TableType
table_type t = record {
  elemtype = t.elemtype;
  limits = record { min = t.length % 2 ^ 32; max = t.max % 2 ^ 32 };
}

abbrev pub memory_type : MemInst → MemoryType
memory_type m = record {
  limits = record { min = m.size / wasm_page_size; max = m.max / wasm_page_size };
}

abbrev pub global_type : GlobalInst → GlobalType
global_type g = record { valtype = g.value.type; mut = g.mut }

-- `calloc` may give nothing for no elements.
abbrev pub enough : Bool → List ℕ → Attempt (Unit {0})
enough answer addresses = ensure ((length addresses == 0) || answer)

unfoldable pub fill_module_types : Allocator → Linking → Attempt ModuleTypes
fill_module_types alloc l = do
  _ ← enough (alloc l 0) l.module_inst.funcs
  _ ← enough (alloc l 1) l.module_inst.tables
  _ ← enough (alloc l 2) l.module_inst.mems
  _ ← enough (alloc l 3) l.module_inst.globals
  functypes ← collect func_type l.store.funcs l.module_inst.funcs
  tabletypes ← collect table_type l.store.tables l.module_inst.tables
  memorytypes ← collect memory_type l.store.mems l.module_inst.mems
  globaltypes ← collect global_type l.store.globals l.module_inst.globals
  done (record {
    functypes = functypes;
    tabletypes = tabletypes;
    memorytypes = memorytypes;
    globaltypes = globaltypes;
  })

pub record Machine : Type 0 where
  pub map_segment : Linking → ℕ → Option ℕ
  pub room : ℕ → ℕ
  pub mark_executable : Linking → ℕ → ℕ → Bool
  pub type_address : ℕ → ℕ
  pub func_address : ℕ → ℕ
  pub table_address : ℕ → ℕ
  pub mem_address : ℕ → ℕ
  pub global_address : ℕ → ℕ
  pub resolve_indirect_call : ℕ
  pub trap : ℕ
  pub stack_top : ℕ

-- The address of an element of an array of pointers, or of an array.
abbrev pub pointed : (ℕ → ℕ) → List ℕ → Option ℕ → Attempt ℕ
pointed address addresses idx =
    element idx >>= λ i. element (get_elem? addresses i) >>= λ a. done (address a)

abbrev pub reference_value : Machine → ModuleInst → MemrefType → Option ℕ → Attempt ℕ
reference_value machine m memref_type idx =
    element idx >>= λ i. element (get_elem? m.types i) >>= λ _. done (machine.type_address i)
reference_value machine m memref_func idx = pointed machine.func_address m.funcs idx
reference_value machine m memref_table idx = pointed machine.table_address m.tables idx
reference_value machine m memref_mem idx = pointed machine.mem_address m.mems idx
reference_value machine m memref_global idx = pointed machine.global_address m.globals idx
reference_value machine m memref_resolve_indirect_call idx = done machine.resolve_indirect_call
reference_value machine m memref_trap idx = done machine.trap
reference_value machine m memref_stack_top idx = done machine.stack_top

-- The eight bytes of an address, inside the segment.
abbrev pub write_reference : List ℕ → ℕ → ℕ → Attempt (List ℕ)
write_reference bytes code_offset val =
    if leb (code_offset + 8) (length bytes)
    then done (overwrite bytes code_offset (le_bytes 8 val))
    else undefined

unfoldable pub resolve_references : Machine → ModuleInst → List Memref → List ℕ → Attempt (List ℕ)
resolve_references machine m [] bytes = done bytes
resolve_references machine m (r ∷ rs) bytes = reference_value machine m r.type r.idx >>= λ val.
    write_reference bytes r.code_offset val >>= λ written. resolve_references machine m rs written

-- What a translation returns. It has fuel enough, and so `out_of_fuel` is no case of the source.
abbrev pub returned {ℓ} : {A : Type ℓ} → Result A → Attempt (A × State)
returned (State.done a s) = done (a, s)
returned State.error = error
returned State.undefined = undefined
returned State.out_of_fuel = undefined

-- What is given to wasmjit_compile_function for a function of a type.
abbrev pub env_of : List FuncType → ModuleTypes → FuncType → Flags → Env
env_of types module_types type flags = record {
  func_types = types;
  functypes = module_types.functypes;
  globaltypes = module_types.globaltypes;
  type = type;
  locals_md = [];
  n_frame_locals = 0;
  check_stack = true;
  flags = flags;
}

-- A function's code in a segment, and what its instance keeps of it.
unfoldable pub install_code :
    Machine
    → State.Allocator
    → Flags
    → ModuleTypes
    → Code
    → ℕ
    → FuncInst
    → Linking
    → Attempt Linking
unfolding resolve_references compile_function
install_code machine calloc flags module_types code f funcinst l = do
  (stack_usage, s) ← returned (
      compile_function calloc (env_of l.module_inst.types module_types funcinst.type flags)
        (rounds code.instructions) code no_output)
  mapped ← found (machine.map_segment l (length s.output))
  bytes ← resolve_references machine l.module_inst s.memrefs s.output
  _ ← ensure (machine.mark_executable l mapped (length bytes))
  done (record l {
    store = record l.store {
      funcs = set_elem l.store.funcs f (record funcinst {
        compiled_code = some mapped;
        compiled_code_size = length bytes;
        stack_usage = stack_usage;
      });
    };
    segments = l.segments ++ (mapped, bytes) ∷ [];
  })

-- The invoker's segment is mapped with the size of the function's code.
unfoldable pub install_invoker :
    Machine → State.Allocator → Flags → ℕ → FuncInst → Linking → Attempt Linking
unfolding compile_invoker
install_invoker machine calloc flags f funcinst l = do
  compiled_code ← element funcinst.compiled_code
  (_, s) ← returned (compile_invoker calloc flags funcinst.type compiled_code no_output)
  mapped ← found (machine.map_segment l funcinst.compiled_code_size)
  _ ← assert (leb (length s.output) (machine.room funcinst.compiled_code_size))
  _ ← ensure (machine.mark_executable l mapped funcinst.compiled_code_size)
  done (record l {
    store = record l.store {
      funcs =
          set_elem l.store.funcs f
            (record funcinst { invoker = some mapped; invoker_size = length s.output });
    };
    segments = l.segments ++ (mapped, s.output) ∷ [];
  })

-- The function that is the `i`th of those with code.
unfoldable pub link_code :
    Machine → State.Allocator → Flags → ModuleTypes → ℕ → Code → Linking → Attempt Linking
unfolding install_code install_invoker
link_code machine calloc flags module_types i code l = do
  f ← element (get_elem? l.module_inst.funcs (i + l.module_inst.n_imported_funcs))
  funcinst ← element (get_elem? l.store.funcs f)
  l ← install_code machine calloc flags module_types code f funcinst l
  funcinst ← element (get_elem? l.store.funcs f)
  install_invoker machine calloc flags f funcinst l

unfoldable pub link_codes :
    Machine → State.Allocator → Flags → ModuleTypes → ℕ → List Code → Linking → Attempt Linking
unfolding link_code
link_codes machine calloc flags module_types i [] l = done l
link_codes machine calloc flags module_types i (code ∷ codes) l =
    link_code machine calloc flags module_types i code l >>= λ t.
    link_codes machine calloc flags module_types (i + 1) codes t
