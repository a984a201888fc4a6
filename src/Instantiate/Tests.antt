-- ===== src/Instantiate/Tests.antt =====
-- Steps of instantiation on small modules.
use wasmjit.Prelude.{◌≡◌, inl, inr, refl, true, [], ◌∷◌, All, none, some, arith}
use wasmjit.Ast.Instruction.{i32_const, get_global, nil, cons}
use wasmjit.Ast.Section.{Limits, TableType, Element, DataSegment}
use wasmjit.Ast.Valtype
use wasmjit.Runtime.Store.{FuncInst, TableInst, MemInst, GlobalInst, Store}
use wasmjit.Runtime.Typecheck.{typecheck_table, typecheck_memory}
use wasmjit.Runtime.Indirect.Resolves.{IsTable}
use wasmjit.Instantiate.State.{ModuleInst, undefined}
use wasmjit.Instantiate.Constant.{read_constant_expression}
use wasmjit.Instantiate.Constant.Typed.{
  Safe, Denotes, Evaluates, read_constant_expression-Evaluates,
}
use wasmjit.Instantiate.Create.{create_table, create_memory}
use wasmjit.Instantiate.Create.Typed.{
  Yields, IsMemory, create_memory-typecheck_memory, create_table-typecheck_table,
}
use wasmjit.Instantiate.Segment.{init_table, init_memory, init_data}
use wasmjit.Instantiate.Segment.Data.{Copies, init_memory-Copies}
use wasmjit.Instantiate.Segment.Table.{more, empty, Fills, init_table-Fills}
use wasmjit.Instantiate.Segment.Keeps.{IsWellFormed}
use wasmjit.Instantiate.Segment.Within.{init_data-Safe}

abbrev nullary : FuncInst
nullary = record {
  compiled_code = none;
  compiled_code_size = 0;
  invoker = none;
  invoker_size = 0;
  stack_usage = 0;
  type = record { input_types = []; output_type = Valtype.null };
}

abbrev empty_table : TableInst
empty_table = record { slots = none ∷ none ∷ []; elemtype = 0x70; length = 2; max = 2 }

abbrev four_bytes : MemInst
four_bytes = record { bytes = 0 ∷ 0 ∷ 0 ∷ 0 ∷ []; size = 4; max = 0 }

abbrev offset_one : GlobalInst
offset_one = record { value = record { type = Valtype.i32; bits = 1 }; mut = 0 }

abbrev store : Store
store = record {
  funcs = nullary ∷ [];
  tables = empty_table ∷ [];
  mems = four_bytes ∷ [];
  globals = offset_one ∷ [];
}

abbrev instance_of_one : ModuleInst
instance_of_one = record {
  types = nullary.type ∷ [];
  funcs = 0 ∷ [];
  tables = 0 ∷ [];
  mems = 0 ∷ [];
  globals = 0 ∷ [];
  exports = [];
  n_imported_funcs = 0;
  n_imported_tables = 0;
  n_imported_mems = 0;
  n_imported_globals = 0;
}

store-IsWellFormed : IsWellFormed store
store-IsWellFormed =
    ((refl, tt), (record { slots = refl; points = (tt, (tt, tt)); bound = omega arith }, tt))

abbrev segment : DataSegment
segment = record { memidx = 0; instructions = cons (get_global 0) nil; buf = 7 ∷ 8 ∷ [] }

abbrev elements : Element
elements = record { tableidx = 0; instructions = cons (i32_const 1) nil; funcidxs = 0 ∷ [] }

abbrev one_page : Limits
one_page = record { min = 1; max = 2 }

init_memory-Copies_example :
    Copies four_bytes 1 (7 ∷ 8 ∷ []) (init_memory 1 (7 ∷ 8 ∷ []) four_bytes)
init_memory-Copies_example = init_memory-Copies 1 (7 ∷ 8 ∷ []) four_bytes refl

init_table-Fills_example :
    Fills empty_table 1 1 (some 0 ∷ []) (init_table (0 ∷ []) 1 (0 ∷ []) empty_table)
init_table-Fills_example =
    init_table-Fills (0 ∷ []) (0 ∷ []) (some 0 ∷ []) 1 empty_table (more refl empty) refl
      (omega arith) (omega arith)

-- The largest offset: the end of one element wraps to 0.
wrapped : init_table (0 ∷ []) 0xffff_ffff (0 ∷ []) empty_table ≡ undefined
unfolding init_table
wrapped = refl

init_data-Safe_example : Safe IsWellFormed (init_data store instance_of_one segment)
init_data-Safe_example =
    init_data-Safe store instance_of_one segment store-IsWellFormed (omega arith, tt)
      (omega arith, tt) (omega arith) (omega arith, tt)

read_constant_expression-Evaluates_example :
    Evaluates Valtype.i32
      (Denotes store instance_of_one (cons (get_global 0) nil))
      (read_constant_expression store instance_of_one Valtype.i32 (cons (get_global 0) nil))
read_constant_expression-Evaluates_example =
    read_constant_expression-Evaluates store instance_of_one Valtype.i32 (cons (get_global 0) nil)
      (inl refl) (omega arith, tt) (omega arith, tt)

create_memory-typecheck_memory_example :
    Yields
      (λ m. (typecheck_memory (record { limits = one_page }) m ≡ true) × IsMemory m)
      (create_memory true true (record { limits = one_page }))
create_memory-typecheck_memory_example =
    create_memory-typecheck_memory (record { limits = one_page }) (inr (omega arith)) (omega arith)
      (omega arith)

abbrev declared : TableType
declared = record { elemtype = 0x70; limits = one_page }

create_table-typecheck_table_example :
    Yields
      (λ t. (typecheck_table declared t ≡ true) × IsTable [] t × All (λ s. s ≡ none) t.slots)
      (create_table true true declared)
create_table-typecheck_table_example =
    create_table-typecheck_table [] declared (inr (omega arith)) (omega arith)
