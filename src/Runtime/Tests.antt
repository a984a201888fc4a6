-- ===== src/Runtime/Tests.antt =====
-- The runtime's checks at small instances.
use wasmjit.Prelude.{
  ℕ, ◌+◌, ◌/◌, ◌≡◌, ◌↔◌, inr, refl, true, [], ◌∷◌, none, some, arith, leb, if◌then◌else◌,
}
use wasmjit.Ast.Section.{FuncType, Limits}
use wasmjit.Ast.Valtype
use wasmjit.Runtime.Store.{FuncInst, TableInst, MemInst, Store, wasm_page_size}
use wasmjit.Runtime.Typecheck.{typecheck_func, typecheck_table, typecheck_memory}
use wasmjit.Runtime.Typecheck.Exact.{typecheck_func_iff}
use wasmjit.Runtime.Typecheck.Limits.{Allows, typecheck_table_iff, typecheck_memory_iff}
use wasmjit.Runtime.Indirect.{array_index_nospec, resolve_indirect_call}
use wasmjit.Runtime.Indirect.Resolves.{
  array_index_nospec_lem, Resolves, resolve_indirect_call-Resolves,
}

abbrev unary : FuncType
unary = record { input_types = Valtype.i32 ∷ []; output_type = Valtype.i32 }

abbrev callee : FuncInst
callee = record {
  compiled_code = some 4096;
  compiled_code_size = 0;
  invoker = none;
  invoker_size = 0;
  stack_usage = 0;
  type = unary;
}

abbrev small_table : TableInst
small_table = record { slots = none ∷ some 0 ∷ []; elemtype = 0x70; length = 2; max = 4 }

abbrev small_memory : MemInst
small_memory = record { bytes = []; size = 65536; max = 131072 }

abbrev small_store : Store
small_store = record { funcs = callee ∷ []; tables = small_table ∷ []; mems = []; globals = [] }

abbrev one_or_more : Limits
one_or_more = record { min = 1; max = 0 }

typecheck_func_iff_example : (typecheck_func unary callee ≡ true) ↔ (unary ≡ callee.type)
typecheck_func_iff_example = typecheck_func_iff unary callee

typecheck_table_iff_example :
    (typecheck_table (record { elemtype = 0x70; limits = one_or_more }) small_table ≡ true)
    ↔ ((small_table.elemtype ≡ 0x70) × ((n : ℕ) → Allows 2 4 n → Allows 1 0 n))
typecheck_table_iff_example =
    typecheck_table_iff (record { elemtype = 0x70; limits = one_or_more }) small_table
      (inr (omega arith))

typecheck_memory_iff_example :
    (typecheck_memory (record { limits = one_or_more }) small_memory ≡ true) ↔ (
      (n : ℕ)
      → Allows (small_memory.size / wasm_page_size) (small_memory.max / wasm_page_size) n
      → Allows 1 0 n)
typecheck_memory_iff_example =
    typecheck_memory_iff (record { limits = one_or_more }) small_memory (inr (omega arith))

array_index_nospec_lem_example : array_index_nospec 5 1 6 ≡ (if leb (5 + 1) 6 then 5 else 0)
array_index_nospec_lem_example = array_index_nospec_lem 5 1 6 (omega arith) (omega arith)

resolve_indirect_call-Resolves_example :
    Resolves small_store small_table unary 1 (resolve_indirect_call small_store small_table unary 1)
resolve_indirect_call-Resolves_example =
    resolve_indirect_call-Resolves small_store small_table unary 1
      (record { slots = refl; points = (tt, (omega arith, tt)); bound = omega arith }) (omega arith)
