-- ===== src/Parse/Takes/Section.antt =====
-- `Takes` for the readers of types and sections of src/wasmjit/parse.c.
use wasmjit.Prelude.{ℕ, length, arith, Bool-cases, inl, inr, ltb}
use wasmjit.Parse.State.{Allocator}
use wasmjit.Parse.Leb.{read_uleb_uint32}
use wasmjit.Parse.Instructions.{read_instructions}
use wasmjit.Parse.Types.{
  copy_buf, read_buf_internal, read_func_type, read_type_section, read_global_type, read_limits,
  read_table_type, read_memory_type,
}
use wasmjit.Parse.Section.{
  read_import_desc, read_import, read_import_section, read_function_section, read_table_section,
  read_memory_section, read_global, read_global_section, read_export, read_export_section,
  read_element, read_element_section, read_code_local, read_code, read_code_section, read_data,
  read_data_section,
}
use wasmjit.Parse.Takes.{
  Takes-mono, Runs, fails, undefined, bind-Takes, if-Takes, if_reader-Takes, pure-Takes,
  check-Takes, drop-Takes, read_uint8-Runs, read_uleb-Runs, read_items-Takes, read_vector-Takes,
}
use wasmjit.Parse.Takes.Instructions.{read_instructions-Takes}

read_instructions-Runs : (alloc : Allocator) → Runs (read_instructions alloc)
read_instructions-Runs alloc s = Takes-mono (omega arith) (read_instructions-Takes alloc s)

u32-Runs : Runs read_uleb_uint32
u32-Runs = read_uleb-Runs 32

ruleset steps = (if_reader-Takes, bind-Takes, check-Takes, pure-Takes, read_uint8-Runs, u32-Runs)

copy_buf-Runs : (alloc : Allocator) (n z : ℕ) → Runs (copy_buf alloc n z)
unfolding copy_buf
copy_buf-Runs alloc n z s = elim (Bool-cases (ltb (length s.input) n)) [
  | inl short ↦ rw short fails
  | inr enough ↦ rw enough (
      if-Takes _ fails
        (if-Takes _ undefined (Takes-mono (omega arith) (drop-Takes _ n s (ground arith)))))
]

read_buf_internal-Runs : (alloc : Allocator) (z : ℕ) → Runs (read_buf_internal alloc z)
unfolding read_buf_internal
read_buf_internal-Runs alloc z s = search (bind-Takes, u32-Runs, copy_buf-Runs)

read_func_type-Runs : Runs read_func_type
unfolding read_func_type
read_func_type-Runs s = search (steps, read_items-Takes) depth 16

pub read_type_section-Runs : (alloc : Allocator) → Runs (read_type_section alloc)
unfolding read_type_section
read_type_section-Runs alloc s =
    search (bind-Takes, u32-Runs, read_vector-Takes, read_func_type-Runs)

read_global_type-Runs : Runs read_global_type
unfolding read_global_type
read_global_type-Runs s = search steps depth 10

read_limits-Runs : Runs read_limits
unfolding read_limits
read_limits-Runs s = search steps depth 10

read_table_type-Runs : Runs read_table_type
unfolding read_table_type
read_table_type-Runs s = search (steps, read_limits-Runs) depth 8

read_memory_type-Runs : Runs read_memory_type
unfolding read_memory_type
read_memory_type-Runs s = search (bind-Takes, read_limits-Runs, pure-Takes)

read_import_desc-Runs : (t : ℕ) → Runs (read_import_desc t)
unfolding read_import_desc
read_import_desc-Runs t s =
    search (steps, read_table_type-Runs, read_memory_type-Runs, read_global_type-Runs, fails) depth
      9

read_import-Runs : (alloc : Allocator) → Runs (read_import alloc)
unfolding read_import
read_import-Runs alloc s = search (steps, read_buf_internal-Runs, read_import_desc-Runs) depth 8

pub read_import_section-Runs : (alloc : Allocator) → Runs (read_import_section alloc)
unfolding read_import_section
read_import_section-Runs alloc s =
    search
      (
        bind-Takes, u32-Runs, pure-Takes, if_reader-Takes, undefined, read_items-Takes,
        read_import-Runs,
      )
      depth 8

ruleset vectors = (bind-Takes, u32-Runs, read_vector-Takes)

pub read_function_section-Runs : (alloc : Allocator) → Runs (read_function_section alloc)
unfolding read_function_section
read_function_section-Runs alloc s = search vectors

pub read_table_section-Runs : (alloc : Allocator) → Runs (read_table_section alloc)
unfolding read_table_section
read_table_section-Runs alloc s = search (vectors, read_table_type-Runs)

pub read_memory_section-Runs : (alloc : Allocator) → Runs (read_memory_section alloc)
unfolding read_memory_section
read_memory_section-Runs alloc s = search (vectors, read_memory_type-Runs)

read_global-Runs : (alloc : Allocator) → Runs (read_global alloc)
unfolding read_global
read_global-Runs alloc s =
    search (bind-Takes, read_global_type-Runs, read_instructions-Runs, pure-Takes) depth 8

pub read_global_section-Runs : (alloc : Allocator) → Runs (read_global_section alloc)
unfolding read_global_section
read_global_section-Runs alloc s = search (vectors, read_global-Runs)

read_export-Runs : (alloc : Allocator) → Runs (read_export alloc)
unfolding read_export
read_export-Runs alloc s = search (steps, read_buf_internal-Runs) depth 8

pub read_export_section-Runs : (alloc : Allocator) → Runs (read_export_section alloc)
unfolding read_export_section
read_export_section-Runs alloc s = search (vectors, read_export-Runs)

read_element-Runs : (alloc : Allocator) → Runs (read_element alloc)
unfolding read_element
read_element-Runs alloc s = search (vectors, read_instructions-Runs, pure-Takes) depth 9

pub read_element_section-Runs : (alloc : Allocator) → Runs (read_element_section alloc)
unfolding read_element_section
read_element_section-Runs alloc s = search (vectors, read_element-Runs)

read_code_local-Runs : Runs read_code_local
unfolding read_code_local
read_code_local-Runs s = search steps

read_code-Runs : (alloc : Allocator) → Runs (read_code alloc)
unfolding read_code
read_code-Runs alloc s =
    search (vectors, read_code_local-Runs, read_instructions-Runs, pure-Takes) depth 9

pub read_code_section-Runs : (alloc : Allocator) → Runs (read_code_section alloc)
unfolding read_code_section
read_code_section-Runs alloc s = search (vectors, read_code-Runs)

read_data-Runs : (alloc : Allocator) → Runs (read_data alloc)
unfolding read_data
read_data-Runs alloc s =
    search (vectors, read_instructions-Runs, read_buf_internal-Runs, pure-Takes) depth 9

pub read_data_section-Runs : (alloc : Allocator) → Runs (read_data_section alloc)
unfolding read_data_section
read_data_section-Runs alloc s = search (vectors, read_data-Runs)
