-- ===== src/Parse/Section.antt =====
-- src/wasmjit/parse.c: the readers of the module's sections, each with the sizes of the elements
-- that it allocates.
use wasmjit.Prelude.{ℕ, ◌*◌, not, ◌&&◌, List, ◌==◌, if◌then◌else◌}
use wasmjit.Ast.Section.{
  TableType, MemoryType, ImportDesc, Import, Global, Export, Element, CodeLocal, Code, DataSegment,
}
use wasmjit.Parse.State.{ok, undef, Reader, pure, failed, ◌>>=◌, Allocator, read_uint8, read_items}
use wasmjit.Parse.Leb.{read_uleb_uint32}
use wasmjit.Parse.Instruction.{read_vector}
use wasmjit.Parse.Instructions.{read_instructions}
use wasmjit.Parse.Types.{
  read_buf_internal, read_string, read_buffer, read_global_type, read_table_type, read_memory_type,
}

-- IMPORT_DESC_TYPE_FUNC, TABLE, MEM and GLOBAL are 0 to 3.
unfoldable pub read_import_desc : ℕ → Reader ImportDesc
unfolding read_table_type read_memory_type read_global_type
read_import_desc desc_type =
    if desc_type == 0
    then (do functypeidx ← read_uleb_uint32; pure (ImportDesc.func functypeidx))
    else if desc_type == 1
    then (do tabletype ← read_table_type; pure (ImportDesc.table tabletype))
    else if desc_type == 2
    then (do memtype ← read_memory_type; pure (ImportDesc.mem memtype))
    else if desc_type == 3
    then (do globaltype ← read_global_type; pure (ImportDesc.global globaltype))
    else failed

unfoldable pub read_import : Allocator → Reader Import
unfolding read_buf_internal read_import_desc
read_import alloc = do
  module_name ← read_string alloc
  name ← read_string alloc
  desc_type ← read_uint8
  desc ← read_import_desc desc_type
  pure (record { module_name = module_name; name = name; desc = desc })

-- The result of `calloc` is not tested here: where it is NULL, the first import is stored there.
unfoldable pub read_import_section : Allocator → Reader (List Import)
unfolding read_import
read_import_section alloc = do
  n_imports ← read_uleb_uint32
  allocated ← λ s. ok (alloc s.input (n_imports * 32)) s
  if not (n_imports == 0) && not allocated
      then (λ s. undef)
      else read_items n_imports (read_import alloc)

unfoldable pub read_function_section : Allocator → Reader (List ℕ)
read_function_section alloc = do
  n_typeidxs ← read_uleb_uint32
  read_vector alloc 4 n_typeidxs read_uleb_uint32

unfoldable pub read_table_section : Allocator → Reader (List TableType)
unfolding read_table_type
read_table_section alloc = do
  n_tables ← read_uleb_uint32
  read_vector alloc 12 n_tables read_table_type

unfoldable pub read_memory_section : Allocator → Reader (List MemoryType)
unfolding read_memory_type
read_memory_section alloc = do
  n_memories ← read_uleb_uint32
  read_vector alloc 8 n_memories read_memory_type

unfoldable pub read_global : Allocator → Reader Global
unfolding read_global_type
read_global alloc = do
  type ← read_global_type
  instructions ← read_instructions alloc
  pure (record { type = type; instructions = instructions })

unfoldable pub read_global_section : Allocator → Reader (List Global)
unfolding read_global
read_global_section alloc = do
  n_globals ← read_uleb_uint32
  read_vector alloc 24 n_globals (read_global alloc)

unfoldable pub read_export : Allocator → Reader Export
unfolding read_buf_internal
read_export alloc = do
  name ← read_string alloc
  idx_type ← read_uint8
  idx ← read_uleb_uint32
  pure (record { name = name; idx_type = idx_type; idx = idx })

unfoldable pub read_export_section : Allocator → Reader (List Export)
unfolding read_export
read_export_section alloc = do
  n_exports ← read_uleb_uint32
  read_vector alloc 16 n_exports (read_export alloc)

abbrev pub read_start_section : Reader ℕ
read_start_section = read_uleb_uint32

unfoldable pub read_element : Allocator → Reader Element
read_element alloc = do
  tableidx ← read_uleb_uint32
  instructions ← read_instructions alloc
  n_funcidxs ← read_uleb_uint32
  funcidxs ← read_vector alloc 4 n_funcidxs read_uleb_uint32
  pure (record { tableidx = tableidx; instructions = instructions; funcidxs = funcidxs })

unfoldable pub read_element_section : Allocator → Reader (List Element)
unfolding read_element
read_element_section alloc = do
  n_elements ← read_uleb_uint32
  read_vector alloc 40 n_elements (read_element alloc)

unfoldable pub read_code_local : Reader CodeLocal
read_code_local = do
  count ← read_uleb_uint32
  valtype ← read_uint8
  pure (record { count = count; valtype = valtype })

unfoldable pub read_code : Allocator → Reader Code
unfolding read_code_local
read_code alloc = do
  size ← read_uleb_uint32
  n_locals ← read_uleb_uint32
  locals ← read_vector alloc 8 n_locals read_code_local
  instructions ← read_instructions alloc
  pure (record { size = size; locals = locals; instructions = instructions })

unfoldable pub read_code_section : Allocator → Reader (List Code)
unfolding read_code
read_code_section alloc = do
  n_codes ← read_uleb_uint32
  read_vector alloc 32 n_codes (read_code alloc)

unfoldable pub read_data : Allocator → Reader DataSegment
unfolding read_buf_internal
read_data alloc = do
  memidx ← read_uleb_uint32
  instructions ← read_instructions alloc
  buf ← read_buffer alloc
  pure (record { memidx = memidx; instructions = instructions; buf = buf })

unfoldable pub read_data_section : Allocator → Reader (List DataSegment)
unfolding read_data
read_data_section alloc = do
  n_datas ← read_uleb_uint32
  read_vector alloc 40 n_datas (read_data alloc)
