-- ===== src/Parse/Types.antt =====
-- src/wasmjit/parse.c: strings and buffers, and the types that the sections share.
use wasmjit.Prelude.{
  ℕ, ◌+◌, ◌^◌, ◌%◌, true, not, ◌||◌, List, length, take, drop, leb, ltb, ◌==◌, if◌then◌else◌,
}
use wasmjit.Ast.Section.{FuncType, GlobalType, Limits, TableType, MemoryType}
use wasmjit.Ast.Valtype
use wasmjit.Parse.State.{
  fail, ok, undef, Reader, pure, check, ◌>>=◌, ◌>>◌, Allocator, read_uint8, read_items,
}
use wasmjit.Parse.Leb.{read_uleb_uint32}
use wasmjit.Parse.Instruction.{read_vector}

-- `malloc` is asked for the size in 32 bits; a size that wraps there makes the copy overrun.
unfoldable pub copy_buf : Allocator → ℕ → ℕ → Reader (List ℕ)
copy_buf alloc string_size as_string s =
    if ltb (length s.input) string_size
    then fail (record s { eof = true })
    else if not (alloc s.input ((string_size + as_string) % 2 ^ 32))
    then fail s
    else if leb (2 ^ 32) (string_size + as_string)
    then undef
    else ok (take string_size s.input) (record s { input = drop string_size s.input })

unfoldable pub read_buf_internal : Allocator → ℕ → Reader (List ℕ)
unfolding copy_buf
read_buf_internal alloc as_string = do
  string_size ← read_uleb_uint32
  copy_buf alloc string_size as_string

abbrev pub read_string : Allocator → Reader (List ℕ)
read_string alloc = read_buf_internal alloc 1

abbrev pub read_buffer : Allocator → Reader (List ℕ)
read_buffer alloc = read_buf_internal alloc 0

abbrev pub function_type_id : ℕ
function_type_id = 0x60

abbrev pub func_type_max_inputs : ℕ
func_type_max_inputs = 254

abbrev pub func_type_max_outputs : ℕ
func_type_max_outputs = 1

-- FUNC_TYPE_N_OUTPUTS
abbrev pub n_outputs_of : FuncType → ℕ
n_outputs_of ft = if ft.output_type == Valtype.null then 0 else 1

-- One element of the type section.
unfoldable pub read_func_type : Reader FuncType
read_func_type = do
  ft ← read_uint8
  check (ft == function_type_id)
  n_inputs ← read_uleb_uint32
  check (leb n_inputs func_type_max_inputs)
  input_types ← read_items n_inputs read_uint8
  n_outputs ← read_uleb_uint32
  check (leb n_outputs func_type_max_outputs)
  output_type ← if n_outputs == 0 then pure Valtype.null else read_uint8
  pure (record { input_types = input_types; output_type = output_type })

unfoldable pub read_type_section : Allocator → Reader (List FuncType)
unfolding read_func_type
read_type_section alloc = do
  n_types ← read_uleb_uint32
  read_vector alloc 256 n_types read_func_type

unfoldable pub read_global_type : Reader GlobalType
read_global_type = do
  valtype ← read_uint8
  check (
      valtype == Valtype.i32
      || valtype == Valtype.i64
      || valtype == Valtype.f32
      || valtype == Valtype.f64)
  mut ← read_uint8
  check (mut == 0 || mut == 1)
  pure (record { valtype = valtype; mut = mut })

unfoldable pub read_limits : Reader Limits
read_limits = do
  byt ← read_uint8
  check (byt == 0 || byt == 1)
  min ← read_uleb_uint32
  max ← if byt == 0 then pure 0 else read_uleb_uint32
  pure (record { min = min; max = max })

abbrev pub elemtype_anyfunc : ℕ
elemtype_anyfunc = 0x70

unfoldable pub read_table_type : Reader TableType
unfolding read_limits
read_table_type = do
  elemtype ← read_uint8
  check (elemtype == elemtype_anyfunc)
  limits ← read_limits
  pure (record { elemtype = elemtype; limits = limits })

unfoldable pub read_memory_type : Reader MemoryType
unfolding read_limits
read_memory_type = do limits ← read_limits; pure (record { limits = limits })
