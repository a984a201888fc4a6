-- ===== src/Parse/Module.antt =====
-- src/wasmjit/parse.c: read_module. Its `why` buffer, where the caller gives one, gets a message;
-- here it is a value, `Why`. `Item` names what the source's macro READ was reading.
-- A section's `size` is read, and used for custom sections alone.
pub mod Ends
use wasmjit.Prelude.{ℕ, zero, suc, ◌+◌, [], List, Option, none, some, length, ◌==◌, if◌then◌else◌}
use wasmjit.Ast.Section.{Module}
use wasmjit.Parse.State.{
  ParseState, Outcome, ok, fail, undef, out_of_fuel, Reader, Allocator, read_uint8, read_uint32,
  advance_parser,
}
use wasmjit.Parse.Leb.{read_uleb_uint32}
use wasmjit.Parse.Types.{read_type_section}
use wasmjit.Parse.Section.{
  read_import_section, read_function_section, read_table_section, read_memory_section,
  read_global_section, read_export_section, read_start_section, read_element_section,
  read_code_section, read_data_section,
}

pub data Item : Type 0 where
  magic version id size custom_section type_section import_section function_section table_section
        memory_section global_section export_section start_section element_section code_section
        data_section :
      Item

pub data Why : Type 0 where
  eof_while_reading : Item → Why
  error_reading : Item → Why
  bad_magic : ℕ → Why
  unsupported_version : ℕ → Why
  unsupported_section : ℕ → Why

-- What `read_module` returns: 1 with the module, or 0 with the message.
pub data ModuleResult : Type 0 where
  read : Module → ParseState → ModuleResult
  rejected : Why → ParseState → ModuleResult
  undefined : ModuleResult
  no_fuel : ModuleResult

-- The macro READ.
abbrev pub read_item {ℓ} :
    {A : Type ℓ} → Item → Outcome A → (A → ParseState → ModuleResult) → ModuleResult
read_item item (ok a s) k = k a s
read_item item (fail s) k =
    rejected (if s.eof then eof_while_reading item else error_reading item) s
read_item item undef k = undefined
read_item item out_of_fuel k = no_fuel

abbrev pub empty_module : Module
empty_module = record {
  types = [];
  imports = [];
  typeidxs = [];
  tables = [];
  memories = [];
  globals = [];
  exports = [];
  start = none;
  elements = [];
  codes = [];
  datas = [];
}

abbrev pub Continue : Type 0
Continue = Module → ParseState → ModuleResult

-- The later cases of the switch on a section's id, up to the default.
unfoldable pub read_late_section : Allocator → ℕ → Module → ParseState → Continue → ModuleResult
read_late_section alloc i m s k =
    if i == 6
    then read_item global_section (read_global_section alloc s) (λ x. k (record m { globals = x }))
    else if i == 7
    then read_item export_section (read_export_section alloc s) (λ x. k (record m { exports = x }))
    else if i == 8
    then read_item start_section (read_start_section s) (λ x. k (record m { start = some x }))
    else if i == 9
    then read_item element_section (read_element_section alloc s)
        (λ x. k (record m { elements = x }))
    else if i == 10
    then read_item code_section (read_code_section alloc s) (λ x. k (record m { codes = x }))
    else if i == 11
    then read_item data_section (read_data_section alloc s) (λ x. k (record m { datas = x }))
    else rejected (unsupported_section i) s

-- The body of one section of that id and size; what it holds replaces what the module had.
unfoldable pub read_section : Allocator → ℕ → ℕ → Module → ParseState → Continue → ModuleResult
unfolding read_late_section
read_section alloc i n m s k =
    if i == 0
    then read_item custom_section (advance_parser n s) (λ x. k m)
    else if i == 1
    then read_item type_section (read_type_section alloc s) (λ x. k (record m { types = x }))
    else if i == 2
    then read_item import_section (read_import_section alloc s) (λ x. k (record m { imports = x }))
    else if i == 3
    then read_item function_section (read_function_section alloc s)
        (λ x. k (record m { typeidxs = x }))
    else if i == 4
    then read_item table_section (read_table_section alloc s) (λ x. k (record m { tables = x }))
    else if i == 5
    then read_item memory_section (read_memory_section alloc s) (λ x. k (record m { memories = x }))
    else read_late_section alloc i m s k

-- The id of the next section: the module is complete where the input ends here.
abbrev pub next_section : Module → Outcome ℕ → (ℕ → ParseState → ModuleResult) → ModuleResult
next_section m (ok i s) k = k i s
next_section m (fail s) k = if s.eof then read m s else rejected (error_reading id) s
next_section m undef k = undefined
next_section m out_of_fuel k = no_fuel

unfoldable pub read_sections : Allocator → ℕ → Continue
unfolding read_section
read_sections alloc zero m s = no_fuel
read_sections alloc (suc fuel) m s = next_section m (read_uint8 s) λ i s₁.
    read_item size (read_uleb_uint32 s₁)
      λ n s₂. read_section alloc i n m s₂ (read_sections alloc fuel)

abbrev pub wasm_magic : ℕ
wasm_magic = 0x6d736100

abbrev pub wasm_version : ℕ
wasm_version = 1

-- Each section takes a byte at least, so the fuel is enough.
unfoldable pub read_module : Allocator → ParseState → ModuleResult
unfolding read_sections
read_module alloc s = read_item magic (read_uint32 s) λ m s₁.
    if m == wasm_magic
    then (read_item version (read_uint32 s₁) λ v s₂.
        if v == wasm_version
        then read_sections alloc (length s₂.input + 1) empty_module s₂
        else rejected (unsupported_version v) s₂)
    else rejected (bad_magic m) s₁
