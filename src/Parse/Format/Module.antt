-- ===== src/Parse/Format/Module.antt =====
-- The binary format of a module, and read_module of src/wasmjit/parse.c on it.
use wasmjit.Prelude.{
  ℕ, zero, suc, ◌+◌, ◌<◌, ◌≤◌, ◌≡◌, refl, ◌∙◌, Bool, true, false, List, [], ◌∷◌, ◌++◌, append_assoc,
  arith, length, length-append, some, ltb, le→ltb, drop-length_append, ◌==◌, not, ◌&&◌,
}
use wasmjit.Ast.Section.{Module, Import}
use wasmjit.Parse.State.{Allocator, advance_parser, read_uint8, read_uint32, read_raw}
use wasmjit.Parse.Leb.{read_uleb}
use wasmjit.Parse.Types.{read_table_type, read_memory_type}
use wasmjit.Parse.Section.{
  read_import_section, read_function_section, read_table_section, read_memory_section, read_global,
  read_global_section, read_export, read_export_section, read_element, read_element_section,
  read_code, read_code_section, read_data, read_data_section, read_import,
}
use wasmjit.Parse.Module.{
  read, empty_module, Continue, read_late_section, read_section, read_sections, read_module,
}
use wasmjit.Parse.Format.{IsU32}
use wasmjit.Parse.Format.Operands.{at, Meets, Reads, read_uleb-IsU32}
use wasmjit.Parse.Format.Types.{
  FuncTypeCode, Vector, vector_lem, read_items-Items, read_type_section-Vector,
}
use wasmjit.Parse.Format.Sections.{
  TableTypeCode, MemoryTypeCode, ImportCode, GlobalCode, ExportCode, ElementCode, FunctionCode,
  DataCode,
}
use wasmjit.Parse.Format.Readers.{
  read_table_type-TableTypeCode, read_memory_type-MemoryTypeCode, read_import-ImportCode,
  read_global-GlobalCode, read_export-ExportCode, read_element-ElementCode, read_code-FunctionCode,
  read_data-DataCode,
}

-- The bodies of the sections but the custom one, and what a section sets in the module.
pub data BodyCode (m : Module) : ℕ → Module → List ℕ → Type 0 where
  types :
      {b : List ℕ} (xs : List _)
      → Vector FuncTypeCode xs b
      → BodyCode m 1 (record m { types = xs }) b
  imports :
      {b : List ℕ} (xs : List _)
      → Vector ImportCode xs b
      → BodyCode m 2 (record m { imports = xs }) b
  functions :
      {b : List ℕ} (xs : List ℕ)
      → Vector (λ v a. IsU32 a v) xs b
      → BodyCode m 3 (record m { typeidxs = xs }) b
  tables :
      {b : List ℕ} (xs : List _)
      → Vector TableTypeCode xs b
      → BodyCode m 4 (record m { tables = xs }) b
  memories :
      {b : List ℕ} (xs : List _)
      → Vector MemoryTypeCode xs b
      → BodyCode m 5 (record m { memories = xs }) b
  globals :
      {b : List ℕ} (xs : List _)
      → Vector GlobalCode xs b
      → BodyCode m 6 (record m { globals = xs }) b
  exports :
      {b : List ℕ} (xs : List _)
      → Vector ExportCode xs b
      → BodyCode m 7 (record m { exports = xs }) b
  start : {b : List ℕ} (x : ℕ) → IsU32 b x → BodyCode m 8 (record m { start = some x }) b
  elements :
      {b : List ℕ} (xs : List _)
      → Vector ElementCode xs b
      → BodyCode m 9 (record m { elements = xs }) b
  codes :
      {b : List ℕ} (xs : List _)
      → Vector FunctionCode xs b
      → BodyCode m 10 (record m { codes = xs }) b
  datas :
      {b : List ℕ} (xs : List _) → Vector DataCode xs b → BodyCode m 11 (record m { datas = xs }) b

-- Sections from a module to the module that they make of it. Each has its id, its size and its body.
pub data SectionsCode : Module → Module → List ℕ → Type 0 where
  none : {m : Module} → SectionsCode m m []
  custom :
      {m m' : Module} {a b : List ℕ} (content : List ℕ)
      → IsU32 a (length content)
      → SectionsCode m m' b
      → SectionsCode m m' (0 ∷ (a ++ (content ++ b)))
  section :
      {m m' m'' : Module} {i : ℕ} {a b c : List ℕ}
      → IsU32 a (length b)
      → BodyCode m i m' b
      → SectionsCode m' m'' c
      → SectionsCode m m'' (i ∷ (a ++ (b ++ c)))

-- A module: the magic number, the version and the sections.
pub data ModuleCode : Module → List ℕ → Type 0 where
  module_code :
      {m : Module} {bs : List ℕ}
      → SectionsCode empty_module m bs
      → ModuleCode m (0 ∷ 0x61 ∷ 0x73 ∷ 0x6d ∷ 1 ∷ 0 ∷ 0 ∷ 0 ∷ bs)

-- The number of the sections.
count_sections : {m m' : Module} {bs : List ℕ} → SectionsCode m m' bs → ℕ
count_sections none = 0
count_sections (custom content u c) = suc (count_sections c)
count_sections (section u b c) = suc (count_sections c)

count_sections-length :
    {m m' : Module} {bs : List ℕ} (c : SectionsCode m m' bs) → count_sections c ≤ length bs
unfolding count_sections
count_sections-length none = omega arith
count_sections-length (custom {a = a} {b = b} content u c) =
    omega (arith, count_sections-length c, length-append a (content ++ b), length-append content b)
count_sections-length (section {a = a} {b = b} {c = c} u body more_sections) =
    omega (arith, count_sections-length more_sections, length-append a (b ++ c), length-append b c)

and_false : (b : Bool) → (b && false) ≡ false
and_false b = ground arith

advance_parser_lem : (content : List ℕ) → Reads (advance_parser (length content)) content tt
unfolding advance_parser
advance_parser_lem content eof rest =
    rw
      (
        le→ltb (length (content ++ rest)) (length content)
            (omega (arith, length-append content rest)),
        drop-length_append,
      )
      refl

module _ (alloc : Allocator) (meets : Meets alloc) where
  read_import_section-Vector :
      {xs : List Import} {bs : List ℕ}
      → Vector ImportCode xs bs
      → Reads (read_import_section alloc) bs xs
  unfolding read_import_section
  read_import_section-Vector {xs = xs} v eof rest =
      rw (v.whole, append_assoc, read_uleb-IsU32 v.counted, meets, and_false (not (length xs == 0)))
        (read_items-Items ImportCode (read_import alloc) (read_import-ImportCode alloc meets) v.each
          eof rest)

  body_lem :
      {m m' : Module} {i : ℕ} {b : List ℕ}
      → BodyCode m i m' b
      → (n : ℕ) (k : Continue) (eof : Bool) (rest : List ℕ)
      → read_section alloc i n m (at eof (b ++ rest)) k ≡ k m' (at eof rest)
  unfolding read_section read_late_section
  body_lem (types xs v) n k eof rest = rw (read_type_section-Vector alloc meets v) refl
  body_lem (imports xs v) n k eof rest = rw (read_import_section-Vector v) refl
  body_lem (functions xs v) n k eof rest =
      unfold read_function_section in
      rw (vector_lem alloc 4 _ (read_uleb 32) meets (λ x a u. read_uleb-IsU32 u) xs v) refl
  body_lem (tables xs v) n k eof rest =
      unfold read_table_section in
      rw (vector_lem alloc 12 _ read_table_type meets read_table_type-TableTypeCode xs v) refl
  body_lem (memories xs v) n k eof rest =
      unfold read_memory_section in
      rw (vector_lem alloc 8 _ read_memory_type meets read_memory_type-MemoryTypeCode xs v) refl
  body_lem (globals xs v) n k eof rest =
      unfold read_global_section in
      rw (vector_lem alloc 24 _ (read_global alloc) meets (read_global-GlobalCode alloc meets) xs v)
        refl
  body_lem (exports xs v) n k eof rest =
      unfold read_export_section in
      rw (vector_lem alloc 16 _ (read_export alloc) meets (read_export-ExportCode alloc meets) xs v)
        refl
  body_lem (start x u) n k eof rest = rw (read_uleb-IsU32 u) refl
  body_lem (elements xs v) n k eof rest =
      unfold read_element_section in
      rw
        (vector_lem alloc 40 _ (read_element alloc) meets (read_element-ElementCode alloc meets) xs
          v)
        refl
  body_lem (codes xs v) n k eof rest =
      unfold read_code_section in
      rw (vector_lem alloc 32 _ (read_code alloc) meets (read_code-FunctionCode alloc meets) xs v)
        refl
  body_lem (datas xs v) n k eof rest =
      unfold read_data_section in
      rw (vector_lem alloc 40 _ (read_data alloc) meets (read_data-DataCode alloc meets) xs v) refl

  sections_lem :
      {m m' : Module} {bs : List ℕ} (c : SectionsCode m m' bs) (fuel : ℕ) (eof : Bool)
      → count_sections c < fuel
      → read_sections alloc fuel m (at eof bs) ≡ read m' (at true [])
  unfolding read_sections count_sections read_uint8
  sections_lem c zero eof h = absurd (omega arith)
  sections_lem none (suc fuel) eof h = refl
  sections_lem (custom {b = b} content u c) (suc fuel) eof h = rw (read_uleb-IsU32 u) (
      unfold read_section in
      rw (advance_parser_lem content) (sections_lem c fuel eof (omega arith)))
  sections_lem (section {i = i} {b = b} {c = c'} u body c) (suc fuel) eof h =
      rw (read_uleb-IsU32 u) (
        body_lem body (length b) (read_sections alloc fuel) eof c'
        ∙ sections_lem c fuel eof (omega arith))

  -- With an allocator that meets every request, `read_module` inverts the binary format of modules.
  -- On the encoding of any module that has no memory.size and no memory.grow in it, with its sections
  -- in any order and custom sections among them, it accepts that module, at the end of the input. The bodies of functions and the other expressions
  -- are shorter than 2 ^ 58 bytes, names and buffers than 2 ^ 32 - 1.
  pub read_module-ModuleCode :
      {m : Module} {bs : List ℕ}
      → ModuleCode m bs
      → (eof : Bool) → read_module alloc (at eof bs) ≡ read m (at true [])
  unfolding read_module read_uint32 read_raw
  read_module-ModuleCode (module_code {bs = bs} c) eof =
      let four : ltb (length (1 ∷ 0 ∷ 0 ∷ 0 ∷ bs)) 4 ≡ false = le→ltb _ _ (omega arith) in
      let eight : ltb (length (0 ∷ 0x61 ∷ 0x73 ∷ 0x6d ∷ 1 ∷ 0 ∷ 0 ∷ 0 ∷ bs)) 4 ≡ false =
        le→ltb _ _ (omega arith) in
      rw (eight, four) (sections_lem c (length bs + 1) eof (omega (arith, count_sections-length c)))
