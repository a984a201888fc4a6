-- ===== src/Parse/Format/Readers.antt =====
-- The readers of the sections' items of src/wasmjit/parse.c, on encoded items.
use wasmjit.Prelude.{
  ℕ, ◌+◌, ◌≤◌, ◌<◌, ◌^◌, refl, List, ◌++◌, append_assoc, arith, length, length-append,
  take-length_append, drop-length_append, lt→leb, le→ltb,
}
use wasmjit.Ast.Instruction.{Instrs}
use wasmjit.Ast.Section.{
  GlobalType, Limits, TableType, MemoryType, ImportDesc, Import, Global, Export, Element, CodeLocal,
  DataSegment,
}
use wasmjit.Ast.Section
use wasmjit.Parse.State.{Allocator, read_uint8}
use wasmjit.Parse.Instructions.{read_instructions}
use wasmjit.Parse.Types.{
  copy_buf, read_buf_internal, read_limits, read_table_type, read_memory_type, read_global_type,
}
use wasmjit.Parse.Section.{
  read_import_desc, read_import, read_global, read_export, read_element, read_code_local, read_code,
  read_data,
}
use wasmjit.Parse.Format.Operands.{Meets, Reads, read_uleb-IsU32, read_vector-AreU32}
use wasmjit.Parse.Format.Sequence.{read_instructions-Codes}
use wasmjit.Parse.Format.Types.{read_vector-Items}
use wasmjit.Parse.Format.Sections.{
  LimitsCode, from, between, TableTypeCode, table_type, MemoryTypeCode, memory_type, GlobalTypeCode,
  global_type, BytesCode, bytes, ExprCode, expr, ImportDescCode, ImportCode, import, GlobalCode,
  ExportCode, export, ElementCode, element, CodeLocalCode, locals, FunctionCode, code, DataCode,
  segment,
}

read_limits-LimitsCode : {l : Limits} {bs : List ℕ} → LimitsCode l bs → Reads read_limits bs l
unfolding read_limits read_uint8
read_limits-LimitsCode (from u) eof rest = rw (read_uleb-IsU32 u) refl
read_limits-LimitsCode (between u v) eof rest =
    rw (append_assoc, read_uleb-IsU32 u, read_uleb-IsU32 v) refl

pub read_table_type-TableTypeCode :
    (t : TableType) (bs : List ℕ) → TableTypeCode t bs → Reads read_table_type bs t
unfolding read_table_type read_uint8
read_table_type-TableTypeCode _ _ (table_type l) eof rest = rw (read_limits-LimitsCode l) refl

pub read_memory_type-MemoryTypeCode :
    (t : MemoryType) (bs : List ℕ) → MemoryTypeCode t bs → Reads read_memory_type bs t
unfolding read_memory_type
read_memory_type-MemoryTypeCode _ _ (memory_type l) eof rest = rw (read_limits-LimitsCode l) refl

read_global_type-GlobalTypeCode :
    {t : GlobalType} {bs : List ℕ} → GlobalTypeCode t bs → Reads read_global_type bs t
unfolding read_global_type read_uint8
read_global_type-GlobalTypeCode (global_type valtype mut p q) eof rest = rw (p, q) refl

module _ (alloc : Allocator) (meets : Meets alloc) where
  copy_buf_lem :
      (s : List ℕ) (as_string : ℕ)
      → length s + as_string < 2 ^ 32
      → Reads (copy_buf alloc (length s) as_string) s s
  unfolding copy_buf
  copy_buf_lem s as_string h eof rest =
      rw
        (
          le→ltb (length (s ++ rest)) (length s) (omega (arith, length-append s rest)),
          meets,
          lt→leb (2 ^ 32) (length s + as_string) h,
          take-length_append,
          drop-length_append,
        )
        refl

  read_buf_internal-BytesCode :
      {s bs : List ℕ} (as_string : ℕ)
      → as_string ≤ 1
      → BytesCode s bs
      → Reads (read_buf_internal alloc as_string) bs s
  unfolding read_buf_internal
  read_buf_internal-BytesCode as_string h (bytes s u l) eof rest =
      rw (append_assoc, read_uleb-IsU32 u) (copy_buf_lem s as_string (omega arith) eof rest)

  read_instructions-ExprCode :
      {is : Instrs} {bs : List ℕ} → ExprCode is bs → Reads (read_instructions alloc) bs is
  read_instructions-ExprCode (expr {a = a} d l) eof rest =
      rw append_assoc (read_instructions-Codes alloc meets d eof rest l)

  read_import_desc-ImportDescCode :
      {desc : ImportDesc} {desc_type : ℕ} {bs : List ℕ}
      → ImportDescCode desc desc_type bs
      → Reads (read_import_desc desc_type) bs desc
  unfolding read_import_desc
  read_import_desc-ImportDescCode (ImportDescCode.func u) eof rest = rw (read_uleb-IsU32 u) refl
  read_import_desc-ImportDescCode (ImportDescCode.table t) eof rest =
      rw (read_table_type-TableTypeCode _ _ t) refl
  read_import_desc-ImportDescCode (ImportDescCode.mem t) eof rest =
      rw (read_memory_type-MemoryTypeCode _ _ t) refl
  read_import_desc-ImportDescCode (ImportDescCode.global t) eof rest =
      rw (read_global_type-GlobalTypeCode t) refl

  pub read_import-ImportCode :
      (i : Import) (bs : List ℕ) → ImportCode i bs → Reads (read_import alloc) bs i
  unfolding read_import read_uint8
  read_import-ImportCode _ _ (import m n d) eof rest =
      rw
        (
          append_assoc,
          append_assoc,
          read_buf_internal-BytesCode 1 (omega arith) m,
          read_buf_internal-BytesCode 1 (omega arith) n,
          read_import_desc-ImportDescCode d,
        )
        refl

  pub read_global-GlobalCode :
      (g : Global) (bs : List ℕ) → GlobalCode g bs → Reads (read_global alloc) bs g
  unfolding read_global
  read_global-GlobalCode _ _ (GlobalCode.global t e) eof rest =
      rw (append_assoc, read_global_type-GlobalTypeCode t, read_instructions-ExprCode e) refl

  pub read_export-ExportCode :
      (e : Export) (bs : List ℕ) → ExportCode e bs → Reads (read_export alloc) bs e
  unfolding read_export read_uint8
  read_export-ExportCode _ _ (export idx_type n u) eof rest =
      rw (append_assoc, read_buf_internal-BytesCode 1 (omega arith) n, read_uleb-IsU32 u) refl

  pub read_element-ElementCode :
      (e : Element) (bs : List ℕ) → ElementCode e bs → Reads (read_element alloc) bs e
  unfolding read_element
  read_element-ElementCode _ _ (element u e v us) eof rest =
      rw
        (
          append_assoc,
          append_assoc,
          append_assoc,
          read_uleb-IsU32 u,
          read_instructions-ExprCode e,
          read_uleb-IsU32 v,
          read_vector-AreU32 alloc 4 meets us,
        )
        refl

  read_code_local-CodeLocalCode :
      (l : CodeLocal) (bs : List ℕ) → CodeLocalCode l bs → Reads read_code_local bs l
  unfolding read_code_local read_uint8
  read_code_local-CodeLocalCode _ _ (locals valtype u) eof rest =
      rw (append_assoc, read_uleb-IsU32 u) refl

  pub read_code-FunctionCode :
      (c : Section.Code) (bs : List ℕ) → FunctionCode c bs → Reads (read_code alloc) bs c
  unfolding read_code
  read_code-FunctionCode _ _ (code {locals = ls} u v e) eof rest =
      rw
        (
          append_assoc,
          append_assoc,
          read_uleb-IsU32 u,
          v.whole,
          append_assoc,
          read_uleb-IsU32 v.counted,
          read_vector-Items alloc 8 CodeLocalCode read_code_local meets
              read_code_local-CodeLocalCode ls v.each,
          read_instructions-ExprCode e,
        )
        refl

  pub read_data-DataCode :
      (d : DataSegment) (bs : List ℕ) → DataCode d bs → Reads (read_data alloc) bs d
  unfolding read_data
  read_data-DataCode _ _ (segment u e b) eof rest =
      rw
        (
          append_assoc,
          append_assoc,
          read_uleb-IsU32 u,
          read_instructions-ExprCode e,
          read_buf_internal-BytesCode 0 (omega arith) b,
        )
        refl
