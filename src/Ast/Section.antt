-- ===== src/Ast/Section.antt =====
-- src/wasmjit/ast.h: the sections of a module and `struct Module`. A count and a pointer to as many
-- elements are one list.
use wasmjit.Prelude.{ℕ, List, Option}
use wasmjit.Ast.Instruction.{Instrs}

-- The list `input_types` has `n_inputs` elements.
pub record FuncType : Type 0 where
  pub input_types : List ℕ
  pub output_type : ℕ

pub record GlobalType : Type 0 where
  pub valtype : ℕ
  pub mut : ℕ

pub record Limits : Type 0 where
  pub min : ℕ
  pub max : ℕ

pub record TableType : Type 0 where
  pub elemtype : ℕ
  pub limits : Limits

pub record MemoryType : Type 0 where
  pub limits : Limits

-- `desc_type` and the union `desc` of an import.
pub data ImportDesc : Type 0 where
  func : ℕ → ImportDesc
  table : TableType → ImportDesc
  mem : MemoryType → ImportDesc
  global : GlobalType → ImportDesc

pub record Import : Type 0 where
  pub module_name : List ℕ
  pub name : List ℕ
  pub desc : ImportDesc

pub record Global : Type 0 where
  pub type : GlobalType
  pub instructions : Instrs

pub record Export : Type 0 where
  pub name : List ℕ
  pub idx_type : ℕ
  pub idx : ℕ

pub record Element : Type 0 where
  pub tableidx : ℕ
  pub instructions : Instrs
  pub funcidxs : List ℕ

pub record CodeLocal : Type 0 where
  pub count : ℕ
  pub valtype : ℕ

pub record Code : Type 0 where
  pub size : ℕ
  pub locals : List CodeLocal
  pub instructions : Instrs

pub record DataSegment : Type 0 where
  pub memidx : ℕ
  pub instructions : Instrs
  pub buf : List ℕ

-- `start_section` has a function where `has_start` is set.
pub record Module : Type 0 where
  pub types : List FuncType
  pub imports : List Import
  pub typeidxs : List ℕ
  pub tables : List TableType
  pub memories : List MemoryType
  pub globals : List Global
  pub exports : List Export
  pub start : Option ℕ
  pub elements : List Element
  pub codes : List Code
  pub datas : List DataSegment
