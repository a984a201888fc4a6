-- ===== src/Runtime/Store.antt =====
-- src/wasmjit/runtime.h: the instances of a module. The objects that pointers share live in a
-- `Store`, and a pointer is an address, the place of the object in its list; NULL is `none`. What a field
-- `data` points to is `slots` of a table, `bytes` of a memory; of a value it is `bits`.
-- A function has no pointer to its module here: nothing modelled reads it.
use wasmjit.Prelude.{ℕ, ◌*◌, List, Option}
use wasmjit.Ast.Section.{FuncType}

-- `struct Value`: the type and the bits of the union.
pub record Value : Type 0 where
  pub type : ℕ
  pub bits : ℕ

pub record FuncInst : Type 0 where
  pub compiled_code : Option ℕ
  pub compiled_code_size : ℕ
  pub invoker : Option ℕ
  pub invoker_size : ℕ
  pub stack_usage : ℕ
  pub type : FuncType

-- `data` points to `length` slots.
pub record TableInst : Type 0 where
  pub slots : List (Option ℕ)
  pub elemtype : ℕ
  pub length : ℕ
  pub max : ℕ

pub record MemInst : Type 0 where
  pub bytes : List ℕ
  pub size : ℕ
  pub max : ℕ

pub record GlobalInst : Type 0 where
  pub value : Value
  pub mut : ℕ

-- `struct Export`: the type is that of the pointer.
pub data ExportPtr : Type 0 where
  func table mem global : ℕ → ExportPtr

pub record ExportInst : Type 0 where
  pub name : List ℕ
  pub value : ExportPtr

pub record Store : Type 0 where
  pub funcs : List FuncInst
  pub tables : List TableInst
  pub mems : List MemInst
  pub globals : List GlobalInst

-- WASM_PAGE_SIZE
abbrev pub wasm_page_size : ℕ
wasm_page_size = 64 * 1024
