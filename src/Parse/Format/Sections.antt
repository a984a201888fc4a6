-- ===== src/Parse/Format/Sections.antt =====
-- The binary format of what the sections after the types hold, each as the source names it.
use wasmjit.Prelude.{ℕ, ◌+◌, ◌<◌, ◌^◌, ◌≡◌, true, List, [], ◌∷◌, ◌++◌, length, ◌==◌, ◌||◌}
use wasmjit.Ast.Instruction.{Instrs}
use wasmjit.Ast.Opcode
use wasmjit.Ast.Section.{
  GlobalType, Limits, TableType, MemoryType, ImportDesc, Import, Global, Export, Element, CodeLocal,
  DataSegment,
}
use wasmjit.Ast.Section
use wasmjit.Ast.Valtype
use wasmjit.Parse.Format.{IsU32, AreU32, Codes}
use wasmjit.Parse.Format.Steps.{room}
use wasmjit.Parse.Format.Types.{Vector}

pub data LimitsCode : Limits → List ℕ → Type 0 where
  from : {a : List ℕ} {min : ℕ} → IsU32 a min → LimitsCode (record { min = min; max = 0 }) (0 ∷ a)
  between :
      {a b : List ℕ} {min max : ℕ}
      → IsU32 a min
      → IsU32 b max
      → LimitsCode (record { min = min; max = max }) (1 ∷ (a ++ b))

pub data TableTypeCode : TableType → List ℕ → Type 0 where
  table_type :
      {limits : Limits} {a : List ℕ}
      → LimitsCode limits a
      → TableTypeCode (record { elemtype = 0x70; limits = limits }) (0x70 ∷ a)

pub data MemoryTypeCode : MemoryType → List ℕ → Type 0 where
  memory_type :
      {limits : Limits} {a : List ℕ}
      → LimitsCode limits a
      → MemoryTypeCode (record { limits = limits }) a

pub data GlobalTypeCode : GlobalType → List ℕ → Type 0 where
  global_type :
      (valtype mut : ℕ)
      → (valtype == Valtype.i32
          || valtype == Valtype.i64
          || valtype == Valtype.f32
          || valtype == Valtype.f64)
        ≡ true
      → (mut == 0 || mut == 1) ≡ true
      → GlobalTypeCode (record { valtype = valtype; mut = mut }) (valtype ∷ mut ∷ [])

-- A name or a buffer. The source adds a byte to its size in 32 bits, so that the longest is excluded.
pub data BytesCode : List ℕ → List ℕ → Type 0 where
  bytes :
      {a : List ℕ} (s : List ℕ) → IsU32 a (length s) → length s + 1 < 2 ^ 32 → BytesCode s (a ++ s)

-- A sequence of instructions with its terminal.
pub data ExprCode : Instrs → List ℕ → Type 0 where
  expr :
      {is : Instrs} {a : List ℕ}
      → Codes is a
      → length a < room
      → ExprCode is (a ++ Opcode.block_terminal ∷ [])

pub data ImportDescCode : ImportDesc → ℕ → List ℕ → Type 0 where
  func : {a : List ℕ} {i : ℕ} → IsU32 a i → ImportDescCode (ImportDesc.func i) 0 a
  table : {a : List ℕ} {t : TableType} → TableTypeCode t a → ImportDescCode (ImportDesc.table t) 1 a
  mem : {a : List ℕ} {t : MemoryType} → MemoryTypeCode t a → ImportDescCode (ImportDesc.mem t) 2 a
  global :
      {a : List ℕ} {t : GlobalType} → GlobalTypeCode t a → ImportDescCode (ImportDesc.global t) 3 a

pub data ImportCode : Import → List ℕ → Type 0 where
  import :
      {module_name name a b c : List ℕ} {desc : ImportDesc} {desc_type : ℕ}
      → BytesCode module_name a
      → BytesCode name b
      → ImportDescCode desc desc_type c
      → ImportCode
          (record { module_name = module_name; name = name; desc = desc })
          (a ++ (b ++ desc_type ∷ c))

pub data GlobalCode : Global → List ℕ → Type 0 where
  global :
      {type : GlobalType} {is : Instrs} {a b : List ℕ}
      → GlobalTypeCode type a
      → ExprCode is b
      → GlobalCode (record { type = type; instructions = is }) (a ++ b)

pub data ExportCode : Export → List ℕ → Type 0 where
  export :
      {name a b : List ℕ} {idx : ℕ} (idx_type : ℕ)
      → BytesCode name a
      → IsU32 b idx
      → ExportCode (record { name = name; idx_type = idx_type; idx = idx }) (a ++ idx_type ∷ b)

pub data ElementCode : Element → List ℕ → Type 0 where
  element :
      {tableidx : ℕ} {is : Instrs} {funcidxs a b c d : List ℕ}
      → IsU32 a tableidx
      → ExprCode is b
      → IsU32 c (length funcidxs)
      → AreU32 d funcidxs
      → ElementCode
          (record { tableidx = tableidx; instructions = is; funcidxs = funcidxs })
          (a ++ (b ++ (c ++ d)))

pub data CodeLocalCode : CodeLocal → List ℕ → Type 0 where
  locals :
      {a : List ℕ} {count : ℕ} (valtype : ℕ)
      → IsU32 a count
      → CodeLocalCode (record { count = count; valtype = valtype }) (a ++ valtype ∷ [])

pub data FunctionCode : Section.Code → List ℕ → Type 0 where
  code :
      {size : ℕ} {locals : List CodeLocal} {is : Instrs} {a b c : List ℕ}
      → IsU32 a size
      → Vector CodeLocalCode locals b
      → ExprCode is c
      → FunctionCode (record { size = size; locals = locals; instructions = is }) (a ++ (b ++ c))

pub data DataCode : DataSegment → List ℕ → Type 0 where
  segment :
      {memidx : ℕ} {is : Instrs} {buf a b c : List ℕ}
      → IsU32 a memidx
      → ExprCode is b
      → BytesCode buf c
      → DataCode (record { memidx = memidx; instructions = is; buf = buf }) (a ++ (b ++ c))
