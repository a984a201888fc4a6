-- ===== src/Parse/Format/Tests.antt =====
-- A module with one function, and its bytes.
use wasmjit.Prelude.{ℕ, ◌≤◌, ◌≡◌, refl, Bool, true, false, List, [], ◌∷◌, arith}
use wasmjit.Ast.Instruction.{plain, nil, cons}
use wasmjit.Ast.Opcode
use wasmjit.Ast.Section.{Module, FuncType}
use wasmjit.Ast.Section
use wasmjit.Ast.Valtype
use wasmjit.Parse.State.{ok}
use wasmjit.Parse.Types.{read_type_section}
use wasmjit.Parse.Module.{read, empty_module, read_module}
use wasmjit.Parse.Format.{IsU32, plain_code, empty, simple}
use wasmjit.Parse.Format.Operands.{at}
use wasmjit.Parse.Format.Types.{FuncTypeCode, no_output, Items, Vector, read_type_section-Vector}
use wasmjit.Parse.Format.Sections.{FunctionCode, code, CodeLocalCode, expr}
use wasmjit.Parse.Format.Module.{
  ModuleCode, module_code, SectionsCode, custom, section, types, functions, codes,
  read_module-ModuleCode,
}

abbrev roomy : List ℕ → ℕ → Bool
roomy input n = true

abbrev no_values : FuncType
no_values = record { input_types = []; output_type = Valtype.null }

abbrev body : Section.Code
body = record { size = 3; locals = []; instructions = cons (plain 1) nil }

abbrev tiny : Module
tiny = record empty_module { types = no_values ∷ []; typeidxs = 0 ∷ []; codes = body ∷ [] }

abbrev tiny_bytes : List ℕ
tiny_bytes =
    0 ∷ 0x61 ∷ 0x73 ∷ 0x6d ∷ 1 ∷ 0 ∷ 0 ∷ 0 ∷ 1 ∷ 4 ∷ 1 ∷ 0x60 ∷ 0 ∷ 0 ∷ 0 ∷ 1 ∷ 9 ∷ 3 ∷ 2 ∷ 1 ∷ 0
    ∷ 10 ∷ 5 ∷ 1 ∷ 3 ∷ 0 ∷ 1 ∷ 0x0b ∷ []

small_IsU32 : (n : ℕ) → n ≤ 127 → IsU32 (n ∷ []) n
small_IsU32 n h = record {
  leb = omega arith;
  short = omega arith;
  value = omega arith;
  range = omega arith;
}

no_values-FuncTypeCode : FuncTypeCode no_values (0x60 ∷ 0 ∷ 0 ∷ [])
no_values-FuncTypeCode =
    no_output [] (small_IsU32 0 (omega arith)) (omega arith) (small_IsU32 0 (omega arith))

types-Vector : Vector FuncTypeCode (no_values ∷ []) (1 ∷ 0x60 ∷ 0 ∷ 0 ∷ [])
types-Vector = record {
  start = 1 ∷ [];
  items = 0x60 ∷ 0 ∷ 0 ∷ [];
  whole = refl;
  counted = small_IsU32 1 (omega arith);
  each = Items.more no_values-FuncTypeCode Items.none;
}

functions-Vector : Vector (λ v a. IsU32 a v) (0 ∷ []) (1 ∷ 0 ∷ [])
functions-Vector = record {
  start = 1 ∷ [];
  items = 0 ∷ [];
  whole = refl;
  counted = small_IsU32 1 (omega arith);
  each = Items.more (small_IsU32 0 (omega arith)) Items.none;
}

locals-Vector : Vector CodeLocalCode [] (0 ∷ [])
locals-Vector = record {
  start = 0 ∷ [];
  items = [];
  whole = refl;
  counted = small_IsU32 0 (omega arith);
  each = Items.none;
}

body-FunctionCode : FunctionCode body (3 ∷ 0 ∷ 1 ∷ 0x0b ∷ [])
body-FunctionCode =
    code (small_IsU32 3 (omega arith)) locals-Vector
      (expr (simple (plain_code 1 (unfold Opcode.is_plain in refl) refl) empty) (omega arith))

codes-Vector : Vector FunctionCode (body ∷ []) (1 ∷ 3 ∷ 0 ∷ 1 ∷ 0x0b ∷ [])
codes-Vector = record {
  start = 1 ∷ [];
  items = 3 ∷ 0 ∷ 1 ∷ 0x0b ∷ [];
  whole = refl;
  counted = small_IsU32 1 (omega arith);
  each = Items.more body-FunctionCode Items.none;
}

tiny-ModuleCode : ModuleCode tiny tiny_bytes
tiny-ModuleCode = module_code (
    section (small_IsU32 4 (omega arith)) (types (no_values ∷ []) types-Vector) (
      custom (9 ∷ []) (small_IsU32 1 (omega arith)) (
        section (small_IsU32 2 (omega arith)) (functions (0 ∷ []) functions-Vector) (
          section (small_IsU32 5 (omega arith)) (codes (body ∷ []) codes-Vector)
            SectionsCode.none))))

read_module-ModuleCode_example : read_module roomy (at false tiny_bytes) ≡ read tiny (at true [])
read_module-ModuleCode_example =
    read_module-ModuleCode roomy (λ input size. refl) tiny-ModuleCode false

read_type_section-Vector_example :
    read_type_section roomy (at false (1 ∷ 0x60 ∷ 0 ∷ 0 ∷ 7 ∷ []))
    ≡ ok (no_values ∷ []) (at false (7 ∷ []))
read_type_section-Vector_example =
    read_type_section-Vector roomy (λ input size. refl) types-Vector false (7 ∷ [])
