-- ===== src/Instantiate/Constant.antt =====
-- src/wasmjit/instantiate.c: read_constant_expression.
pub mod Typed
use wasmjit.Prelude.{ℕ, Bool, true, false, List, ◌==◌, if◌then◌else◌}
use wasmjit.Ast.Instruction.{
  Instr, Instrs, get_global, i32_const, i64_const, f32_const, f64_const, nil, cons,
}
use wasmjit.Ast.Valtype
use wasmjit.Runtime.Store.{Value, GlobalInst, Store}
use wasmjit.Instantiate.State.{ModuleInst, Attempt, done, error, undefined, ensure, object, ◌>>=◌}

abbrev pub const_value : ℕ → ℕ → Attempt Value
const_value valtype bits = done (record { type = valtype; bits = bits })

abbrev pub read_i32 : Instr → Attempt Value
read_i32 (i32_const value) = const_value Valtype.i32 value
read_i32 _ = error

abbrev pub read_i64 : Instr → Attempt Value
read_i64 (i64_const value) = const_value Valtype.i64 value
read_i64 _ = error

abbrev pub read_f32 : Instr → Attempt Value
read_f32 (f32_const value) = const_value Valtype.f32 value
read_f32 _ = error

abbrev pub read_f64 : Instr → Attempt Value
read_f64 (f64_const value) = const_value Valtype.f64 value
read_f64 _ = error

-- The switch on the wanted type.
unfoldable pub read_const : ℕ → Instr → Attempt Value
read_const valtype i =
    if valtype == Valtype.i32
    then read_i32 i
    else if valtype == Valtype.i64
    then read_i64 i
    else if valtype == Valtype.f32
    then read_f32 i
    else if valtype == Valtype.f64
    then read_f64 i
    else undefined

unfoldable pub read_global_value : Store → ModuleInst → ℕ → ℕ → Attempt Value
read_global_value store module_inst valtype globalidx = do
  global ← object module_inst.globals store.globals globalidx
  _ ← ensure (global.mut == 0)
  _ ← ensure (global.value.type == valtype)
  done global.value

unfoldable pub read_constant_expression : Store → ModuleInst → ℕ → Instrs → Attempt Value
unfolding read_const read_global_value
read_constant_expression store module_inst valtype nil = error
read_constant_expression store module_inst valtype (cons i (cons j is)) = error
read_constant_expression store module_inst valtype (cons (get_global globalidx) nil) =
    read_global_value store module_inst valtype globalidx
read_constant_expression store module_inst valtype (cons i nil) = read_const valtype i
