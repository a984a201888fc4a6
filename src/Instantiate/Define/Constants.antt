-- ===== src/Instantiate/Define/Constants.antt =====
-- src/wasmjit/instantiate.c: a constant expression that is read has the type that was asked for.
use wasmjit.Prelude.{ℕ, ◌≡◌, refl, Bool, true, false, ==_iff, ◌==◌, if◌then◌else◌}
use wasmjit.Ast.Instruction.{
  Instr, Instrs, get_global, i32_const, i64_const, f32_const, f64_const, nil, cons,
}
use wasmjit.Ast.Valtype
use wasmjit.Runtime.Store.{Value, Store}
use wasmjit.Instantiate.State.{ModuleInst, Attempt, undefined, ensure, object}
use wasmjit.Instantiate.Constant.{
  read_i32, read_i64, read_f32, read_f64, read_const, read_global_value, read_constant_expression,
}
use wasmjit.Instantiate.Constant.Typed.{HasType}
use wasmjit.Instantiate.Gives.{
  Gives, Gives-bind, Gives-next, Gives-done, Gives-error, Gives-undefined, ensure-Gives,
}

-- A constant expression has the type that is asked for.
module _ (store : Store) (m : ModuleInst) (valtype : ℕ) where
  global_value-Gives :
      (globalidx : ℕ) → Gives (HasType valtype) (read_global_value store m valtype globalidx)
  unfolding read_global_value
  global_value-Gives globalidx = Gives-next (object m.globals store.globals globalidx) λ g.
      Gives-next (ensure (g.mut == 0)) λ _.
        Gives-bind (ensure (g.value.type == valtype)) (ensure-Gives (g.value.type == valtype))
          λ _ same. Gives-done ((==_iff g.value.type valtype).0 same)

read_i32-Gives : (i : Instr) → Gives (HasType Valtype.i32) (read_i32 i)
read_i32-Gives (i32_const v) = Gives-done refl
read_i32-Gives _ = Gives-error

read_i64-Gives : (i : Instr) → Gives (HasType Valtype.i64) (read_i64 i)
read_i64-Gives (i64_const v) = Gives-done refl
read_i64-Gives _ = Gives-error

read_f32-Gives : (i : Instr) → Gives (HasType Valtype.f32) (read_f32 i)
read_f32-Gives (f32_const v) = Gives-done refl
read_f32-Gives _ = Gives-error

read_f64-Gives : (i : Instr) → Gives (HasType Valtype.f64) (read_f64 i)
read_f64-Gives (f64_const v) = Gives-done refl
read_f64-Gives _ = Gives-error

case_of :
    (t valtype : ℕ) (x y : Attempt Value)
    → Gives (HasType t) x
    → Gives (HasType valtype) y
    → Gives (HasType valtype) (if valtype == t then x else y)
case_of t valtype x y p q = go (valtype == t) refl
  where
    go : (b : Bool) → (valtype == t) ≡ b → Gives (HasType valtype) (if b then x else y)
    go true e = rw ((==_iff valtype t).0 e) p
    go false e = q

read_const-Gives : (valtype : ℕ) (i : Instr) → Gives (HasType valtype) (read_const valtype i)
unfolding read_const
read_const-Gives valtype i = case_of Valtype.i32 valtype (read_i32 i) _ (read_i32-Gives i) (
    case_of Valtype.i64 valtype (read_i64 i) _ (read_i64-Gives i) (
      case_of Valtype.f32 valtype (read_f32 i) _ (read_f32-Gives i)
        (case_of Valtype.f64 valtype (read_f64 i) undefined (read_f64-Gives i) Gives-undefined)))

pub constant-Gives :
    (store : Store) (m : ModuleInst) (valtype : ℕ) (is : Instrs)
    → Gives (HasType valtype) (read_constant_expression store m valtype is)
unfolding read_constant_expression
constant-Gives store m valtype nil = Gives-error
constant-Gives store m valtype (cons i (cons j is)) = Gives-error
constant-Gives store m valtype (cons (get_global g) nil) = global_value-Gives store m valtype g
constant-Gives store m valtype (cons i nil) = read_const-Gives valtype i
