-- ===== src/Instantiate/Constant/Typed.antt =====
-- src/wasmjit/instantiate.c: the types of constant expressions.
use wasmjit.Prelude.{
  ℕ, ◌<◌, ◌≡◌, ◌⊎◌, inl, inr, refl, sym, ap, ◌∙◌, some_inj, false, List, Option, none, some, length,
  get_elem?, All, get_elem?-none, get_elem?-All, ◌==◌, Bool-cases, arith,
}
use wasmjit.Ast.Instruction.{
  Instr, Instrs, get_global, i32_const, i64_const, f32_const, f64_const, nil, cons,
}
use wasmjit.Ast.Valtype
use wasmjit.Runtime.Store.{Value, GlobalInst, Store}
use wasmjit.Instantiate.State.{ModuleInst, Attempt, done, error, undefined, ensure, element, ◌>>=◌}
use wasmjit.Instantiate.Constant.{
  read_i32, read_i64, read_f32, read_f64, read_const, read_global_value, read_constant_expression,
}

-- An attempt that stays within the objects, and a result of that property.
abbrev pub Safe : {A : Type 0} → (A → Type 0) → Attempt A → Type 0
Safe P (done a) = P a
Safe P error = Unit
Safe P undefined = ⊥

abbrev pub HasType : ℕ → Value → Type 0
HasType valtype value = value.type ≡ valtype

abbrev pub IsValtype : ℕ → Type 0
IsValtype t = (t ≡ Valtype.i32) ⊎ ((t ≡ Valtype.i64) ⊎ ((t ≡ Valtype.f32) ⊎ (t ≡ Valtype.f64)))

-- The globals that a list of instructions names are there.
abbrev pub Globals : Store → ModuleInst → Instrs → Type 0
Globals store module_inst (cons (get_global globalidx) is) =
    (globalidx < length module_inst.globals) × Globals store module_inst is
Globals store module_inst (cons _ is) = Globals store module_inst is
Globals store module_inst nil = Unit

-- The value that an instruction stands for by itself.
abbrev pub literal : Instr → Option Value
literal (i32_const v) = some (record { type = Valtype.i32; bits = v })
literal (i64_const v) = some (record { type = Valtype.i64; bits = v })
literal (f32_const v) = some (record { type = Valtype.f32; bits = v })
literal (f64_const v) = some (record { type = Valtype.f64; bits = v })
literal _ = none

abbrev pub global_at : List GlobalInst → Option ℕ → Option GlobalInst
global_at globals none = none
global_at globals (some a) = get_elem? globals a

-- The value of a global that cannot be changed.
abbrev pub Holds : Option GlobalInst → Value → Type 0
Holds o value =
    (global : GlobalInst) × (o ≡ some global) × (global.mut ≡ 0) × (value ≡ global.value)

-- The value of an expression, whatever type is asked for: of one literal, or one global.
abbrev pub Denotes : Store → ModuleInst → Instrs → Value → Type 0
Denotes store module_inst nil value = ⊥
Denotes store module_inst (cons i (cons j is)) value = ⊥
Denotes store module_inst (cons (get_global g) nil) value =
    Holds (global_at store.globals (get_elem? module_inst.globals g)) value
Denotes store module_inst (cons i nil) value = literal i ≡ some value

-- A value of that type and description; or an error, where there is none; never anything undefined.
abbrev pub Evaluates : ℕ → (Value → Type 0) → Attempt Value → Type 0
Evaluates valtype D (done value) = HasType valtype value × D value
Evaluates valtype D error = ¬ ((value : Value) × D value × HasType valtype value)
Evaluates valtype D undefined = ⊥

pub Evaluates-Safe :
    (valtype : ℕ) (D : Value → Type 0) (r : Attempt Value)
    → Evaluates valtype D r
    → Safe (HasType valtype) r
Evaluates-Safe valtype D (done value) h = h.0
Evaluates-Safe valtype D error h = tt
Evaluates-Safe valtype D undefined h = h

abbrev IsLiteral : Instr → Value → Type 0
IsLiteral i value = literal i ≡ some value

clash :
    (t u bits : ℕ)
    → (t == u) ≡ false
    → ¬ (
        (value : Value) × (◌≡◌ {A = Option Value}
          (some (record { type = t; bits = bits }))
          (some value))
        × HasType u value)
clash t u bits differs h =
    let same : t ≡ u = ap (λ (v : Value). v.type) (some_inj h.1) ∙ h.2 in
    ground (arith, differs, same)

read_i32-Evaluates : (i : Instr) → Evaluates Valtype.i32 (IsLiteral i) (read_i32 i)
read_i32-Evaluates (i32_const v) = (refl, refl)
read_i32-Evaluates (i64_const v) = clash _ _ v refl
read_i32-Evaluates (f32_const v) = clash _ _ v refl
read_i32-Evaluates (f64_const v) = clash _ _ v refl
read_i32-Evaluates _ = λ h. cc

read_i64-Evaluates : (i : Instr) → Evaluates Valtype.i64 (IsLiteral i) (read_i64 i)
read_i64-Evaluates (i64_const v) = (refl, refl)
read_i64-Evaluates (i32_const v) = clash _ _ v refl
read_i64-Evaluates (f32_const v) = clash _ _ v refl
read_i64-Evaluates (f64_const v) = clash _ _ v refl
read_i64-Evaluates _ = λ h. cc

read_f32-Evaluates : (i : Instr) → Evaluates Valtype.f32 (IsLiteral i) (read_f32 i)
read_f32-Evaluates (f32_const v) = (refl, refl)
read_f32-Evaluates (i32_const v) = clash _ _ v refl
read_f32-Evaluates (i64_const v) = clash _ _ v refl
read_f32-Evaluates (f64_const v) = clash _ _ v refl
read_f32-Evaluates _ = λ h. cc

read_f64-Evaluates : (i : Instr) → Evaluates Valtype.f64 (IsLiteral i) (read_f64 i)
read_f64-Evaluates (f64_const v) = (refl, refl)
read_f64-Evaluates (i32_const v) = clash _ _ v refl
read_f64-Evaluates (i64_const v) = clash _ _ v refl
read_f64-Evaluates (f32_const v) = clash _ _ v refl
read_f64-Evaluates _ = λ h. cc

read_const-Evaluates :
    (valtype : ℕ) (i : Instr)
    → IsValtype valtype
    → Evaluates valtype (IsLiteral i) (read_const valtype i)
unfolding read_const
read_const-Evaluates valtype i (inl e) = rw e (read_i32-Evaluates i)
read_const-Evaluates valtype i (inr (inl e)) = rw e (read_i64-Evaluates i)
read_const-Evaluates valtype i (inr (inr (inl e))) = rw e (read_f32-Evaluates i)
read_const-Evaluates valtype i (inr (inr (inr e))) = rw e (read_f64-Evaluates i)

module _ (store : Store) (module_inst : ModuleInst) (valtype : ℕ) where
  abbrev check_global : GlobalInst → Attempt Value
  check_global global = ensure (global.mut == 0) >>= λ _.
      ensure (global.value.type == valtype) >>= λ _. done global.value

  global-Evaluates :
      (global : GlobalInst) → Evaluates valtype (Holds (some global)) (check_global global)
  global-Evaluates global = elim (Bool-cases (global.mut == 0)) [
    | inr mutable ↦ rw mutable λ h.
        let same : global ≡ h.1.0 = some_inj h.1.1 in
        let zero_mut : global.mut ≡ 0 = ap (λ (g : GlobalInst). g.mut) same ∙ h.1.2 in
        ground (arith, mutable, zero_mut)
    | inl constant ↦ elim (Bool-cases (global.value.type == valtype)) [
      | inr other ↦
          rw (constant, other)
            λ h.
              let same : global ≡ h.1.0 = some_inj h.1.1 in
              let typed : global.value.type ≡ valtype =
                ap (λ (g : GlobalInst). g.value.type) same
                ∙ sym (ap (λ (v : Value). v.type) h.1.3)
                ∙ h.2 in
              ground (arith, other, typed)
      | inl same ↦
          rw (constant, same) (ground (arith, same), (global, refl, ground (arith, constant), refl))
    ]
  ]

  at_address-Evaluates :
      (a : ℕ) (o : Option GlobalInst)
      → a < length store.globals
      → get_elem? store.globals a ≡ o
      → Evaluates valtype (Holds o) (element o >>= check_global)
  at_address-Evaluates a none h e = get_elem?-none store.globals a h e
  at_address-Evaluates a (some global) h e = global-Evaluates global

  at_index-Evaluates :
      (i : ℕ) (o : Option ℕ)
      → i < length module_inst.globals
      → All (λ a. a < length store.globals) module_inst.globals
      → get_elem? module_inst.globals i ≡ o
      → Evaluates valtype
          (Holds (global_at store.globals o))
          ((element o >>= λ a. element (get_elem? store.globals a)) >>= check_global)
  at_index-Evaluates i none h points e = get_elem?-none module_inst.globals i h e
  at_index-Evaluates i (some a) h points e =
      at_address-Evaluates a (get_elem? store.globals a)
        (get_elem?-All _ module_inst.globals i points e) refl

-- For one of the four types of values, and where the globals that the expression names exist, a
-- constant expression gives the value of that type that it stands for, that of its one literal or of the one
-- global that it names, if that cannot be changed. It is an error where it stands for no value
-- of that type. No access is outside an object.
pub read_constant_expression-Evaluates :
    (store : Store) (module_inst : ModuleInst) (valtype : ℕ) (is : Instrs)
    → IsValtype valtype
    → All (λ a. a < length store.globals) module_inst.globals
    → Globals store module_inst is
    → Evaluates valtype
        (Denotes store module_inst is)
        (read_constant_expression store module_inst valtype is)
unfolding read_constant_expression read_global_value
read_constant_expression-Evaluates store module_inst valtype nil t points g = λ h. h.1
read_constant_expression-Evaluates store module_inst valtype (cons i (cons j is)) t points g =
    λ h. h.1
read_constant_expression-Evaluates store module_inst valtype (cons (get_global globalidx) nil) t
      points g =
    at_index-Evaluates store module_inst valtype globalidx (get_elem? module_inst.globals globalidx)
      g.0 points refl
read_constant_expression-Evaluates store module_inst valtype (cons i nil) t points g =
    read_const-Evaluates valtype i t
