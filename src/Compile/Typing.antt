-- ===== src/Compile/Typing.antt =====
-- The numeric instructions of src/wasmjit/compile.c and their types in WebAssembly.
use wasmjit.Prelude.{
  ℕ, ◌≡◌, refl, Bool, true, ◌&&◌, ◌||◌, leb, List, [], ◌∷◌, ◌++◌, map, Option, none, some, lookup,
  lookup-All, All, ◌==◌, if◌then◌else◌,
}
use wasmjit.Ast.Valtype
use wasmjit.Compile.State.{
  State, StackElt, Result, done, error, undefined, out_of_fuel, Allocator, out, outs,
}
use wasmjit.Compile.Stack.{value, push_stack, pop_stack, peek_stack, check_top, take_top}
use wasmjit.Compile.Numeric.{Numeric, emit_numeric, outs_wide}
use wasmjit.Compile.Numeric.Cases.{numerics}
use wasmjit.Compile.Instruction.{numeric_case}

-- Memory enough for every vector.
abbrev pub enough_memory : Allocator
enough_memory s n size = true

abbrev pub between : ℕ → ℕ → ℕ → Bool
between a b op = leb a op && leb op b

-- The operands of the numeric instructions, the top first, as the specification of WebAssembly has
-- them; 0xba is what src/wasmjit/ast.h calls OPCODE_F64_CONVERT_S_I64.
abbrev pub operands : ℕ → List ℕ
operands op =
    if op == 0x45 || op == 0xac || op == 0xad || op == 0xb7 || op == 0xb8
    then Valtype.i32 ∷ []
    else if op == 0xa7 || op == 0xba || op == 0xbf
    then Valtype.i64 ∷ []
    else if op == 0xbb
    then Valtype.f32 ∷ []
    else if op == 0x9a || op == 0xaa || op == 0xab || op == 0xb0 || op == 0xb1 || op == 0xbd
    then Valtype.f64 ∷ []
    else if between 0x46 0x4f op || between 0x6a 0x78 op
    then Valtype.i32 ∷ Valtype.i32 ∷ []
    else if between 0x51 0x5a op || between 0x7c 0x8a op
    then Valtype.i64 ∷ Valtype.i64 ∷ []
    else Valtype.f64 ∷ Valtype.f64 ∷ []

-- Their result: comparisons give an i32, and all others what their names start with.
abbrev pub result : ℕ → ℕ
result op =
    if between 0x45 0x78 op || between 0xa7 0xab op
    then Valtype.i32
    else if between 0x79 0x8a op || between 0xac 0xb1 op || op == 0xbd
    then Valtype.i64
    else Valtype.f64

abbrev pub stack_of {ℓ} : {A : Type ℓ} → Result A → Option (List StackElt)
stack_of (done a s) = some s.stack
stack_of error = none
stack_of undefined = none
stack_of out_of_fuel = none

-- What a case of the table does to the static stack.
abbrev Typed : ℕ × Numeric → Type 0
Typed (op, n) =
    (s : State) (st : List StackElt)
    → stack_of (emit_numeric enough_memory n (record s { stack = map value (operands op) ++ st }))
      ≡ some (value (result op) ∷ st)

-- A list of such cases.
infixr 3 ◌also◌
data Cases : List (ℕ × Numeric) → Type 0 where
  nothing : Cases []
  ◌also◌ : {e : ℕ × Numeric} {es : List (ℕ × Numeric)} → Typed e → Cases es → Cases (e ∷ es)

Cases-All : (es : List (ℕ × Numeric)) → Cases es → All Typed es
Cases-All [] c = tt
Cases-All (e ∷ es) (p also ps) = (p, Cases-All es ps)

numerics-Cases : Cases numerics
unfolding emit_numeric out outs push_stack pop_stack peek_stack check_top take_top outs_wide
numerics-Cases =
    (λ s st. refl)
    also (λ s st. refl)
    also (λ s st. refl)
    also (λ s st. refl)
    also (λ s st. refl)
    also (λ s st. refl)
    also (λ s st. refl)
    also (λ s st. refl)
    also (λ s st. refl)
    also (λ s st. refl)
    also (λ s st. refl)
    also (λ s st. refl)
    also (λ s st. refl)
    also (λ s st. refl)
    also (λ s st. refl)
    also (λ s st. refl)
    also (λ s st. refl)
    also (λ s st. refl)
    also (λ s st. refl)
    also (λ s st. refl)
    also (λ s st. refl)
    also (λ s st. refl)
    also (λ s st. refl)
    also (λ s st. refl)
    also (λ s st. refl)
    also (λ s st. refl)
    also (λ s st. refl)
    also (λ s st. refl)
    also (λ s st. refl)
    also (λ s st. refl)
    also (λ s st. refl)
    also (λ s st. refl)
    also (λ s st. refl)
    also (λ s st. refl)
    also (λ s st. refl)
    also (λ s st. refl)
    also (λ s st. refl)
    also (λ s st. refl)
    also (λ s st. refl)
    also (λ s st. refl)
    also (λ s st. refl)
    also (λ s st. refl)
    also (λ s st. refl)
    also (λ s st. refl)
    also (λ s st. refl)
    also (λ s st. refl)
    also (λ s st. refl)
    also (λ s st. refl)
    also (λ s st. refl)
    also (λ s st. refl)
    also (λ s st. refl)
    also (λ s st. refl)
    also (λ s st. refl)
    also (λ s st. refl)
    also (λ s st. refl)
    also (λ s st. refl)
    also (λ s st. refl)
    also (λ s st. refl)
    also (λ s st. refl)
    also (λ s st. refl)
    also (λ s st. refl)
    also (λ s st. refl)
    also nothing

-- With enough memory, every numeric instruction that has a case finds its operands on the static
-- stack, fails no assertion there, and leaves its result in their place.
pub numeric_case_typed :
    (op : ℕ) (n : Numeric)
    → lookup op numerics ≡ some n
    → (s : State) (st : List StackElt)
    → stack_of (numeric_case enough_memory op (record s { stack = map value (operands op) ++ st }))
      ≡ some (value (result op) ∷ st)
unfolding numeric_case
numeric_case_typed op n h s st =
    rw h (lookup-All Typed numerics op n h (Cases-All numerics numerics-Cases) s st)
