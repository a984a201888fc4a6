-- ===== src/Instantiate/Gives.antt =====
-- The postconditions of the steps of src/wasmjit/instantiate.c, for the case that they succeed.
use wasmjit.Prelude.{◌≡◌, refl, Bool, true, false, Option, none, some}
use wasmjit.Instantiate.State.{Attempt, done, error, undefined, ensure, element, ◌>>=◌}
use wasmjit.Instantiate.Segment.Keeps.{IfDone}

pub record Gives {A : Type 0} (P : A → Type 0) (m : Attempt A) : Type 0 where
  pub given : IfDone P m

module _ {A B : Type 0} {P : A → Type 0} {Q : B → Type 0} where
  bound :
      (m : Attempt A) (f : A → Attempt B)
      → IfDone P m
      → ((a : A) → P a → Gives Q (f a))
      → IfDone Q (m >>= f)
  bound (done a) f p h = (h a p).given
  bound error f p h = tt
  bound undefined f p h = tt

  pub Gives-bind :
      (m : Attempt A) {f : A → Attempt B}
      → Gives P m
      → ((a : A) → P a → Gives Q (f a))
      → Gives Q (m >>= f)
  Gives-bind m {f} p h = record { given = bound m f p.given h }

anything : {A : Type 0} (m : Attempt A) → IfDone (λ _. Unit) m
anything (done a) = tt
anything error = tt
anything undefined = tt

-- Nothing need be known of the first result.
pub Gives-next :
    {A B : Type 0} {Q : B → Type 0} (m : Attempt A) {f : A → Attempt B}
    → ((a : A) → Gives Q (f a))
    → Gives Q (m >>= f)
Gives-next m h = Gives-bind m (record { given = anything m }) λ a _. h a

pub Gives-done : {A : Type 0} {P : A → Type 0} {a : A} → P a → Gives P (done a)
Gives-done p = record { given = p }

pub Gives-error : {A : Type 0} {P : A → Type 0} → Gives P error
Gives-error = record { given = tt }

pub Gives-undefined : {A : Type 0} {P : A → Type 0} → Gives P undefined
Gives-undefined = record { given = tt }

element-some : {A : Type 0} (o : Option A) → IfDone (λ a. o ≡ some a) (element o)
element-some none = tt
element-some (some a) = refl

ensure-true : (b : Bool) → IfDone (λ _. b ≡ true) (ensure b)
ensure-true true = refl
ensure-true false = tt

pub element-Gives : {A : Type 0} (o : Option A) → Gives (λ a. o ≡ some a) (element o)
element-Gives o = record { given = element-some o }

pub ensure-Gives : (b : Bool) → Gives (λ _. b ≡ true) (ensure b)
ensure-Gives b = record { given = ensure-true b }
