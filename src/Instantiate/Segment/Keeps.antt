-- ===== src/Instantiate/Segment/Keeps.antt =====
-- src/wasmjit/instantiate.c: well-formed stores, and results that have a property.
use wasmjit.Prelude.{ℕ, zero, suc, List, [], ◌∷◌, All}
use wasmjit.Runtime.Store.{Store}
use wasmjit.Runtime.Indirect.Resolves.{IsTable}
use wasmjit.Instantiate.State.{Attempt, done, error, undefined, ◌>>=◌}
use wasmjit.Instantiate.Create.Typed.{IsMemory}
use wasmjit.Instantiate.Segment.{set_elem}

-- Each table has as many slots as its length says, empty or pointing to functions, and each memory
-- as many bytes as its size says.
abbrev pub IsWellFormed : Store → Type 0
IsWellFormed store = All IsMemory store.mems × All (IsTable store.funcs) store.tables

-- A result, if there is one, has the property.
abbrev pub IfDone : {A : Type 0} → (A → Type 0) → Attempt A → Type 0
IfDone P (done a) = P a
IfDone P _ = Unit

pub bind-IfDone :
    {A B : Type 0} (P : A → Type 0) (Q : B → Type 0) (x : Attempt A) (f : A → Attempt B)
    → IfDone P x
    → ((a : A) → P a → IfDone Q (f a))
    → IfDone Q (x >>= f)
bind-IfDone P Q (done a) f p h = h a p
bind-IfDone P Q error f p h = tt
bind-IfDone P Q undefined f p h = tt

-- The same where nothing need be known of the result before.
pub next-IfDone :
    {A B : Type 0} (Q : B → Type 0) (x : Attempt A) (f : A → Attempt B)
    → ((a : A) → IfDone Q (f a))
    → IfDone Q (x >>= f)
next-IfDone Q (done a) f h = h a
next-IfDone Q error f h = tt
next-IfDone Q undefined f h = tt

pub set_elem-All :
    {A : Type 0} (P : A → Type 0) (xs : List A) (i : ℕ) {a : A}
    → All P xs
    → P a
    → All P (set_elem xs i a)
set_elem-All P [] i h p = tt
set_elem-All P (x ∷ xs) zero h p = (p, h.1)
set_elem-All P (x ∷ xs) (suc i) h p = (h.0, set_elem-All P xs i h.1 p)
