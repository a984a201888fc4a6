-- ===== src/Compile/Emits.antt =====
-- The postcondition family for the steps of src/wasmjit/compile.c: where they succeed, the output and
-- the labels have only grown, and what points into them still does.
pub mod Rules
pub mod Output
pub mod Stack
pub mod Branch
pub mod Instruction
pub mod Labels
pub mod Places
pub mod Frames
pub mod Sequence
pub mod Blocks
pub mod Rounds
pub mod Function
pub mod Fixed
use wasmjit.Prelude.{
  ℕ, ◌+◌, ◌≤◌, ◌<◌, ◌≡◌, ◌⊎◌, Bool, true, false, List, Option, none, some, length, get_elem?, All,
  if◌then◌else◌, arith, inl, inr,
}
use wasmjit.Compile.State.{
  Memref, BranchPoint, Label, StackElt, State, func_exit_cont, Result, done, error, undefined, Emit,
  bind, pure, skip, wrong, ensure, assert, get, found, unchecked, ◌>>=◌, ◌>>◌,
}

-- The eight bytes of a reference are among `n` bytes of output.
abbrev pub RefIn : ℕ → Memref → Type 0
RefIn n r = r.code_offset + 8 ≤ n

-- The five bytes of a jump are, too, and its target is one of `k` labels or the function's end.
abbrev pub BranchIn : ℕ → ℕ → BranchPoint → Type 0
BranchIn n k b =
    b.branch_offset + 5 ≤ n × (b.continuation_idx ≡ func_exit_cont ⊎ b.continuation_idx < k)

-- A predicate of what is there, if anything is.
abbrev pub Given {ℓ κ} : {A : Type ℓ} → (A → Type κ) → Option A → Type κ
Given P none = Unit
Given P (some a) = P a

-- A label's place, where it is set, is in the output.
abbrev pub PlaceIn : ℕ → Option ℕ → Type 0
PlaceIn n = Given (λ p. p ≤ n)

abbrev pub LabelIn : ℕ → Option Label → Type 0
LabelIn k = Given (λ l. l.continuation_idx < k)

abbrev pub EltIn : ℕ → StackElt → Type 0
EltIn k e = LabelIn k e.label

pub record Placed (s : State) : Type 0 where
  pub memrefs_in : All (RefIn (length s.output)) s.memrefs
  pub branches_in : All (BranchIn (length s.output) (length s.labels)) s.branches
  pub labels_in : All (PlaceIn (length s.output)) s.labels
  pub stack_in : All (EltIn (length s.labels)) s.stack

pub record Later (s t : State) : Type 0 where
  pub output_grows : length s.output ≤ length t.output
  pub labels_grow : length s.labels ≤ length t.labels
  -- What is not set was there before, and was not set.
  pub unset_before : (i : ℕ) → get_elem? t.labels i ≡ some none → get_elem? s.labels i ≡ some none

pub data Post {ℓ} {A : Type ℓ} (Q : A → State → Type 0) (s : State) : Result A → Type ℓ where
  holds : {a : A} {t : State} → Placed t → Later s t → Q a t → Post Q s (done a t)
  fails : Post Q s error
  aborts : Post Q s undefined

-- A step from a state where all that points into the output does so.
pub record Yields {ℓ} {A : Type ℓ} (Q : A → State → Type 0) (m : Emit A) (s : State) : Type ℓ where
  pub at : Placed s → Post Q s (m s)

abbrev pub Anything {ℓ} : {A : Type ℓ} → A → State → Type 0
Anything a s = Unit

-- A step at any state.
abbrev pub Emits {ℓ} : {A : Type ℓ} → Emit A → Type ℓ
Emits m = (s : State) → Yields Anything m s

-- The same for a step that may place labels or take new ones.
pub data Ends {ℓ} {A : Type ℓ} (Q : A → State → Type 0) : Result A → Type ℓ where
  ends : {a : A} {t : State} → Placed t → Q a t → Ends Q (done a t)
  fails : Ends Q error
  aborts : Ends Q undefined

pub record Leads {ℓ} {A : Type ℓ} (Q : A → State → Type 0) (m : Emit A) (s : State) : Type ℓ where
  pub at : Placed s → Ends Q (m s)
