-- ===== src/Compile/Emits/Rules.antt =====
-- The rules of the postcondition family for src/wasmjit/compile.c, one for each way to put steps
-- together.
use wasmjit.Prelude.{
  ℕ, ◌≤◌, ◌≡◌, refl, ap, ◌∙◌, List, length, get_elem?, Bool, true, false, Option, none, some,
  if◌then◌else◌, arith,
}
use wasmjit.Compile.State.{
  State, Result, error, Emit, bind, pure, wrong, ensure, assert, get, found, unchecked, ◌>>=◌, ◌>>◌,
  undefined,
}
use wasmjit.Compile.Emits.{Given, Placed, Later, Post, holds, fails, aborts, Yields, Emits}

-- A step that keeps the labels.
pub Later-output :
    (s t : State) → length s.output ≤ length t.output → s.labels ≡ t.labels → Later s t
Later-output s t h same = record {
  output_grows = h;
  labels_grow = omega (arith, ap length same);
  unset_before = λ i e. ap (λ (l : List (Option ℕ)). get_elem? l i) same ∙ e;
}

pub Later-refl : (s : State) → Later s s
Later-refl s = Later-output s s (omega arith) refl

pub Later-trans : {s t u : State} → Later s t → Later t u → Later s u
Later-trans p q = record {
  output_grows = omega (arith, p.output_grows, q.output_grows);
  labels_grow = omega (arith, p.labels_grow, q.labels_grow);
  unset_before = λ i e. p.unset_before i (q.unset_before i e);
}

module _ {ℓ} {A : Type ℓ} {Q : A → State → Type 0} where
  pub later-Post : {s t : State} {r : Result A} → Later s t → Post Q t r → Post Q s r
  later-Post l (holds p l' q) = holds p (Later-trans l l') q
  later-Post l fails = fails
  later-Post l aborts = aborts

  pub Yields-if :
      {m k : Emit A} {s : State} (b : Bool)
      → Yields Q m s
      → Yields Q k s
      → Yields Q (if b then m else k) s
  Yields-if true p q = p
  Yields-if false p q = q

  pub Yields-pure : (a : A) (s : State) → Q a s → Yields Q (pure a) s
  Yields-pure a s q = record { at = λ p. holds p (Later-refl s) q }

  pub Yields-wrong : (s : State) → Yields Q wrong s
  Yields-wrong s = record { at = λ _. aborts }

module _ {ℓ κ} {A : Type ℓ} {B : Type κ} {Q : A → State → Type 0} {R : B → State → Type 0} where
  bind-Post :
      {r : Result A} {f : A → Emit B} {s : State}
      → Post Q s r
      → ((a : A) (t : State) → Later s t → Q a t → Yields R (f a) t)
      → Post R s (bind r f)
  bind-Post (holds {a = a} {t = t} p l q) k = later-Post l ((k a t l q).at p)
  bind-Post fails k = fails
  bind-Post aborts k = aborts

  pub Yields-bind :
      {m : Emit A} {f : A → Emit B} {s : State}
      → Yields Q m s
      → ((a : A) (t : State) → Later s t → Q a t → Yields R (f a) t)
      → Yields R (m >>= f) s
  Yields-bind h k = record { at = λ p. bind-Post (h.at p) k }

Post-map {ℓ} :
    {A : Type ℓ} {Q R : A → State → Type 0} {s : State} {r : Result A}
    → ((a : A) (t : State) → Q a t → R a t)
    → Post Q s r
    → Post R s r
Post-map f (holds p l q) = holds p l (f _ _ q)
Post-map f fails = fails
Post-map f aborts = aborts

pub Yields-map {ℓ} :
    {A : Type ℓ} {Q R : A → State → Type 0} {m : Emit A} {s : State}
    → ((a : A) (t : State) → Q a t → R a t)
    → Yields Q m s
    → Yields R m s
Yields-map f h = record { at = λ p. Post-map f (h.at p) }

pub Emits-pure {ℓ} : {A : Type ℓ} (a : A) → Emits (pure a)
Emits-pure a s = Yields-pure a s tt

pub Emits-wrong {ℓ} : {A : Type ℓ} → Emits (wrong {A = A})
Emits-wrong s = Yields-wrong s

pub Emits-if {ℓ} :
    {A : Type ℓ} {m k : Emit A} (b : Bool) → Emits m → Emits k → Emits (if b then m else k)
Emits-if b p q s = Yields-if b (p s) (q s)

module _ {ℓ κ} {A : Type ℓ} {B : Type κ} where
  pub Emits-bind :
      {m : Emit A} {f : A → Emit B} → Emits m → ((a : A) → Emits (f a)) → Emits (m >>= f)
  Emits-bind h k s = Yields-bind (h s) λ a t _ _. k a t

  pub Emits-then : {m : Emit A} {k : Emit B} → Emits m → Emits k → Emits (m >> k)
  Emits-then h k s = Yields-bind (h s) λ _ t _ _. k t

pub Emits-ensure : (b : Bool) → Emits (ensure b)
Emits-ensure true s = Yields-pure tt s tt
Emits-ensure false s = record { at = λ _. fails }

-- A test leaves the state as it is.
pub ensure-Yields : (b : Bool) (s : State) → Yields (λ _ t. t ≡ s) (ensure b) s
ensure-Yields true s = Yields-pure tt s refl
ensure-Yields false s = record { at = λ _. fails }

pub Emits-assert : (b : Bool) → Emits (assert b)
Emits-assert true s = Yields-pure tt s tt
Emits-assert false s = Yields-wrong s

pub assert-Yields : (b : Bool) (s : State) → Yields (λ _ t. t ≡ s) (assert b) s
assert-Yields true s = Yields-pure tt s refl
assert-Yields false s = Yields-wrong s

pub Emits-get : Emits get
Emits-get s = record { at = λ p. holds p (Later-refl s) tt }

pub get-Yields : (s : State) → Yields (λ a t. a ≡ t) get s
get-Yields s = record { at = λ p. holds p (Later-refl s) refl }

pub found-Yields {ℓ} :
    {A : Type ℓ} (P : A → Type 0) (x : Option A) (s : State)
    → Given P x
    → Yields (λ a _. P a) (found x) s
found-Yields P none s h = Yields-wrong s
found-Yields P (some a) s h = Yields-pure a s h

-- The state may be known to be a good one.
pub Yields-given {ℓ} :
    {A : Type ℓ} {Q : A → State → Type 0} {m : Emit A} {s : State}
    → (Placed s → Yields Q m s)
    → Yields Q m s
Yields-given h = record { at = λ p. (h p).at p }

pub Emits-found {ℓ} : {A : Type ℓ} (x : Option A) → Emits (found x)
Emits-found none s = Yields-wrong s
Emits-found (some a) s = Yields-pure a s tt

unchecked-Post {ℓ} :
    {A : Type ℓ} {Q : A → State → Type 0} {s : State} {r : Result A}
    → Post Q s r
    → Post Q s (elim r [ error ↦ undefined | t ↦ t ])
unchecked-Post (holds p l q) = holds p l q
unchecked-Post fails = aborts
unchecked-Post aborts = aborts

pub Emits-unchecked {ℓ} : {A : Type ℓ} {m : Emit A} → Emits m → Emits (unchecked m)
Emits-unchecked h s = record { at = λ p. unchecked-Post ((h s).at p) }

pub ruleset emits_rules = (
  Emits-pure, Emits-wrong, Emits-if, Emits-bind, Emits-ensure, Emits-assert, Emits-get, Emits-found,
  Emits-unchecked,
)
