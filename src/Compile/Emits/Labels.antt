-- ===== src/Compile/Emits/Labels.antt =====
-- Rules for the steps of src/wasmjit/compile.c that place labels or take new ones.
use wasmjit.Prelude.{◌≡◌, refl, Bool, true, false}
use wasmjit.Compile.State.{State, Result, Emit, assert, bind, pure, ◌>>=◌}
use wasmjit.Compile.Emits.{Placed, Later, Post, holds, Yields, Ends, ends, Leads}

module _ {ℓ κ} {A : Type ℓ} {B : Type κ} {Q : A → State → Type 0} {R : B → State → Type 0} where
  bind-Ends :
      {r : Result A} {f : A → Emit B}
      → Ends Q r
      → ((a : A) (t : State) → Q a t → Leads R (f a) t)
      → Ends R (bind r f)
  bind-Ends (ends {a = a} {t = t} p q) k = (k a t q).at p
  bind-Ends Ends.fails k = Ends.fails
  bind-Ends Ends.aborts k = Ends.aborts

  pub Leads-bind :
      {m : Emit A} {f : A → Emit B} {s : State}
      → Leads Q m s
      → ((a : A) (t : State) → Q a t → Leads R (f a) t)
      → Leads R (m >>= f) s
  Leads-bind h k = record { at = λ p. bind-Ends (h.at p) k }

  bind_post-Ends :
      {r : Result A} {f : A → Emit B} {s : State}
      → Post Q s r
      → ((a : A) (t : State) → Later s t → Q a t → Leads R (f a) t)
      → Ends R (bind r f)
  bind_post-Ends (holds {a = a} {t = t} p l q) k = (k a t l q).at p
  bind_post-Ends Post.fails k = Ends.fails
  bind_post-Ends Post.aborts k = Ends.aborts

  -- After a step that keeps the labels.
  pub Leads-after :
      {m : Emit A} {f : A → Emit B} {s : State}
      → Yields Q m s
      → ((a : A) (t : State) → Later s t → Q a t → Leads R (f a) t)
      → Leads R (m >>= f) s
  Leads-after h k = record { at = λ p. bind_post-Ends (h.at p) k }

module _ {ℓ} {A : Type ℓ} {Q : A → State → Type 0} where
  pub Leads-pure : (a : A) (s : State) → Q a s → Leads Q (pure a) s
  Leads-pure a s q = record { at = λ p. ends p q }

  pub Leads-given : {m : Emit A} {s : State} → (Placed s → Leads Q m s) → Leads Q m s
  Leads-given h = record { at = λ p. (h p).at p }

  pub Leads-asserted :
      (b : Bool) {m : Emit A} {s : State}
      → (b ≡ true → Leads Q m s)
      → Leads Q (assert b >>= λ _. m) s
  Leads-asserted true h = record { at = (h refl).at }
  Leads-asserted false h = record { at = λ _. Ends.aborts }

Ends-map {ℓ} :
    {A : Type ℓ} {Q R : A → State → Type 0} {r : Result A}
    → ((a : A) (t : State) → Q a t → R a t)
    → Ends Q r
    → Ends R r
Ends-map f (ends p q) = ends p (f _ _ q)
Ends-map f Ends.fails = Ends.fails
Ends-map f Ends.aborts = Ends.aborts

pub Leads-map {ℓ} :
    {A : Type ℓ} {Q R : A → State → Type 0} {m : Emit A} {s : State}
    → ((a : A) (t : State) → Q a t → R a t)
    → Leads Q m s
    → Leads R m s
Leads-map f h = record { at = λ p. Ends-map f (h.at p) }

pub Post-Ends {ℓ} :
    {A : Type ℓ} {Q : A → State → Type 0} {s : State} {r : Result A} → Post Q s r → Ends Q r
Post-Ends (holds p l q) = ends p q
Post-Ends Post.fails = Ends.fails
Post-Ends Post.aborts = Ends.aborts
