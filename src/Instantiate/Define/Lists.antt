-- ===== src/Instantiate/Define/Lists.antt =====
-- src/wasmjit/instantiate.c: arrays of pointers, by what is known of the objects that they point to.
use wasmjit.Prelude.{ℕ, zero, suc, ◌≡◌, refl, List, [], ◌∷◌, ◌++◌, some, length, get_elem?}
use wasmjit.Instantiate.State.{done}
use wasmjit.Instantiate.Code.{collect}

-- The objects at these addresses have these properties, one by one.
pub data Lists {A B : Type 0} (f : A → B) (objects : List A) : List ℕ → List B → Type 0 where
  nothing : Lists f objects [] []
  one_more :
      {a : ℕ} {x : A} {y : B} {addresses : List ℕ} {ys : List B}
      → get_elem? objects a ≡ some x
      → f x ≡ y
      → Lists f objects addresses ys
      → Lists f objects (a ∷ addresses) (y ∷ ys)

get_elem?-grown :
    {A : Type 0} (xs ys : List A) (i : ℕ) {x : A}
    → get_elem? xs i ≡ some x
    → get_elem? (xs ++ ys) i ≡ some x
get_elem?-grown [] ys i h = cc
get_elem?-grown (x ∷ xs) ys zero h = h
get_elem?-grown (x ∷ xs) ys (suc i) h = get_elem?-grown xs ys i h

pub get_elem?-last :
    {A : Type 0} (xs : List A) (x : A) → get_elem? (xs ++ x ∷ []) (length xs) ≡ some x
get_elem?-last [] x = refl
get_elem?-last (y ∷ xs) x = get_elem?-last xs x

module _ {A B : Type 0} {f : A → B} {objects : List A} where
  pub Lists-snoc :
      {addresses : List ℕ} {ys : List B} (a : ℕ) (x : A) (y : B)
      → Lists f objects addresses ys
      → get_elem? objects a ≡ some x
      → f x ≡ y
      → Lists f objects (addresses ++ a ∷ []) (ys ++ y ∷ [])
  Lists-snoc a x y nothing e h = one_more e h nothing
  Lists-snoc a x y (one_more p q rest) e h = one_more p q (Lists-snoc a x y rest e h)

  -- More objects leave those that were there where they are.
  pub Lists-grown :
      {addresses : List ℕ} {ys : List B} (extra : List A)
      → Lists f objects addresses ys
      → Lists f (objects ++ extra) addresses ys
  Lists-grown extra nothing = nothing
  Lists-grown extra (one_more {a = a} p q rest) =
      one_more (get_elem?-grown objects extra a p) q (Lists-grown extra rest)

  pub Lists-collect :
      {addresses : List ℕ} {ys : List B}
      → Lists f objects addresses ys
      → collect f objects addresses ≡ done ys
  Lists-collect nothing = refl
  Lists-collect (one_more p q rest) = rw (p, Lists-collect rest, q)
