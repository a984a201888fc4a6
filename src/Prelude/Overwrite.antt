-- ===== src/Prelude/Overwrite.antt =====
-- A run of elements written over those of a list, at a place in it.
use wasmjit.Prelude.{
  ℕ, zero, suc, ◌+◌, ◌-◌, ◌≤◌, ◌<◌, ◌≡◌, refl, ap, ◌∙◌, List, [], ◌∷◌, ◌++◌, Option, length, take,
  drop, get_elem?, ltb, arith, Bool-cases, inl, inr, if◌then◌else◌, length-append, length-take,
  length-drop,
}

abbrev pub overwrite {ℓ} : {A : Type ℓ} → List A → ℕ → List A → List A
overwrite bytes offset buf = take offset bytes ++ (buf ++ drop (offset + length buf) bytes)

-- What a write of `buf` at `offset` leaves at each place.
abbrev pub written {ℓ} : {A : Type ℓ} → List A → ℕ → List A → ℕ → Option A
written xs offset buf i =
    if ltb i offset
    then get_elem? xs i
    else if ltb i (offset + length buf)
    then get_elem? buf (i - offset)
    else get_elem? xs i

get_elem?-take {ℓ} :
    {A : Type ℓ} (n : ℕ) (xs : List A) (i : ℕ) → i < n → get_elem? (take n xs) i ≡ get_elem? xs i
get_elem?-take zero xs i h = absurd (omega arith)
get_elem?-take (suc n) [] i h = refl
get_elem?-take (suc n) (x ∷ xs) zero h = refl
get_elem?-take (suc n) (x ∷ xs) (suc i) h = get_elem?-take n xs i (omega arith)

get_elem?-drop {ℓ} :
    {A : Type ℓ} (n : ℕ) (xs : List A) (i : ℕ) → get_elem? (drop n xs) i ≡ get_elem? xs (n + i)
get_elem?-drop zero xs i = ap (get_elem? xs) (omega arith)
get_elem?-drop (suc n) [] i = refl
get_elem?-drop (suc n) (x ∷ xs) i = get_elem?-drop n xs i ∙ ap (get_elem? (x ∷ xs)) (shift n i)
  where
    shift : (n i : ℕ) → suc (n + i) ≡ suc n + i
    shift n i = omega arith

get_elem?-append_left {ℓ} :
    {A : Type ℓ} (xs ys : List A) (i : ℕ) → i < length xs → get_elem? (xs ++ ys) i ≡ get_elem? xs i
get_elem?-append_left [] ys i h = absurd (omega arith)
get_elem?-append_left (x ∷ xs) ys zero h = refl
get_elem?-append_left (x ∷ xs) ys (suc i) h = get_elem?-append_left xs ys i (omega arith)

get_elem?-append_right {ℓ} :
    {A : Type ℓ} (xs ys : List A) (i : ℕ)
    → length xs ≤ i
    → get_elem? (xs ++ ys) i ≡ get_elem? ys (i - length xs)
get_elem?-append_right [] ys i h = ap (get_elem? ys) (omega arith)
get_elem?-append_right (x ∷ xs) ys zero h = absurd (omega arith)
get_elem?-append_right (x ∷ xs) ys (suc i) h =
    get_elem?-append_right xs ys i (omega arith) ∙ ap (get_elem? ys) (omega arith)

module _ {ℓ} {A : Type ℓ} (xs buf : List A) (offset : ℕ)
    (fits : offset + length buf ≤ length xs) where
  pub length-overwrite : length (overwrite xs offset buf) ≡ length xs
  length-overwrite = omega (
    arith,
    length-append (take offset xs) (buf ++ drop (offset + length buf) xs),
    length-append buf (drop (offset + length buf) xs),
    length-take offset xs (omega arith),
    length-drop (offset + length buf) xs,
  )

  overwritten_before : (i : ℕ) → i < offset → get_elem? (overwrite xs offset buf) i ≡ get_elem? xs i
  overwritten_before i h =
      get_elem?-append_left (take offset xs) _ i
        (omega (arith, length-take offset xs (omega arith)))
      ∙ get_elem?-take offset xs i h

  overwritten_after :
      (i : ℕ)
      → offset ≤ i
      → get_elem? (overwrite xs offset buf) i
        ≡ get_elem? (buf ++ drop (offset + length buf) xs) (i - offset)
  overwritten_after i h =
      let at_offset = length-take offset xs (omega arith) in
      get_elem?-append_right (take offset xs) _ i (omega (arith, at_offset))
      ∙ ap (λ (n : ℕ). get_elem? (buf ++ drop (offset + length buf) xs) (i - n)) at_offset

  pub overwrite_lem : (i : ℕ) → get_elem? (overwrite xs offset buf) i ≡ written xs offset buf i
  overwrite_lem i = elim (Bool-cases (ltb i offset)) [
    | inl before ↦ rw before (overwritten_before i (ground (arith, before)))
    | inr after ↦ elim (Bool-cases (ltb i (offset + length buf))) [
      | inl inside ↦
          rw (after, inside)
            (overwritten_after i (ground (arith, after))
              ∙ get_elem?-append_left buf _ (i - offset) (ground (arith, after, inside)))
      | inr beyond ↦
          rw (after, beyond)
            (overwritten_after i (ground (arith, after))
              ∙ get_elem?-append_right buf _ (i - offset) (ground (arith, after, beyond))
              ∙ get_elem?-drop (offset + length buf) xs (i - offset - length buf)
              ∙ ap (get_elem? xs) (ground (arith, after, beyond)))
    ]
  ]

  pub overwritten_inside :
      (i : ℕ) → i < length buf → get_elem? (overwrite xs offset buf) (offset + i) ≡ get_elem? buf i
  overwritten_inside i h =
      overwritten_after (offset + i) (omega arith)
      ∙ get_elem?-append_left buf _ (offset + i - offset) (omega (arith, h))
      ∙ ap (get_elem? buf) (omega arith)
