-- ===== src/Instantiate/Segment/Table.antt =====
-- src/wasmjit/instantiate.c: an element segment on one table, and the test of its bounds.
use wasmjit.Prelude.{
  ℕ, zero, suc, ◌+◌, ◌^◌, ◌%◌, ◌≤◌, ◌<◌, ◌≡◌, refl, sym, ap, ◌∙◌, false, List, [], ◌∷◌, ◌++◌,
  Option, some, length, take, drop, get_elem?, ltb, arith, Bool-cases, inl, inr, lt→ltb, ltb→lt,
  take-append-drop,
}
use wasmjit.Prelude.Overwrite.{overwrite}
use wasmjit.Runtime.Store.{TableInst}
use wasmjit.Instantiate.State.{Attempt, done, error, undefined}
use wasmjit.Instantiate.Segment.{set_elem, fill_slots, init_table}

-- The addresses that indices of functions stand for, as slots.
pub data Named (funcs : List ℕ) : List ℕ → List (Option ℕ) → Type 0 where
  empty : Named funcs [] []
  more :
      {funcidx f : ℕ} {funcidxs : List ℕ} {fs : List (Option ℕ)}
      → get_elem? funcs funcidx ≡ some f
      → Named funcs funcidxs fs
      → Named funcs (funcidx ∷ funcidxs) (some f ∷ fs)

pub length-set_elem {ℓ} :
    {A : Type ℓ} (xs : List A) (i : ℕ) (a : A) → length (set_elem xs i a) ≡ length xs
length-set_elem [] i a = refl
length-set_elem (x ∷ xs) zero a = refl
length-set_elem (x ∷ xs) (suc i) a = ap suc (length-set_elem xs i a)

overwrite-cons {ℓ} :
    {A : Type ℓ} (x : A) (xs : List A) (i : ℕ) (bs : List A)
    → overwrite (x ∷ xs) (suc i) bs ≡ x ∷ overwrite xs i bs
overwrite-cons x xs i bs = ap (λ (n : ℕ). x ∷ (take i xs ++ (bs ++ drop n (x ∷ xs)))) next
  where
    next : suc i + length bs ≡ suc (i + length bs)
    next = omega arith

overwrite-set_elem {ℓ} :
    {A : Type ℓ} (xs : List A) (i : ℕ) (a : A) (bs : List A)
    → i < length xs
    → overwrite (set_elem xs i a) (i + 1) bs ≡ overwrite xs i (a ∷ bs)
overwrite-set_elem [] i a bs h = absurd (omega arith)
overwrite-set_elem (x ∷ xs) zero a bs h =
    overwrite-cons a xs 0 bs
    ∙ ap (λ (n : ℕ). a ∷ (bs ++ drop n xs)) none_before
    ∙ sym (ap (λ (n : ℕ). a ∷ (bs ++ drop n (x ∷ xs))) one_before)
  where
    none_before : 0 + length bs ≡ length bs
    none_before = omega arith

    one_before : 0 + suc (length bs) ≡ suc (length bs)
    one_before = omega arith
overwrite-set_elem (x ∷ xs) (suc i) a bs h =
    ap (λ (n : ℕ). overwrite (x ∷ set_elem xs i a) n bs) next
    ∙ overwrite-cons x (set_elem xs i a) (i + 1) bs
    ∙ ap (λ r. x ∷ r) (overwrite-set_elem xs i a bs (omega arith))
    ∙ sym (overwrite-cons x xs i (a ∷ bs))
  where
    next : suc i + 1 ≡ suc (i + 1)
    next = omega arith

-- Writing nothing.
overwrite-nil {ℓ} : {A : Type ℓ} (xs : List A) (i : ℕ) → overwrite xs i [] ≡ xs
overwrite-nil xs i = ap (λ (n : ℕ). take i xs ++ drop n xs) same ∙ take-append-drop i xs
  where
    same : i + 0 ≡ i
    same = omega arith

fill_slots-fits :
    {funcs funcidxs : List ℕ} {fs : List (Option ℕ)} (offset : ℕ) (slots : List (Option ℕ))
    → Named funcs funcidxs fs
    → offset + length funcidxs ≤ length slots
    → fill_slots funcs offset funcidxs slots ≡ done (overwrite slots offset fs)
unfolding fill_slots
fill_slots-fits offset slots empty h = ap done (sym (overwrite-nil slots offset))
fill_slots-fits offset slots (more {f = f} {fs = fs} e named) h =
    rw (e, lt→ltb offset (length slots) (omega arith))
      (fill_slots-fits (offset + 1) (set_elem slots offset (some f)) named
          (omega (arith, length-set_elem slots offset (some f)))
        ∙ ap done (overwrite-set_elem slots offset (some f) fs (omega arith)))

fill_slots-overruns :
    {funcs funcidxs : List ℕ} {fs : List (Option ℕ)} (offset : ℕ) (slots : List (Option ℕ))
    → Named funcs funcidxs fs
    → 0 < length funcidxs
    → length slots < offset + length funcidxs
    → fill_slots funcs offset funcidxs slots ≡ undefined
unfolding fill_slots
fill_slots-overruns offset slots empty some_left h = absurd (omega arith)
fill_slots-overruns offset slots (more {f = f} e named) some_left h =
    elim (Bool-cases (ltb offset (length slots))) [
      | inl inside ↦
          rw (e, inside)
            (fill_slots-overruns (offset + 1) (set_elem slots offset (some f)) named
              (ground (arith, inside)) (omega (arith, length-set_elem slots offset (some f))))
      | inr outside ↦ rw (e, outside) refl
    ]

-- What an element segment does to a table. The test adds in 32 bits, so a segment that does not fit
-- can pass it, and is then written outside the table.
pub data Fills (tableinst : TableInst) (offset n : ℕ) (fs : List (Option ℕ))
    : Attempt TableInst → Type 0 where
  fits :
      offset + n ≤ tableinst.length
      → Fills tableinst offset n fs
          (done (record tableinst { slots = overwrite tableinst.slots offset fs }))
  refused : tableinst.length < (offset + n) % 2 ^ 32 → Fills tableinst offset n fs error
  overruns :
      tableinst.length < offset + n
      → 2 ^ 32 ≤ offset + n
      → (offset + n) % 2 ^ 32 ≤ tableinst.length
      → Fills tableinst offset n fs undefined

-- On a table with as many slots as its length says, of fewer than 2 ^ 32, and for an offset of 32
-- bits and indices that all name functions, an element segment that fits is written at its offset.
-- One that does not fit is refused, unless its end wraps in 32 bits to a place within the table:
-- then a slot outside the table is written.
pub init_table-Fills :
    (funcs funcidxs : List ℕ) (fs : List (Option ℕ)) (offset : ℕ) (tableinst : TableInst)
    → Named funcs funcidxs fs
    → length tableinst.slots ≡ tableinst.length
    → tableinst.length < 2 ^ 32
    → offset < 2 ^ 32
    → Fills tableinst offset (length funcidxs) fs (init_table funcs offset funcidxs tableinst)
unfolding init_table
init_table-Fills funcs funcidxs fs offset tableinst named whole bound h =
    elim (Bool-cases (ltb tableinst.length ((offset + length funcidxs) % 2 ^ 32))) [
      | inl out ↦ rw out (refused (ltb→lt _ _ out))
      | inr passed ↦ elim (Bool-cases (ltb tableinst.length (offset + length funcidxs))) [
        | inr inside ↦
            let room : offset + length funcidxs ≤ tableinst.length = ground (arith, inside) in
            rw (passed, fill_slots-fits offset tableinst.slots named (omega (arith, whole)))
              (fits room)
        | inl outside ↦
            let beyond = ltb→lt _ _ outside in
            let low = ltb→le passed in
            rw
              (
                passed,
                fill_slots-overruns offset tableinst.slots named (omega (arith, low))
                    (omega (arith, whole)),
              )
              (overruns beyond (omega (arith, low)) low)
      ]
    ]
  where
    ltb→le : {a b : ℕ} → ltb a b ≡ false → b ≤ a
    ltb→le e = ground (arith, e)
