-- ===== src/Parse/Takes.antt =====
-- The input that a reader of src/wasmjit/parse.c takes, and whether it ends: the predicate `Takes`,
-- with its lemmas on the reader's combinators.
pub mod Instruction
pub mod Instructions
pub mod Section
use wasmjit.Prelude.{
  ℕ, zero, suc, ◌+◌, ◌≤◌, ◌≡◌, refl, sym, ap, ◌∙◌, Bool, true, false, List, [], ◌∷◌, ◌++◌, arith,
  length, length-append, take, drop, take-append-drop, length-take, append_assoc, ltb,
  if◌then◌else◌, Bool-cases, inl, inr, ◌==◌,
}
use wasmjit.Parse.State.{
  ParseState, Outcome, ok, fail, undef, Reader, bind, check, Allocator, advance_parser, read_raw,
  read_uint8, read_float, read_double, read_uint32, read_items,
}
use wasmjit.Parse.Leb.{uleb_loop, read_uleb, leb_loop, read_leb}
use wasmjit.Parse.Instruction.{read_vector}

-- At least `d` bytes are taken where the reader succeeds. It never runs out of fuel.
pub data Takes {ℓ} {A : Type ℓ} (d : ℕ) (s : ParseState) : Outcome A → Type ℓ where
  takes :
      {a : A} {s' : ParseState} (bs : List ℕ)
      → s.input ≡ bs ++ s'.input
      → d ≤ length bs
      → s'.eof ≡ s.eof
      → Takes d s (ok a s')
  fails : {s' : ParseState} → Takes d s (fail s')
  undefined : Takes d s undef

pub Takes-mono {ℓ} :
    {A : Type ℓ} {d e : ℕ} {s : ParseState} {r : Outcome A} → e ≤ d → Takes d s r → Takes e s r
Takes-mono h (takes bs p q r) = takes bs p (omega arith) r
Takes-mono h fails = fails
Takes-mono h undefined = undefined

-- A reader that goes on from where another has stepped over `bs`.
Takes-then {ℓ} :
    {A : Type ℓ} {d : ℕ} {s s' : ParseState} {r : Outcome A} (bs : List ℕ)
    → s.input ≡ bs ++ s'.input
    → d ≤ length bs
    → s'.eof ≡ s.eof
    → Takes 0 s' r
    → Takes d s r
Takes-then bs p q e (takes cs p' q' e') =
    takes (bs ++ cs) (p ∙ ap (λ r. bs ++ r) p' ∙ sym (append_assoc bs cs _))
      (omega (arith, length-append bs cs, q)) (e' ∙ e)
Takes-then bs p q e fails = fails
Takes-then bs p q e undefined = undefined

module _ {ℓ κ} {A : Type ℓ} {B : Type κ} {d : ℕ} {s : ParseState} where
  pub bind-Takes :
      {r : Outcome A} {f : A → ParseState → Outcome B}
      → Takes d s r
      → ((a : A) (s' : ParseState) → Takes 0 s' (f a s'))
      → Takes d s (bind r f)
  bind-Takes (takes bs p q e) k = Takes-then bs p q e (k _ _)
  bind-Takes fails k = fails
  bind-Takes undefined k = undefined

-- The same, where the second reader is known to start with so much less input.
pub bind_shorter-Takes {ℓ κ} :
    {A : Type ℓ} {B : Type κ} {d : ℕ} {s : ParseState} {r : Outcome A}
    {f : A → ParseState → Outcome B}
    → Takes d s r
    → ((a : A) (s' : ParseState) → d + length s'.input ≤ length s.input → Takes 0 s' (f a s'))
    → Takes d s (bind r f)
bind_shorter-Takes (takes {s' = s'} bs p q e) k =
    Takes-then bs p q e (k _ _ (omega (arith, ap length p, length-append bs s'.input)))
bind_shorter-Takes fails k = fails
bind_shorter-Takes undefined k = undefined

module _ {ℓ} {A : Type ℓ} {d : ℕ} {s : ParseState} where
  pub if-Takes :
      (b : Bool) {x y : Outcome A} → Takes d s x → Takes d s y → Takes d s (if b then x else y)
  if-Takes true p q = p
  if-Takes false p q = q

  pub if_reader-Takes :
      (b : Bool) (x y : Reader A)
      → Takes d s (x s)
      → Takes d s (y s)
      → Takes d s ((if◌then◌else◌ {A = Reader A} b x y) s)
  if_reader-Takes true x y p q = p
  if_reader-Takes false x y p q = q

pub pure-Takes {ℓ} : {A : Type ℓ} (a : A) (s : ParseState) → Takes 0 s (ok a s)
pure-Takes a s = takes [] refl (omega arith) refl

pub check-Takes : (b : Bool) (s : ParseState) → Takes 0 s (check b s)
check-Takes true s = pure-Takes tt s
check-Takes false s = fails

pub drop-Takes {ℓ} :
    {A : Type ℓ} (a : A) (n : ℕ) (s : ParseState)
    → n ≤ length s.input
    → Takes n s (ok a (record s { input = drop n s.input }))
drop-Takes a n s h =
    takes (take n s.input) (sym (take-append-drop n s.input))
      (omega (arith, length-take n s.input h)) refl

pub read_uint8-Takes : (s : ParseState) → Takes 1 s (read_uint8 s)
unfolding read_uint8
read_uint8-Takes s = first s.input refl
  where
    first : (bs : List ℕ) → s.input ≡ bs → Takes 1 s (read_uint8 (record s { input = bs }))
    first [] e = fails
    first (b ∷ bs) e = takes (b ∷ []) e (omega arith) refl

pub read_raw-Takes : (n : ℕ) (s : ParseState) → Takes n s (read_raw n s)
unfolding read_raw
read_raw-Takes n s = elim (Bool-cases (ltb (length s.input) n)) [
  | inl short ↦ rw short fails
  | inr enough ↦ rw enough (drop-Takes (take n s.input) n s (ground arith))
]

pub advance_parser-Takes : (n : ℕ) (s : ParseState) → Takes n s (advance_parser n s)
unfolding advance_parser
advance_parser-Takes n s = elim (Bool-cases (ltb (length s.input) n)) [
  | inl short ↦ rw short fails
  | inr enough ↦ rw enough (drop-Takes tt n s (ground arith))
]

-- A loop of DEFINE_ULEB_READER or DEFINE_LEB_READER that has stepped over one more byte.
more-Takes :
    {d : ℕ} {eof : Bool} (b : ℕ) (bs : List ℕ) {r : Outcome ℕ}
    → d ≤ 1
    → Takes 0 (record { eof = eof; input = bs }) r
    → Takes d (record { eof = eof; input = b ∷ bs }) r
more-Takes b bs h t = Takes-then (b ∷ []) refl (omega arith) refl t

uleb_loop-Takes :
    (bs : List ℕ) (w value shift : ℕ) (eof : Bool)
    → Takes 1 (record { eof = eof; input = bs }) (uleb_loop w eof value shift bs)
unfolding uleb_loop
uleb_loop-Takes [] w value shift eof = fails
uleb_loop-Takes (b ∷ bs) w value shift eof = if-Takes _ undefined (
    if-Takes _ (more-Takes b bs (omega arith) (pure-Takes _ _)) (
      more-Takes b bs (omega arith)
        (Takes-mono (omega arith) (uleb_loop-Takes bs w _ (shift + 7) eof))))

leb_loop-Takes :
    (bs : List ℕ) (w value shift : ℕ) (eof : Bool)
    → Takes 1 (record { eof = eof; input = bs }) (leb_loop w eof value shift bs)
unfolding leb_loop
leb_loop-Takes [] w value shift eof = fails
leb_loop-Takes (b ∷ bs) w value shift eof = if-Takes _ undefined (
    if-Takes _ (more-Takes b bs (omega arith) (pure-Takes _ _)) (
      more-Takes b bs (omega arith)
        (Takes-mono (omega arith) (leb_loop-Takes bs w _ (shift + 7) eof))))

pub read_uleb-Takes : (w : ℕ) (s : ParseState) → Takes 1 s (read_uleb w s)
unfolding read_uleb
read_uleb-Takes w s = uleb_loop-Takes s.input w 0 0 s.eof

pub read_leb-Takes : (w : ℕ) (s : ParseState) → Takes 1 s (read_leb w s)
unfolding read_leb
read_leb-Takes w s = leb_loop-Takes s.input w 0 0 s.eof

pub read_uint32-Takes : (s : ParseState) → Takes 4 s (read_uint32 s)
unfolding read_uint32
read_uint32-Takes s = bind-Takes (read_raw-Takes 4 s) (λ _. pure-Takes _)

pub read_float-Takes : (s : ParseState) → Takes 4 s (read_float s)
unfolding read_float
read_float-Takes s = bind-Takes (read_raw-Takes 4 s) (λ _. pure-Takes _)

pub read_double-Takes : (s : ParseState) → Takes 8 s (read_double s)
unfolding read_double
read_double-Takes s = bind-Takes (read_raw-Takes 8 s) (λ _. pure-Takes _)

-- A reader that succeeds or fails, at every state.
abbrev pub Runs {ℓ} : {A : Type ℓ} → Reader A → Type ℓ
Runs read = (s : ParseState) → Takes 0 s (read s)

pub read_uint8-Runs : Runs read_uint8
read_uint8-Runs s = Takes-mono (omega arith) (read_uint8-Takes s)

pub read_uleb-Runs : (w : ℕ) → Runs (read_uleb w)
read_uleb-Runs w s = Takes-mono (omega arith) (read_uleb-Takes w s)

pub read_leb-Runs : (w : ℕ) → Runs (read_leb w)
read_leb-Runs w s = Takes-mono (omega arith) (read_leb-Takes w s)

pub read_float-Runs : Runs read_float
read_float-Runs s = Takes-mono (omega arith) (read_float-Takes s)

pub read_double-Runs : Runs read_double
read_double-Runs s = Takes-mono (omega arith) (read_double-Takes s)

pub read_items-Takes {ℓ} :
    {A : Type ℓ} (n : ℕ) {read : Reader A} → Runs read → Runs (read_items n read)
unfolding read_items
read_items-Takes zero h s = pure-Takes [] s
read_items-Takes (suc n) h s =
    bind-Takes (h s) λ x s₁. bind-Takes (read_items-Takes n h s₁) λ xs. pure-Takes (x ∷ xs)

pub read_vector-Takes {ℓ} :
    {A : Type ℓ} (alloc : Allocator) (size n : ℕ) {read : Reader A}
    → Runs read
    → Runs (read_vector alloc size n read)
unfolding read_vector
read_vector-Takes alloc size n h s =
    if_reader-Takes (n == 0) _ _ (pure-Takes [] s)
      (bind-Takes (check-Takes _ s) λ _ s₁. read_items-Takes n h s₁)
