-- ===== src/Parse/Format/Operands.antt =====
-- The readers of operands of src/wasmjit/parse.c, on encoded operands.
use native.Mathlib.Nat.{mod-eq_of_lt}
use wasmjit.Prelude.{
  ℕ, suc, ◌≡◌, refl, ap, ◌∙◌, Bool, true, false, List, [], ◌∷◌, ◌++◌, append_assoc, arith, length,
  length-append, take-length_append, drop-length_append, le→ltb, ◌==◌,
}
use wasmjit.Parse.State.{
  ParseState, ok, Allocator, Reader, read_raw, read_float, read_double, read_items, le_value,
}
use wasmjit.Parse.Leb.{read_uleb, read_leb}
use wasmjit.Parse.Leb.Value.{read_uleb-IsLeb}
use wasmjit.Parse.Leb.Signed.{read_leb-IsLeb}
use wasmjit.Parse.Instruction.{read_vector}
use wasmjit.Parse.Format.{IsU32, IsSigned, AreU32}

abbrev pub at : Bool → List ℕ → ParseState
at eof bs = record { eof = eof; input = bs }

-- An allocator that meets every request.
abbrev pub Meets : Allocator → Type 0
Meets alloc = (input : List ℕ) (size : ℕ) → alloc input size ≡ true

-- The reader takes `bs` off any input, and returns `a`.
abbrev pub Reads {ℓ} : {A : Type ℓ} → Reader A → List ℕ → A → Type ℓ
Reads read bs a = (eof : Bool) (rest : List ℕ) → read (at eof (bs ++ rest)) ≡ ok a (at eof rest)

pub read_uleb-IsU32 : {bs : List ℕ} {v : ℕ} → IsU32 bs v → Reads (read_uleb 32) bs v
read_uleb-IsU32 {bs} {v} u eof rest =
    read_uleb-IsLeb 32 bs rest eof u.leb (omega arith)
    ∙ ap (λ (n : ℕ). ok n (at eof rest)) (mod-eq_of_lt (omega arith) ∙ u.value)

pub read_leb-IsSigned : (w : ℕ) {bs : List ℕ} {v : ℕ} → IsSigned w bs v → Reads (read_leb w) bs v
read_leb-IsSigned w {bs} {v} u eof rest =
    read_leb-IsLeb w v bs rest eof u.leb u.short u.range u.value

pub read_raw-length : (bs : List ℕ) (n : ℕ) → length bs ≡ n → Reads (read_raw n) bs bs
unfolding read_raw
read_raw-length bs n e eof rest = rw (
  ← e,
  le→ltb (length (bs ++ rest)) (length bs) (omega (arith, length-append bs rest)),
  take-length_append,
  drop-length_append,
)

pub read_float_lem : (bs : List ℕ) → length bs ≡ 4 → Reads read_float bs (le_value bs)
unfolding read_float
read_float_lem bs e eof rest = rw (read_raw-length bs 4 e)

pub read_double_lem : (bs : List ℕ) → length bs ≡ 8 → Reads read_double bs (le_value bs)
unfolding read_double
read_double_lem bs e eof rest = rw (read_raw-length bs 8 e)

read_items-AreU32 :
    {bs vs : List ℕ} → AreU32 bs vs → Reads (read_items (length vs) (read_uleb 32)) bs vs
unfolding read_items
read_items-AreU32 AreU32.none eof rest = refl
read_items-AreU32 (AreU32.more u us) eof rest =
    rw (append_assoc, read_uleb-IsU32 u, read_items-AreU32 us)

-- A vector of u32, after its count.
pub read_vector-AreU32 :
    (alloc : Allocator) (size : ℕ) {bs vs : List ℕ}
    → Meets alloc
    → AreU32 bs vs
    → Reads (read_vector alloc size (length vs) (read_uleb 32)) bs vs
unfolding read_vector
read_vector-AreU32 alloc size {vs = []} meets AreU32.none eof rest = refl
read_vector-AreU32 alloc size {vs = v ∷ vs} meets us eof rest =
    let some_items : (suc (length vs) == 0) ≡ false = ground arith in
    rw (some_items, meets) (read_items-AreU32 us eof rest)
