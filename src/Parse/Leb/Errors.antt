-- ===== src/Parse/Leb/Errors.antt =====
-- The readers of variable-length integers of src/wasmjit/parse.c, on input that is no complete
-- encoding in their width.
use wasmjit.Prelude.{
  ℕ, ◌+◌, ◌*◌, ◌≤◌, ◌<◌, bit_or, ◌≡◌, Bool, true, List, [], ◌∷◌, ◌++◌, arith, length, All, leb,
  if◌then◌else◌, lt→leb, le→leb, if◌then◌else◌,
}
use wasmjit.Parse.State.{Outcome, fail, undef}
use wasmjit.Parse.Leb.{read_leb, group, uleb_loop, read_uleb, leb_loop}
use wasmjit.Parse.Leb.Value.{top_bit_set}

-- A byte after which an encoding goes on.
abbrev pub Continues : ℕ → Type 0
Continues b = (128 ≤ b) × (b < 256)

uleb_loop_truncated :
    (bs : List ℕ) (w : ℕ) (eof : Bool) (value shift : ℕ)
    → All Continues bs
    → shift + 7 * length bs < w + 7
    → uleb_loop w eof value shift bs ≡ fail (record { eof = true; input = [] })
unfolding uleb_loop
uleb_loop_truncated [] w eof value shift h fits = λ i. fail (record { eof = true; input = [] })
uleb_loop_truncated (b ∷ bs) w eof value shift ((hi, lt), more) fits =
    rw (lt→leb w shift (omega arith), top_bit_set b hi lt)
      (uleb_loop_truncated bs w eof (bit_or value (group w b shift)) (shift + 7) more (omega arith))

leb_loop_truncated :
    (bs : List ℕ) (w : ℕ) (eof : Bool) (value shift : ℕ)
    → All Continues bs
    → shift + 7 * length bs < w + 7
    → leb_loop w eof value shift bs ≡ fail (record { eof = true; input = [] })
unfolding leb_loop
leb_loop_truncated [] w eof value shift h fits = λ i. fail (record { eof = true; input = [] })
leb_loop_truncated (b ∷ bs) w eof value shift ((hi, lt), more) fits =
    rw (lt→leb w shift (omega arith), top_bit_set b hi lt)
      (leb_loop_truncated bs w eof (bit_or value (group w b shift)) (shift + 7) more (omega arith))

undef_both : (t : Bool) → if◌then◌else◌ {A = Outcome ℕ} t undef undef ≡ undef
undef_both t = ground arith

uleb_loop_overlong :
    (bs : List ℕ) (w : ℕ) (eof : Bool) (value shift c : ℕ) (rest : List ℕ)
    → All Continues bs
    → w ≤ shift + 7 * length bs
    → uleb_loop w eof value shift (bs ++ c ∷ rest) ≡ undef
unfolding uleb_loop
uleb_loop_overlong [] w eof value shift c rest h long = rw (le→leb w shift (omega arith))
uleb_loop_overlong (b ∷ bs) w eof value shift c rest ((hi, lt), more) long =
    rw
      (
        top_bit_set b hi lt,
        uleb_loop_overlong bs w eof (bit_or value (group w b shift)) (shift + 7) c rest more
            (omega arith),
      )
      (undef_both (leb w shift))

leb_loop_overlong :
    (bs : List ℕ) (w : ℕ) (eof : Bool) (value shift c : ℕ) (rest : List ℕ)
    → All Continues bs
    → w ≤ shift + 7 * length bs
    → leb_loop w eof value shift (bs ++ c ∷ rest) ≡ undef
unfolding leb_loop
leb_loop_overlong [] w eof value shift c rest h long = rw (le→leb w shift (omega arith))
leb_loop_overlong (b ∷ bs) w eof value shift c rest ((hi, lt), more) long =
    rw
      (
        top_bit_set b hi lt,
        leb_loop_overlong bs w eof (bit_or value (group w b shift)) (shift + 7) c rest more
            (omega arith),
      )
      (undef_both (leb w shift))

-- `read_uleb` and `read_leb` fail, with the end-of-file flag set and no input left, where the input
-- ends before a last byte and its bytes all begin within the width.
pub read_uleb_truncated :
    (w : ℕ) (bs : List ℕ) (eof : Bool)
    → All Continues bs
    → 7 * length bs < w + 7
    → (read_uleb w (record { eof = eof; input = bs }) ≡ fail (record { eof = true; input = [] }))
      × (read_leb w (record { eof = eof; input = bs }) ≡ fail (record { eof = true; input = [] }))
unfolding read_uleb read_leb
read_uleb_truncated w bs eof h fits = (
  uleb_loop_truncated bs w eof 0 0 h (omega arith),
  leb_loop_truncated bs w eof 0 0 h (omega arith),
)

-- `read_uleb` and `read_leb` have no bound on the bytes that they take: after as many bytes with
-- their top bit set as fill the width, one more byte makes them shift by the width or more, which C
-- leaves undefined.
pub read_uleb_overlong :
    (w : ℕ) (bs : List ℕ) (c : ℕ) (rest : List ℕ) (eof : Bool)
    → All Continues bs
    → w ≤ 7 * length bs
    → (read_uleb w (record { eof = eof; input = bs ++ c ∷ rest }) ≡ undef)
      × (read_leb w (record { eof = eof; input = bs ++ c ∷ rest }) ≡ undef)
unfolding read_uleb read_leb
read_uleb_overlong w bs c rest eof h long = (
  uleb_loop_overlong bs w eof 0 0 c rest h (omega arith),
  leb_loop_overlong bs w eof 0 0 c rest h (omega arith),
)
