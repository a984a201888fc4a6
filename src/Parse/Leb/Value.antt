-- ===== src/Parse/Leb/Value.antt =====
-- The value that `read_uleb` of src/wasmjit/parse.c returns, and that of byte groups.
use native.Mathlib.Nat.{mod-eq_of_lt, zero-add, mul-le-mul_right}
use wasmjit.Prelude.{
  ℕ, ◌+◌, ◌-◌, ◌*◌, ◌%◌, ◌^◌, ◌≤◌, ◌<◌, bit_and, bit_or, ◌≡◌, sym, ap, ◌∙◌, Bool, true, false, List,
  [], ◌∷◌, ◌++◌, arith, length, ◌==◌, lt→leb, ==_iff,
}
use wasmjit.Prelude.Bits.{low_seven, top_bit, bit_or_shifted, two_pow-add, two_pow_pos, shifted-mod}
use wasmjit.Parse.State.{ok}
use wasmjit.Parse.Leb.{group, uleb_loop, read_uleb}

-- A complete encoding: bytes with the top bit set, and a last one without it.
abbrev pub IsLeb : List ℕ → Type 0
IsLeb [] = ⊥
IsLeb (b ∷ []) = b < 128
IsLeb (b ∷ c ∷ bs) = (128 ≤ b) × (b < 256) × IsLeb (c ∷ bs)

-- The groups of seven bits, lowest first, as one number.
abbrev pub groups_value : List ℕ → ℕ
groups_value [] = 0
groups_value (b ∷ bs) = b % 128 + 128 * groups_value bs

module _ (w shift t value : ℕ) (width : shift + t ≡ w) (low : value < 2 ^ shift) where
  two_pow_width : 2 ^ w ≡ 2 ^ t * 2 ^ shift
  two_pow_width = rw (← width) (omega (arith, two_pow-add shift t))

  group_lem : (b : ℕ) → b < 256 → group w b shift ≡ b % 128 % 2 ^ t * 2 ^ shift
  group_lem b h =
      rw (low_seven b h, two_pow_width)
        (simp zero-add at
          (shifted-mod (2 ^ t) (2 ^ shift) (b % 128) 0 (two_pow_pos t) (two_pow_pos shift)))

  pub or_group :
      (b : ℕ) → b < 256 → bit_or value (group w b shift) ≡ value + b % 128 % 2 ^ t * 2 ^ shift
  or_group b h = rw (group_lem b h) (bit_or_shifted shift value (b % 128 % 2 ^ t) low)

  pub or_group_mod :
      (b : ℕ) → b < 256 → bit_or value (group w b shift) ≡ (value + b % 128 * 2 ^ shift) % 2 ^ w
  or_group_mod b h =
      or_group b h
      ∙ rw two_pow_width (sym (shifted-mod (2 ^ t) (2 ^ shift) (b % 128) value (two_pow_pos t) low))

-- Seven more bits: the bound on the accumulator after a round.
pub two_pow_seven : (n : ℕ) → 2 ^ (n + 7) ≡ 128 * 2 ^ n
two_pow_seven n = omega (arith, two_pow-add n 7)

-- A round on a byte with the top bit set, when at least seven bits of room are left.
pub round_value :
    (w shift u value : ℕ)
    → (shift + 7) + u ≡ w
    → value < 2 ^ shift
    → (b : ℕ) → b < 256
    → (bit_or value (group w b shift) ≡ value + b % 128 * 2 ^ shift)
      × (bit_or value (group w b shift) < 2 ^ (shift + 7))
round_value w shift u value e low b h =
    let whole : b % 128 % 2 ^ (u + 7) ≡ b % 128 =
      mod-eq_of_lt (omega (arith, two_pow_seven u, two_pow_pos u)) in
    let sum = or_group w shift (u + 7) value (omega arith) low b h in
    let plain : bit_or value (group w b shift) ≡ value + b % 128 * 2 ^ shift = rw whole at sum in
    (
      plain,
      rw plain (
          omega (
            arith,
            two_pow_seven shift,
            mul-le-mul_right {m = b % 128} {n = 127} (2 ^ shift) (omega arith),
          )),
    )

pub shift_sum : (value b v p : ℕ) → value + b * p + v * (128 * p) ≡ value + (b + 128 * v) * p
shift_sum value b v p = omega arith

pub top_bit_clear : (b : ℕ) → b < 128 → (bit_and b 0x80 == 0) ≡ true
top_bit_clear b h = (==_iff _ 0).1 (omega (arith, top_bit b (omega arith)))

pub top_bit_set : (b : ℕ) → 128 ≤ b → b < 256 → (bit_and b 0x80 == 0) ≡ false
top_bit_set b h k = ground (arith, top_bit b k)

-- The loop from any accumulator, with `t` bits of room and an encoding that begins each of its
-- groups in them.
pub uleb_loop-IsLeb :
    (bs : List ℕ) (w : ℕ) (eof : Bool) (value shift t : ℕ) (rest : List ℕ)
    → IsLeb bs
    → shift + t ≡ w
    → value < 2 ^ shift
    → 7 * length bs < t + 7
    → uleb_loop w eof value shift (bs ++ rest)
      ≡ ok ((value + groups_value bs * 2 ^ shift) % 2 ^ w) (record { eof = eof; input = rest })
unfolding uleb_loop
uleb_loop-IsLeb [] w eof value shift t rest h e low fits = absurd h
uleb_loop-IsLeb (b ∷ []) w eof value shift t rest h e low fits =
    rw
      (
        lt→leb w shift (omega arith),
        top_bit_clear b h,
        or_group_mod w shift t value e low b (omega arith),
      )
      (ground arith)
uleb_loop-IsLeb (b ∷ c ∷ bs) w eof value shift t rest (hi, lt, more) e low fits =
    let (plain, low') = round_value w shift (t - 7) value (omega arith) low b lt in
    rw (lt→leb w shift (omega arith), top_bit_set b hi lt)
      (uleb_loop-IsLeb (c ∷ bs) w eof (bit_or value (group w b shift)) (shift + 7) (t - 7) rest more
          (omega arith) low' (omega arith)
        ∙ ap (λ (n : ℕ). ok (n % 2 ^ w) (record { eof = eof; input = rest }))
            (rw (plain, two_pow_seven)
              (shift_sum value (b % 128) (groups_value (c ∷ bs)) (2 ^ shift))))

-- `read_uleb` at a width of `w` bits takes a complete encoding of which every group begins within
-- those bits, leaves what follows it, and returns the groups' number modulo 2 ^ w.
pub read_uleb-IsLeb :
    (w : ℕ) (bs rest : List ℕ) (eof : Bool)
    → IsLeb bs
    → 7 * length bs < w + 7
    → read_uleb w (record { eof = eof; input = bs ++ rest })
      ≡ ok (groups_value bs % 2 ^ w) (record { eof = eof; input = rest })
unfolding read_uleb
read_uleb-IsLeb w bs rest eof h fits =
    uleb_loop-IsLeb bs w eof 0 0 w rest h (omega arith) (omega arith) fits
    ∙ ap (λ (n : ℕ). ok (n % 2 ^ w) (record { eof = eof; input = rest })) (omega arith)
