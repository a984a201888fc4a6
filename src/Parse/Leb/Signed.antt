-- ===== src/Parse/Leb/Signed.antt =====
-- The value that `read_leb` of src/wasmjit/parse.c returns.
use native.Mathlib.Nat.{
  mod-eq_of_lt, mul-add-mod_self_right, add-mul-mod_self_right, add-mod-mod, zero-add, mul_comm,
  mod-lt, mod-eq-sub-mod, mod-mod, mod-le, mul-le-mul_left, zero-mul, add-zero, one-mul,
}
use native.Mathlib.Decide.{dec_lt}
use wasmjit.Prelude.{
  ℕ, zero, suc, ◌+◌, ◌-◌, ◌*◌, ◌/◌, ◌%◌, ◌^◌, ◌≤◌, ◌<◌, bit_and, bit_or, ◌≡◌, sym, ap, ◌∙◌, Bool,
  List, [], ◌∷◌, ◌++◌, arith, length, ◌==◌, lt→leb, ==_iff, lt→ltb, le→ltb, ◌⊎◌, inl, inr,
  Bool-cases,
}
use wasmjit.Prelude.Bits.{sign_bit, bit_or_shifted, two_pow-add, two_pow_pos, shifted-mod}
use wasmjit.Parse.State.{ok}
use wasmjit.Parse.Leb.{group, extend_sign, leb_loop, read_leb}
use wasmjit.Parse.Leb.Value.{
  IsLeb, groups_value, or_group_mod, round_value, two_pow_seven, shift_sum, top_bit_clear,
  top_bit_set,
}

abbrev pub last_byte : List ℕ → ℕ
last_byte [] = 0
last_byte (b ∷ []) = b
last_byte (b ∷ c ∷ bs) = last_byte (c ∷ bs)

-- The sign of an encoding is the top bit of its last group.
abbrev pub sign : List ℕ → ℕ
sign bs = last_byte bs / 64 % 2

leb_loop-IsLeb :
    (bs : List ℕ) (w : ℕ) (eof : Bool) (value shift t : ℕ) (rest : List ℕ)
    → IsLeb bs
    → shift + t ≡ w
    → value < 2 ^ shift
    → 7 * length bs < t + 7
    → leb_loop w eof value shift (bs ++ rest)
      ≡ ok
          (extend_sign w
            (last_byte bs)
            (shift + 7 * length bs)
            ((value + groups_value bs * 2 ^ shift) % 2 ^ w))
          (record { eof = eof; input = rest })
unfolding leb_loop
leb_loop-IsLeb [] w eof value shift t rest h e low fits = absurd h
leb_loop-IsLeb (b ∷ []) w eof value shift t rest h e low fits =
    rw
      (
        lt→leb w shift (omega arith),
        top_bit_clear b h,
        or_group_mod w shift t value e low b (omega arith),
      )
      (λ i.
        ok (extend_sign w b (ends i) ((value + plain i * 2 ^ shift) % 2 ^ w))
          (record { eof = eof; input = rest }))
  where
    ends : shift + 7 ≡ shift + 7 * length (b ∷ [])
    ends = omega arith

    plain : b % 128 ≡ groups_value (b ∷ [])
    plain = omega arith
leb_loop-IsLeb (b ∷ c ∷ bs) w eof value shift t rest (hi, lt, more) e low fits =
    let (plain, low') = round_value w shift (t - 7) value (omega arith) low b lt in
    let ends : shift + 7 + 7 * length (c ∷ bs) ≡ shift + 7 * length (b ∷ c ∷ bs) = omega arith in
    let sum : bit_or value (group w b shift) + groups_value (c ∷ bs) * 2 ^ (shift + 7)
        ≡ value + groups_value (b ∷ c ∷ bs) * 2 ^ shift =
      rw (plain, two_pow_seven) (shift_sum value (b % 128) (groups_value (c ∷ bs)) (2 ^ shift)) in
    rw (lt→leb w shift (omega arith), top_bit_set b hi lt)
      (leb_loop-IsLeb (c ∷ bs) w eof (bit_or value (group w b shift)) (shift + 7) (t - 7) rest more
          (omega arith) low' (omega arith)
        ∙ λ i.
            ok (extend_sign w (last_byte (c ∷ bs)) (ends i) (sum i % 2 ^ w))
              (record { eof = eof; input = rest }))

groups_value-lt : (bs : List ℕ) → groups_value bs < 2 ^ (7 * length bs)
groups_value-lt [] = omega arith
groups_value-lt (b ∷ bs) =
    let e : 7 * length (b ∷ bs) ≡ 7 * length bs + 7 = omega arith in
    rw (e, two_pow_seven) (omega (arith, groups_value-lt bs))

last_byte-lt : (bs : List ℕ) → IsLeb bs → last_byte bs < 128
last_byte-lt [] h = absurd h
last_byte-lt (b ∷ []) h = h
last_byte-lt (b ∷ c ∷ bs) (p, q, h) = last_byte-lt (c ∷ bs) h

sign_test : (b : ℕ) → b < 128 → (bit_and b 0x40 == 0) ≡ (b / 64 % 2 == 0)
sign_test b h = rw (sign_bit b (omega arith)) (ground arith)

pred_times : (p n : ℕ) → 0 < p → (p - 1) * n + n ≡ p * n
pred_times (suc p) n h = let e : suc p - 1 ≡ p = omega arith in rw e (omega arith)
pred_times zero n h = absurd (omega arith)

product_pred : (p n : ℕ) → 0 < p → p * suc n - 1 ≡ n * p + (p - 1)
product_pred p n h = omega arith

-- `~0 << n` in `n + t` bits.
high_ones : (n t : ℕ) → (2 ^ (n + t) - 1) * 2 ^ n % 2 ^ (n + t) ≡ (2 ^ t - 1) * 2 ^ n
high_ones n t =
    rw (two_pow-add, mul_comm (2 ^ n) (2 ^ t))
      (simp zero-add at
          (shifted-mod (2 ^ t) (2 ^ n) (2 ^ t * 2 ^ n - 1) 0 (two_pow_pos t) (two_pow_pos n))
        ∙ ap (λ (x : ℕ). x * 2 ^ n) rest)
  where
    split : 2 ^ t * 2 ^ n - 1 ≡ (2 ^ n - 1) * 2 ^ t + (2 ^ t - 1)
    split =
        let e : 2 ^ n ≡ suc (2 ^ n - 1) = omega (arith, two_pow_pos n) in
        ap (λ (m : ℕ). 2 ^ t * m - 1) e ∙ product_pred (2 ^ t) (2 ^ n - 1) (two_pow_pos t)

    rest : (2 ^ t * 2 ^ n - 1) % 2 ^ t ≡ 2 ^ t - 1
    rest = rw split (
        mul-add-mod_self_right (2 ^ n - 1) (2 ^ t) (2 ^ t - 1)
        ∙ mod-eq_of_lt (omega (arith, two_pow_pos t)))

-- A number below twice the modulus is its residue, or exceeds that by the modulus.
mod_wraps : (m x : ℕ) → x < m + m → ((x < m) × (x % m ≡ x)) ⊎ ((m ≤ x) × (x % m + m ≡ x))
mod_wraps m x h = elim (dec_lt x m) [
  | yes p ↦ inl (p, mod-eq_of_lt p)
  | no p ↦ inr (
    omega arith,
    rw
        (
          mod-eq-sub-mod {n = x} {m = m} (omega arith),
          mod-eq_of_lt {n = x - m} {m = m} (omega arith),
        )
        (omega arith),
  )
]

-- Two residues are equal if they are after the same addition.
residue_cancel : (m a b k : ℕ) → a < m → b < m → (a + k) % m ≡ (b + k) % m → a ≡ b
residue_cancel m a b k ha hb e = omega (
  arith,
  add-mod-mod a k m,
  add-mod-mod b k m,
  mod-lt k {m = m} (omega arith),
  mod_wraps m (a + k % m) (omega (arith, mod-lt k {m = m} (omega arith))),
  mod_wraps m (b + k % m) (omega (arith, mod-lt k {m = m} (omega arith))),
)

beyond_width : (w d g k : ℕ) → (g % 2 ^ w + k * 2 ^ (w + d)) % 2 ^ w ≡ g % 2 ^ w
beyond_width w d g k =
    let e : k * 2 ^ (w + d) ≡ k * 2 ^ d * 2 ^ w =
      omega (arith, ap (λ (x : ℕ). k * x) (two_pow-add w d)) in
    rw e (add-mul-mod_self_right (g % 2 ^ w) (k * 2 ^ d) (2 ^ w) ∙ mod-mod g (2 ^ w))

-- A negative encoding of `n` bits: the ones above them and `2 ^ n` make a multiple of `2 ^ w`.
negative_width :
    (n t g : ℕ)
    → g < 2 ^ n
    → (bit_or (g % 2 ^ (n + t)) ((2 ^ (n + t) - 1) * 2 ^ n % 2 ^ (n + t)) + 2 ^ n) % 2 ^ (n + t)
      ≡ g % 2 ^ (n + t)
negative_width n t g h =
    rw (high_ones, small, bit_or_shifted n g (2 ^ t - 1) h)
      (rw whole (add-mul-mod_self_right g 1 (2 ^ (n + t))) ∙ small)
  where
    small : g % 2 ^ (n + t) ≡ g
    small = mod-eq_of_lt (
        rw two_pow-add (
          omega
            (arith, two_pow_pos t, mul-le-mul_left {m = 1} {n = 2 ^ t} (2 ^ n) (two_pow_pos t))))

    whole : g + (2 ^ t - 1) * 2 ^ n + 2 ^ n ≡ g + 1 * 2 ^ (n + t)
    whole = rw two_pow-add (omega (arith, pred_times (2 ^ t) (2 ^ n) (two_pow_pos t)))

-- The sign extension, where groups of `n` bits in all hold the number `g`: adding `2 ^ n` to the
-- result of a negative encoding gives `g` again.
extend_sign_lem :
    (w b n g : ℕ)
    → b < 128
    → g < 2 ^ n
    → (extend_sign w b n (g % 2 ^ w) + b / 64 % 2 * 2 ^ n) % 2 ^ w ≡ g % 2 ^ w
unfolding extend_sign
extend_sign_lem w b n g hb hg = elim (dec_lt n w) [
  | yes p ↦ elim (Bool-cases (b / 64 % 2 == 0)) [
    | inl plus ↦
        rw (lt→ltb n w p, sign_test b hb, plus, (==_iff _ 0).0 plus)
          (simp (zero-mul, add-zero, mod-mod))
    | inr minus ↦
        let e : n + (w - n) ≡ w = omega arith in
        let one : b / 64 % 2 ≡ 1 = ground arith in
        rw (lt→ltb n w p, sign_test b hb, minus, one, one-mul)
          (rw e at (negative_width n (w - n) g hg))
  ]
  | no p ↦
      let e : w + (n - w) ≡ n = omega arith in
      rw (le→ltb n w (omega arith)) (rw e at (beyond_width w (n - w) g (b / 64 % 2)))
]

extend_sign-lt : (w b n v : ℕ) → v < 2 ^ w → v < 2 ^ n → extend_sign w b n v < 2 ^ w
unfolding extend_sign
extend_sign-lt w b n v hw hn = elim (dec_lt n w) [
  | yes p ↦
      let e : n + (w - n) ≡ w = omega arith in
      let ones = rw e at (high_ones n (w - n)) in
      let whole = rw e at (two_pow-add n (w - n)) in
      rw (ones, bit_or_shifted n v (2 ^ (w - n) - 1) hn)
        (ground (arith, whole, pred_times (2 ^ (w - n)) (2 ^ n) (two_pow_pos (w - n))))
  | no p ↦ rw (le→ltb n w (omega arith)) hw
]

-- `read_leb` takes a complete encoding of which every group begins within the width, and returns
-- the only `v` below 2 ^ w that is the signed number of the groups modulo 2 ^ w: where the sign is
-- set, their number less 2 ^ (7 * length bs).
pub read_leb-IsLeb :
    (w v : ℕ) (bs rest : List ℕ) (eof : Bool)
    → IsLeb bs
    → 7 * length bs < w + 7
    → v < 2 ^ w
    → (v + sign bs * 2 ^ (7 * length bs)) % 2 ^ w ≡ groups_value bs % 2 ^ w
    → read_leb w (record { eof = eof; input = bs ++ rest })
      ≡ ok v (record { eof = eof; input = rest })
unfolding read_leb
read_leb-IsLeb w v bs rest eof h fits hv e =
    leb_loop-IsLeb bs w eof 0 0 w rest h (omega arith) (omega arith) fits
    ∙ rw (zero-add, plain) (ap (λ (x : ℕ). ok x (record { eof = eof; input = rest })) same)
  where
    plain : 0 + groups_value bs * 2 ^ 0 ≡ groups_value bs
    plain = omega arith

    bound : groups_value bs % 2 ^ w < 2 ^ (7 * length bs)
    bound = omega (arith, groups_value-lt bs, mod-le (groups_value bs) (2 ^ w))

    same : extend_sign w (last_byte bs) (7 * length bs) (groups_value bs % 2 ^ w) ≡ v
    same =
        residue_cancel (2 ^ w)
          (extend_sign w (last_byte bs) (7 * length bs) (groups_value bs % 2 ^ w)) v
          (sign bs * 2 ^ (7 * length bs))
          (extend_sign-lt w (last_byte bs) (7 * length bs) (groups_value bs % 2 ^ w)
            (mod-lt (groups_value bs) {m = 2 ^ w} (two_pow_pos w)) bound)
          hv
          (extend_sign_lem w (last_byte bs) (7 * length bs) (groups_value bs) (last_byte-lt bs h)
              (groups_value-lt bs)
            ∙ sym e)
