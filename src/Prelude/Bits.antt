-- ===== src/Prelude/Bits.antt =====
-- Bit operations as arithmetic: the masks of one byte by a table, and `|` with a value shifted
-- past the other operand at every width, from the digits of the native operation.
pub mod Ones
use Prim.Native.Nat.{
  ℕ, zero, suc, ◌+◌, ◌*◌, ◌/◌, ◌%◌, ◌^◌, ◌≤◌, ◌<◌, max, bit_and, bit_or, digits, bit_or-bitwise,
}
use mathlib.Core.Path.{◌≡◌, refl, ap, ◌≡⟨◌⟩◌, ◌∎}
use mathlib.Core.Bool.{Bool, true, ◌&&◌}
use native.Mathlib.Omega.{arith}
use native.Mathlib.Nat.{
  pow-suc, mul-add-mod_self_right, mod-eq_of_lt, mod-add-div', mod-lt, mul-le-mul_right,
}
use Prim.Native.Nat.add
use wasmjit.Prelude.Tests.{◌==◌}

-- Whether two functions agree on all numbers below a bound.
agree_below : (ℕ → ℕ) → (ℕ → ℕ) → ℕ → Bool
agree_below f g zero = true
agree_below f g (suc n) = f n == g n && agree_below f g n

agree_below→eq : (f g : ℕ → ℕ) (n : ℕ) → agree_below f g n ≡ true → (i : ℕ) → i < n → f i ≡ g i
unfolding agree_below
agree_below→eq f g zero e i h = absurd (omega arith)
agree_below→eq f g (suc n) e i h =
    ground (arith, λ (p : i < n). agree_below→eq f g n (ground arith) i p)

pub low_seven : (b : ℕ) → b < 256 → bit_and b 0x7f ≡ b % 128
unfolding agree_below
low_seven = agree_below→eq _ _ 256 refl

pub top_bit : (b : ℕ) → b < 256 → bit_and b 0x80 ≡ b / 128 * 128
unfolding agree_below
top_bit = agree_below→eq _ _ 256 refl

pub sign_bit : (b : ℕ) → b < 256 → bit_and b 0x40 ≡ b / 64 % 2 * 64
unfolding agree_below
sign_bit = agree_below→eq _ _ 256 refl

-- One step of the digit recursion of the native `|`, with its fuel named.
abbrev or_digits : ℕ → ℕ → ℕ → ℕ
or_digits n a b = digits (λ d. d) max n a b

or_digits_fuel : (n m a b : ℕ) → a ≤ n → a ≤ m → or_digits n a b ≡ or_digits m a b
or_digits_fuel zero zero a b p q = refl
or_digits_fuel zero (suc m) zero b p q = refl
or_digits_fuel zero (suc m) (suc a) b p q = absurd (omega arith)
or_digits_fuel (suc n) zero zero b p q = refl
or_digits_fuel (suc n) zero (suc a) b p q = absurd (omega arith)
or_digits_fuel (suc n) (suc m) zero b p q = refl
or_digits_fuel (suc n) (suc m) (suc a) b p q =
    omega (arith, or_digits_fuel n m (suc a / 2) (b / 2) (omega arith) (omega arith))

zero-bit_or : (b : ℕ) → bit_or 0 b ≡ b
zero-bit_or b = bit_or-bitwise 0 b

bit_or_step : (a b : ℕ) → bit_or a b ≡ bit_or (a / 2) (b / 2) * 2 + max (a % 2) (b % 2)
bit_or_step zero b = omega (arith, zero-bit_or b, zero-bit_or (b / 2))
bit_or_step (suc a) b = omega (
  arith,
  bit_or-bitwise (suc a) b,
  bit_or-bitwise (suc a / 2) (b / 2),
  or_digits_fuel a (suc a / 2) (suc a / 2) (b / 2) (omega arith) (omega arith),
)

times_two_pow : (q k : ℕ) → q * 2 ^ suc k ≡ 2 * (q * 2 ^ k)
times_two_pow q k = omega (arith, ap (λ (t : ℕ). q * t) (pow-suc 2 k))

-- `a | (q << k)` is a sum where `a` fits the low `k` bits.
pub bit_or_shifted : (k a q : ℕ) → a < 2 ^ k → bit_or a (q * 2 ^ k) ≡ a + q * 2 ^ k
bit_or_shifted zero a q h =
    let a0 : a ≡ 0 = omega arith in rw a0 (omega (arith, zero-bit_or (q * 2 ^ 0)))
bit_or_shifted (suc k) a q h = omega (
  arith,
  bit_or_step a (q * 2 ^ suc k),
  times_two_pow q k,
  ap (bit_or (a / 2)) half,
  bit_or_shifted k (a / 2) q (omega (arith, pow-suc 2 k)),
)
  where
    half : q * 2 ^ suc k / 2 ≡ q * 2 ^ k
    half = omega (arith, times_two_pow q k)

-- Powers of two add their exponents.
pub two_pow-add : (m n : ℕ) → 2 ^ (m + n) ≡ 2 ^ m * 2 ^ n
two_pow-add zero n = simp add.zero (omega arith)
two_pow-add (suc m) n =
    simp add.suc
      (omega (arith, pow-suc 2 (m + n), ap (λ (t : ℕ). t * 2 ^ n) (pow-suc 2 m), two_pow-add m n))

pub two_pow_pos : (n : ℕ) → 0 < 2 ^ n
two_pow_pos zero = omega arith
two_pow_pos (suc n) = omega (arith, pow-suc 2 n, two_pow_pos n)

-- A remainder by a product, of a number shifted by one factor with the low part `a`.
pub shifted-mod : (t p x a : ℕ) → 0 < t → a < p → (a + x * p) % (t * p) ≡ a + x % t * p
shifted-mod t p x a ht ha =
    (a + x * p) % (t * p)
    ≡⟨ ap (λ (n : ℕ). n % (t * p)) split ⟩ (x / t * (t * p) + (a + x % t * p)) % (t * p)
    ≡⟨ mul-add-mod_self_right (x / t) (t * p) (a + x % t * p) ⟩ (a + x % t * p) % (t * p)
    ≡⟨ mod-eq_of_lt below ⟩ a + x % t * p ∎
  where
    split : a + x * p ≡ x / t * (t * p) + (a + x % t * p)
    split = omega (arith, ap (λ (n : ℕ). n * p) (mod-add-div' x t))

    below : a + x % t * p < t * p
    below = omega (arith, mul-le-mul_right {m = suc (x % t)} {n = t} p (mod-lt x ht))
