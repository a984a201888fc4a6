-- ===== src/Prelude/Bits/Ones.antt =====
-- `&` with a mask of ones, at every width, and with none.
use Prim.Native.Nat.{ℕ, zero, suc, ◌-◌, ◌/◌, ◌^◌, ◌≤◌, ◌<◌, min, bit_and, digits, bit_and-bitwise}
use mathlib.Core.Path.{◌≡◌, refl, ap, ◌∙◌}
use native.Mathlib.Omega.{arith}
use native.Mathlib.Nat.{pow-suc}

-- The digits of `a & b`, for an `a` of at most `fuel`.
abbrev masked : ℕ → ℕ → ℕ → ℕ
masked fuel a b = digits (λ d. zero) min fuel a b

mask_half : (k : ℕ) → (2 ^ suc k - 1) / 2 ≡ 2 ^ k - 1
mask_half k = omega (arith, pow-suc 2 k)

masked-ones : (fuel k a : ℕ) → a ≤ fuel → a < 2 ^ k → masked fuel a (2 ^ k - 1) ≡ a
masked-ones zero k zero h l = refl
masked-ones zero k (suc a) h l = absurd (omega arith)
masked-ones (suc fuel) k zero h l = refl
masked-ones (suc fuel) zero (suc a) h l = absurd (omega arith)
masked-ones (suc fuel) (suc k) (suc a) h l = omega (
  arith,
  ap (masked fuel (suc a / 2)) (mask_half k),
  masked-ones fuel k (suc a / 2) (omega arith) (omega (arith, pow-suc 2 k)),
  pow-suc 2 k,
)

masked-zero : (fuel a : ℕ) → a ≤ fuel → masked fuel a 0 ≡ 0
masked-zero zero zero h = refl
masked-zero zero (suc a) h = absurd (omega arith)
masked-zero (suc fuel) zero h = refl
masked-zero (suc fuel) (suc a) h = omega (arith, masked-zero fuel (suc a / 2) (omega arith))

-- A mask of none.
pub bit_and-zero : (a : ℕ) → bit_and a 0 ≡ 0
bit_and-zero a = bit_and-bitwise a 0 ∙ masked-zero a a (omega arith)

-- A mask that covers the number.
pub bit_and-ones : (k a : ℕ) → a < 2 ^ k → bit_and a (2 ^ k - 1) ≡ a
bit_and-ones k a h = bit_and-bitwise a (2 ^ k - 1) ∙ masked-ones a k a (omega arith) h
