-- ===== src/MachineWord/Shifts/Digits.antt =====
-- `|` of words that have no digit in common, and the parts of a word that a shift separates.
use Prim.Native.Nat.{max, digits, bit_or-bitwise}
use opendylan.Prelude.{
  ℕ, zero, suc, ◌+◌, ◌*◌, ◌/◌, ◌%◌, ◌^◌, ◌≤◌, ◌<◌, ◌≡◌, refl, sym, ap, ◌∙◌, arith, bit_or,
}
use native.Mathlib.Nat.{
  add-mul-div_right, add-mul-mod_self_right, div-eq_of_lt, mod-eq_of_lt, mod-lt, pow-suc,
  div-add-mod', mul-le-mul_right,
}

abbrev or_digits : ℕ → ℕ → ℕ → ℕ
or_digits n a b = digits (λ b. b) max n a b

or_digits_fuel : (n m a b : ℕ) → a ≤ n → a ≤ m → or_digits n a b ≡ or_digits m a b
or_digits_fuel zero zero a b p q = refl
or_digits_fuel zero (suc m) zero b p q = refl
or_digits_fuel zero (suc m) (suc a) b p q = absurd (omega arith)
or_digits_fuel (suc n) zero zero b p q = refl
or_digits_fuel (suc n) zero (suc a) b p q = absurd (omega arith)
or_digits_fuel (suc n) (suc m) zero b p q = refl
or_digits_fuel (suc n) (suc m) (suc a) b p q =
    omega (arith, or_digits_fuel n m (suc a / 2) (b / 2) (omega arith) (omega arith))

zero-bit_or : (b : ℕ) → bit_or 0 b ≡ b
zero-bit_or b = bit_or-bitwise 0 b

bit_or_step : (a b : ℕ) → bit_or a b ≡ bit_or (a / 2) (b / 2) * 2 + max (a % 2) (b % 2)
bit_or_step zero b = omega (arith, zero-bit_or b, zero-bit_or (b / 2))
bit_or_step (suc a) b = omega (
  arith,
  bit_or-bitwise (suc a) b,
  bit_or-bitwise (suc a / 2) (b / 2),
  or_digits_fuel a (suc a / 2) (suc a / 2) (b / 2) (omega arith) (omega arith),
)

-- The upper digits and the lower ones, put together.
pub bit_or_disjoint : (k a d : ℕ) → a < 2 ^ k → bit_or a (d * 2 ^ k) ≡ a + d * 2 ^ k
bit_or_disjoint zero zero d small = omega (arith, zero-bit_or (d * 2 ^ 0))
bit_or_disjoint zero (suc a) d small = absurd (omega arith)
bit_or_disjoint (suc k) a d small =
    let e : d * 2 ^ suc k ≡ d * 2 ^ k * 2 = omega (arith, ap (λ (t : ℕ). d * t) (pow-suc 2 k)) in
    let half : d * 2 ^ k * 2 / 2 ≡ d * 2 ^ k = omega arith in
    ap (λ (t : ℕ). bit_or a t) e
    ∙ bit_or_step a (d * 2 ^ k * 2)
    ∙ omega
        (arith, e, ap (λ (t : ℕ). bit_or (a / 2) t) half, bit_or_disjoint k (a / 2) d (omega arith))

-- The quotient and the remainder, by a sum of a multiple and a number below the divisor.
pub quotient : {m : ℕ} (a b n : ℕ) → n ≡ b + a * m → b < m → n / m ≡ a
quotient {m} a b n e small =
    ap (λ (t : ℕ). t / m) e
    ∙ omega (arith, add-mul-div_right b a {z = m} (omega arith), div-eq_of_lt small)

pub remainder : {m : ℕ} (a b n : ℕ) → n ≡ b + a * m → b < m → n % m ≡ b
remainder {m} a b n e small =
    ap (λ (t : ℕ). t % m) e ∙ add-mul-mod_self_right b a m ∙ mod-eq_of_lt small

pub power_sum : (m n : ℕ) → 2 ^ (m + n) ≡ 2 ^ m * 2 ^ n
power_sum zero n = let e : 0 + n ≡ n = omega arith in ap (λ (t : ℕ). 2 ^ t) e ∙ omega arith
power_sum (suc m) n =
    let e : suc m + n ≡ suc (m + n) = omega arith in
    ap (λ (t : ℕ). 2 ^ t) e
    ∙ omega (arith, pow-suc 2 (m + n), power_sum m n, ap (λ (t : ℕ). t * 2 ^ n) (pow-suc 2 m))

-- A word of two parts, with `q` values for the lower and `p` for the upper one.
module _ (p q m x : ℕ) (whole : p * q ≡ m) (x_small : x < m) where
  positive : (0 < p) × (0 < q)
  positive = grind arith

  parts : x / q * q + x % q ≡ x
  parts = div-add-mod' x q

  pub lower_small : x % q * p + p ≤ m
  lower_small = omega (arith, whole, mul-le-mul_right p (mod-lt x positive.1))

  pub upper_small : x / q < p
  upper_small = grind (arith, parts)

  -- Of a word that is multiplied by `p`, the upper part is left out.
  pub multiply_parts : x * p ≡ x % q * p + x / q * m
  multiply_parts = omega (arith, ap (λ (t : ℕ). t * p) (sym parts), ap (λ (t : ℕ). x / q * t) whole)

  pub multiply_remainder : x * p % m ≡ x % q * p
  multiply_remainder =
      remainder (x / q) (x % q * p) (x * p) multiply_parts (omega (arith, lower_small, positive.0))
