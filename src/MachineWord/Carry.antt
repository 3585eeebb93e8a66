-- ===== src/MachineWord/Carry.antt =====
-- Addition, subtraction and multiplication with overflow, carry and high word.
use opendylan.Prelude.{
  ℕ, ◌+◌, ◌-◌, ◌*◌, ◌/◌, ◌%◌, ◌≤◌, ◌<◌, ◌≡◌, Bool, false, not, ◌&&◌, arith, ltb, ◌==◌,
  if◌then◌else◌,
}
use native.Mathlib.Nat.{mul-le-mul}
use opendylan.Prelude.Int.{ℤ, pos, negsuc, ◌+ℤ◌, ◌-ℤ◌}
use opendylan.MachineWord.{InWord, is_word, is_negative}
use opendylan.MachineWord.Double.{as_signed}

-- 2 ^ 64
abbrev pub modulus : ℕ
modulus = 18446744073709551616

-- A signed word as an unsigned one.
abbrev pub as_unsigned : ℤ → ℕ
as_unsigned (pos n) = n % modulus
as_unsigned (negsuc n) = modulus - 1 - n % modulus

-- Whether `x ^ y` is negative.
abbrev pub signs_differ : ℤ → ℤ → Bool
signs_differ x y = if is_negative x then not (is_negative y) else is_negative y

unfoldable pub add_with_overflow : ℤ → ℤ → ℤ × Bool
add_with_overflow x y =
    let r = as_signed ((as_unsigned x + as_unsigned y) % modulus) in
    (r, not (signs_differ x y) && signs_differ r x)

unfoldable pub subtract_with_overflow : ℤ → ℤ → ℤ × Bool
subtract_with_overflow x y =
    let r = as_signed ((as_unsigned x + modulus - as_unsigned y) % modulus) in
    (r, signs_differ x y && signs_differ r x)

unfoldable pub unsigned_add_with_carry : ℕ → ℕ → ℕ × ℕ
unsigned_add_with_carry ux uy =
    let bbc = if ux % 2 == 1 && uy % 2 == 1 then 1 else 0 in
    let half = (ux / 2 + uy / 2 + bbc) % modulus in
    ((ux + uy) % modulus, if is_negative (as_signed half) then 1 else 0)

unfoldable pub unsigned_subtract_with_borrow : ℕ → ℕ → ℕ × ℕ
unsigned_subtract_with_borrow ux uy = ((ux + modulus - uy) % modulus, if ltb ux uy then 1 else 0)

-- multiply_double, of unsigned words: the low and the high word.
unfoldable pub multiply_double : ℕ → ℕ → ℕ × ℕ
multiply_double x y =
    let xl = x % 4294967296 in
    let xh = x / 4294967296 in
    let yl = y % 4294967296 in
    let yh = y / 4294967296 in
    let zll = xl * yl in
    let zlh = xl * yh in
    let zhl = xh * yl in
    let zhh = xh * yh in
    (
      (zll + (zlh % 4294967296 + zhl % 4294967296) * 4294967296) % modulus,
      (zhh + zlh / 4294967296 + zhl / 4294967296) % modulus,
    )

-- The flag of add_with_overflow is set exactly when the sum of two words is not a word, and without
-- the flag the result is the sum.
pub add_with_overflow-InWord :
    (x y : ℤ)
    → InWord x
    → InWord y
    → ((add_with_overflow x y).1 ≡ not (is_word (x +ℤ y)))
      × ((add_with_overflow x y).1 ≡ false → (add_with_overflow x y).0 ≡ x +ℤ y)
unfolding add_with_overflow ◌+ℤ◌
add_with_overflow-InWord (pos x) (pos y) wx wy = (ground arith, λ h. ground arith)
add_with_overflow-InWord (pos x) (negsuc y) wx wy = (ground arith, λ h. ground arith)
add_with_overflow-InWord (negsuc x) (pos y) wx wy = (ground arith, λ h. ground arith)
add_with_overflow-InWord (negsuc x) (negsuc y) wx wy = (ground arith, λ h. ground arith)

-- The flag of subtract_with_overflow is set exactly when the difference of two words is not a word,
-- and without the flag the result is the difference.
pub subtract_with_overflow-InWord :
    (x y : ℤ)
    → InWord x
    → InWord y
    → ((subtract_with_overflow x y).1 ≡ not (is_word (x -ℤ y)))
      × ((subtract_with_overflow x y).1 ≡ false → (subtract_with_overflow x y).0 ≡ x -ℤ y)
unfolding subtract_with_overflow ◌-ℤ◌
subtract_with_overflow-InWord (pos x) (pos y) wx wy = (ground arith, λ h. ground arith)
subtract_with_overflow-InWord (pos x) (negsuc y) wx wy = (ground arith, λ h. ground arith)
subtract_with_overflow-InWord (negsuc x) (pos y) wx wy = (ground arith, λ h. ground arith)
subtract_with_overflow-InWord (negsuc x) (negsuc y) wx wy = (ground arith, λ h. ground arith)

-- The flags of add_with_overflow and subtract_with_overflow are set exactly when the sum and the
-- difference of two words are not words, and without its flag each result is exact.
pub add_subtract_with_overflow-InWord :
    (x y : ℤ)
    → InWord x
    → InWord y
    → (((add_with_overflow x y).1 ≡ not (is_word (x +ℤ y)))
        × ((add_with_overflow x y).1 ≡ false → (add_with_overflow x y).0 ≡ x +ℤ y))
      × (((subtract_with_overflow x y).1 ≡ not (is_word (x -ℤ y)))
          × ((subtract_with_overflow x y).1 ≡ false → (subtract_with_overflow x y).0 ≡ x -ℤ y))
add_subtract_with_overflow-InWord x y wx wy =
    (add_with_overflow-InWord x y wx wy, subtract_with_overflow-InWord x y wx wy)

-- For unsigned words, unsigned_add_with_carry's two results make the whole sum, and the difference
-- and borrow of unsigned_subtract_with_borrow, with the subtrahend, give the minuend back.
pub unsigned_add_with_carry-sum :
    (x y : ℕ)
    → x < modulus
    → y < modulus
    → (let (sum, carry) = unsigned_add_with_carry x y in sum + modulus * carry ≡ x + y)
      × (let (difference, borrow) = unsigned_subtract_with_borrow x y in
          difference + y ≡ x + modulus * borrow)
unfolding unsigned_add_with_carry unsigned_subtract_with_borrow
unsigned_add_with_carry-sum x y wx wy = (ground arith, ground arith)

mul_bound : (p q : ℕ) → p < 4294967296 → q < 4294967296 → p * q ≤ 4294967295 * 4294967295
mul_bound p q hp hq =
    mul-le-mul {n₁ = p} {m₁ = q} {n₂ = 4294967295} {m₂ = 4294967295} (omega arith) (omega arith)

expand :
    (xh xl yh yl : ℕ)
    → (xh * 4294967296 + xl) * (yh * 4294967296 + yl)
      ≡ xh * yh * modulus + (xl * yh + xh * yl) * 4294967296 + xl * yl
expand xh xl yh yl = grind arith

-- For unsigned words the low word of multiply_double and its high word make the product, once the
-- carry of the low word's sum, which the code drops, is added to the high word.
pub multiply_double-product :
    (x y : ℕ)
    → x < modulus
    → y < modulus
    → let (low, high) = multiply_double x y in
      let xl = x % 4294967296 in
      let xh = x / 4294967296 in
      let yl = y % 4294967296 in
      let yh = y / 4294967296 in
      let carry =
        (xl * yl + (xl * yh % 4294967296 + xh * yl % 4294967296) * 4294967296) / modulus in
      low + (high + carry) * modulus ≡ x * y
unfolding multiply_double
multiply_double-product x y wx wy =
    let xl = x % 4294967296 in
    let xh = x / 4294967296 in
    let yl = y % 4294967296 in
    let yh = y / 4294967296 in
    let ex : x ≡ xh * 4294967296 + xl = omega arith in
    let ey : y ≡ yh * 4294967296 + yl = omega arith in
    let product : x * y ≡ (xh * 4294967296 + xl) * (yh * 4294967296 + yl) = cc in
    omega (
      arith,
      product,
      expand xh xl yh yl,
      mul_bound xh yh (omega arith) (omega arith),
      mul_bound xl yh (omega arith) (omega arith),
      mul_bound xh yl (omega arith) (omega arith),
    )
