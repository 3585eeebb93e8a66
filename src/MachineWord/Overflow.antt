-- ===== src/MachineWord/Overflow.antt =====
-- The primitives with an overflow flag for negation, absolute value and multiplication, and the
-- multiplications that give one or both words of the product.
use opendylan.Prelude.{
  ℕ, suc, ◌*◌, ◌≤◌, ◌<◌, ◌≡◌, ◌≢◌, Bool, true, false, not, ◌&&◌, ◌||◌, Option, none, some, arith,
  ltb, ◌==◌, if◌then◌else◌,
}
use opendylan.Prelude.Int.{ℤ, pos, negsuc, pos_part, neg_part, ◌*ℤ◌}
use opendylan.MachineWord.{InWord, is_word, is_negative, labs, min_magnitude}
use opendylan.MachineWord.Carry.{signs_differ, as_unsigned, multiply_double}
use opendylan.MachineWord.Double.{negated, as_signed}

-- primitive_machine_word_negative_with_overflow; `-x` is undefined for the least word.
unfoldable pub negative_with_overflow : ℤ → Option (ℤ × Bool)
negative_with_overflow x =
    let r = negated x in if is_word r then some (r, is_negative x && (pos_part r == 0)) else none

-- primitive_machine_word_abs_with_overflow; so is `labs`.
unfoldable pub abs_with_overflow : ℤ → Option (ℤ × Bool)
abs_with_overflow x =
    let r = pos (labs x) in if is_word r then some (r, is_negative x && (pos_part r == 0)) else none

-- primitive_machine_word_multiply_low_with_overflow; undefined where the product, or a magnitude
-- that `labs` is asked for, is not a word.
unfoldable pub multiply_low_with_overflow : ℤ → ℤ → Option (ℤ × Bool)
multiply_low_with_overflow x y =
    let r = x *ℤ y in
    let wrong_sign = if signs_differ x y then not (is_negative r) else is_negative r in
    if is_word r && is_word (pos (labs r)) && is_word (pos (labs x)) && is_word (pos (labs y))
    then some (r, wrong_sign || ltb (labs r) (labs x) || ltb (labs r) (labs y))
    else none

-- primitive_machine_word_multiply_with_overflow: the low word, the high word and the flag.
unfoldable pub multiply_with_overflow : ℤ → ℤ → ℕ × ℕ × Bool
unfolding multiply_double
multiply_with_overflow x y =
    let (rl, rh) = multiply_double (as_unsigned x) (as_unsigned y) in
    (
      rl,
      rh,
      (if signs_differ x y then not (is_negative (as_signed rh)) else is_negative (as_signed rh)),
    )

-- primitive_machine_word_multiply_high and primitive_machine_word_unsigned_multiply_high
unfoldable pub multiply_high : ℤ → ℤ → ℤ
unfolding multiply_double
multiply_high x y = as_signed (multiply_double (as_unsigned x) (as_unsigned y)).1

-- For words but the least, negation and absolute value are exact and the flag is false.
pub negative_with_overflow_lem :
    (x : ℤ)
    → InWord x
    → neg_part x ≢ min_magnitude
    → (negative_with_overflow x ≡ some (negated x, false))
      × (abs_with_overflow x ≡ some (pos (labs x), false))
unfolding negative_with_overflow abs_with_overflow
negative_with_overflow_lem x wx least = (ground arith, ground arith)

-- With a factor 0 multiply_low_with_overflow gives 0 and sets its flag, unless the other factor is
-- 0 too or the least word.
pub multiply_low_with_overflow-zero :
    (x : ℤ)
    → labs x < min_magnitude
    → labs x ≢ 0
    → multiply_low_with_overflow x (pos 0) ≡ some (pos 0, true)
unfolding multiply_low_with_overflow ◌*ℤ◌
multiply_low_with_overflow-zero x small real = ground arith

le-mul : (a b : ℕ) → 0 < b → a ≤ a * b
le-mul a b h = grind arith

-- For factors other than 0 whose product is a word other than the least, it gives the product and
-- leaves the flag false.
pub multiply_low_with_overflow-InWord :
    (x y : ℤ)
    → labs x ≢ 0
    → labs y ≢ 0
    → labs (x *ℤ y) < min_magnitude
    → multiply_low_with_overflow x y ≡ some (x *ℤ y, false)
unfolding multiply_low_with_overflow ◌*ℤ◌
multiply_low_with_overflow-InWord (pos a) (pos b) nx ny small =
    ground (arith, le-mul a b (omega (arith, ny)), le-mul b a (omega (arith, nx)))
multiply_low_with_overflow-InWord (pos a) (negsuc b) nx ny small =
    ground (arith, le-mul a (suc b) (omega arith), le-mul (suc b) a (omega (arith, nx)))
multiply_low_with_overflow-InWord (negsuc a) (pos b) nx ny small =
    ground (arith, le-mul (suc a) b (omega (arith, ny)), le-mul b (suc a) (omega arith))
multiply_low_with_overflow-InWord (negsuc a) (negsuc b) nx ny small =
    ground (arith, le-mul (suc a) (suc b) (omega arith), le-mul (suc b) (suc a) (omega arith))
