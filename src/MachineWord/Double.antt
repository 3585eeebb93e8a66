-- ===== src/MachineWord/Double.antt =====
-- Division of double words, as the build for x86-64 has it (NO_LONGLONG): divide_double,
-- unsigned_divide_double, and the adjustments that follow.
use opendylan.Prelude.{
  ℕ, ◌+◌, ◌-◌, ◌*◌, ◌/◌, ◌%◌, ◌≤◌, ◌<◌, ◌≡◌, refl, Bool, false, ◌&&◌, Option, none, some, arith,
  ltb, ◌==◌, if◌then◌else◌,
}
use opendylan.Prelude.Int.{ℤ, pos, negsuc, pos_part, neg_part, sub_ℕ}
use opendylan.MachineWord.{
  ldiv, floor_step, ceiling_step, round_step, floor, ceiling, round, labs, is_word, is_negative,
  words, adjust,
}

-- LOHALF of a word.
abbrev pub low_half : ℤ → ℕ
low_half (pos n) = n % 4294967296
low_half (negsuc n) = 4294967295 - n % 4294967296

-- The 64 bits `n` as a signed word.
abbrev pub as_signed : ℕ → ℤ
as_signed n = if ltb n 9223372036854775808 then pos n else negsuc (18446744073709551615 - n)

abbrev pub negated : ℤ → ℤ
negated x = sub_ℕ (neg_part x) (pos_part x)

abbrev negate_if : Bool → Option (ℤ × ℤ) → Option (ℤ × ℤ)
negate_if flag none = none
negate_if flag (some (q, r)) = if flag then words (negated q, negated r) else some (q, r)

-- divide_double; the shift wraps, as the compiler's does.
unfoldable pub divide_double : (xl xh y : ℤ) → Option (ℤ × ℤ)
unfolding ldiv
divide_double xl xh y =
    let dividend = as_signed (low_half xh * 4294967296 + low_half xl) in
    negate_if (is_negative xh && ltb 0 (pos_part xl)) (ldiv dividend y)

-- unsigned_divide_double, of unsigned words.
unfoldable pub unsigned_divide_double : (xl xh y : ℕ) → Option (ℕ × ℕ)
unsigned_divide_double xl xh y =
    let dividend = xh % 4294967296 * 4294967296 + xl % 4294967296 in
    if y == 0 then none else some (dividend / y, dividend % y)

-- The primitives for both results of it, or for one of the two.
unfoldable pub unsigned_double_divide : (xl xh y : ℕ) → Option (ℕ × ℕ)
unfolding unsigned_divide_double
unsigned_double_divide xl xh y = unsigned_divide_double xl xh y

-- primitive_machine_word_unsigned_divide, of the bits `x`: the high word is -1 where the signed
-- word is negative.
unfoldable pub unsigned_divide : (x y : ℕ) → Option (ℕ × ℕ)
unfolding unsigned_divide_double
unsigned_divide x y =
    unsigned_divide_double x (if ltb x 9223372036854775808 then 0 else 18446744073709551615) y

unfoldable pub double_floor : (xl xh y : ℤ) → Option (ℤ × ℤ)
unfolding divide_double floor_step
double_floor xl xh y = adjust floor_step y (divide_double xl xh y)

unfoldable pub double_ceiling : (xl xh y : ℤ) → Option (ℤ × ℤ)
unfolding divide_double ceiling_step
double_ceiling xl xh y = adjust ceiling_step y (divide_double xl xh y)

unfoldable pub double_round : (xl xh y : ℤ) → Option (ℤ × ℤ)
unfolding divide_double round_step
double_round xl xh y =
    if is_word (pos (labs y)) then adjust round_step y (divide_double xl xh y) else none

-- The high word of the double word for a word.
abbrev pub sign_word : ℤ → ℤ
sign_word x = if is_negative x then negsuc 0 else pos 0

-- `x` has at most 33 bits with its sign.
abbrev pub IsHalf : ℤ → Type 0
IsHalf x = (pos_part x < 4294967296) × (neg_part x ≤ 4294967296)

as_signed-half :
    (x : ℤ) → IsHalf x → as_signed (low_half (sign_word x) * 4294967296 + low_half x) ≡ x
as_signed-half (pos n) h = ground arith
as_signed-half (negsuc n) h = ground arith

sign-plain : (x : ℤ) → (is_negative (sign_word x) && ltb 0 (pos_part x)) ≡ false
sign-plain (pos n) = refl
sign-plain (negsuc n) = ground arith

negate_if-false : (o : Option (ℤ × ℤ)) → negate_if false o ≡ o
negate_if-false none = refl
negate_if-false (some (q, r)) = refl

divide_double-ldiv : (x y : ℤ) → IsHalf x → divide_double x (sign_word x) y ≡ ldiv x y
unfolding divide_double
divide_double-ldiv x y h =
    rw (divide_double, as_signed-half x h, sign-plain x) (negate_if-false (ldiv x y))

-- Where the dividend lies between -2 ^ 32 and 2 ^ 32 - 1, with its sign for the high word, floor,
-- ceiling and round of double words agree with those of words.
pub double-words :
    (x y : ℤ)
    → IsHalf x
    → (double_floor x (sign_word x) y ≡ floor x y)
      × (double_ceiling x (sign_word x) y ≡ ceiling x y)
      × (double_round x (sign_word x) y ≡ round x y)
unfolding double_floor double_ceiling double_round floor ceiling round
double-words x y h = rw (divide_double-ldiv x y h) (refl, refl, refl)

-- For dividends that are not negative only the low halves of the two words count.
pub divide_double-low_half :
    (xl xh xl' xh' : ℕ) (y : ℤ)
    → xl % 4294967296 ≡ xl' % 4294967296
    → xh % 4294967296 ≡ xh' % 4294967296
    → (divide_double (pos xl) (pos xh) y ≡ divide_double (pos xl') (pos xh') y)
      × ((z : ℕ) → unsigned_divide_double xl xh z ≡ unsigned_divide_double xl' xh' z)
unfolding divide_double unsigned_divide_double
divide_double-low_half xl xh xl' xh' y el eh =
    rw (divide_double, unsigned_divide_double, el, eh) (refl, λ z. refl)
