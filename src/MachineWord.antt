-- ===== src/MachineWord.antt =====
-- Division of machine words: sources/lib/run-time/c-primitives-math.c in a build whose `DMINT` has
-- 64 bits. Signed words are integers; where C leaves an operation undefined, the result is none.
pub mod Divide
pub mod Floor
pub mod Round
pub mod Double
pub mod Carry
pub mod Overflow
pub mod Shifts
pub mod ByRef
use opendylan.Prelude.{
  ℕ, ◌+◌, ◌/◌, ◌%◌, ◌≤◌, ◌<◌, Bool, not, ◌&&◌, ◌||◌, Option, none, some, ltb, leb, ◌==◌,
  if◌then◌else◌,
}
use opendylan.Prelude.Int.{ℤ, pos, negsuc, pos_part, neg_part, sub_ℕ, ◌+ℤ◌, ◌-ℤ◌, ltb_ℤ}

-- 2 ^ 63
abbrev pub min_magnitude : ℕ
min_magnitude = 9223372036854775808

abbrev pub InWord : ℤ → Type 0
InWord x = (pos_part x < min_magnitude) × (neg_part x ≤ min_magnitude)

abbrev pub is_negative : ℤ → Bool
is_negative x = ltb 0 (neg_part x)

abbrev pub is_zero : ℤ → Bool
is_zero x = pos_part x + neg_part x == 0

abbrev pub is_odd : ℤ → Bool
is_odd x = (pos_part x + neg_part x) % 2 == 1

infix 50 ◌==ℤ◌
abbrev pub ◌==ℤ◌ : ℤ → ℤ → Bool
a ==ℤ b = pos_part a + neg_part b == pos_part b + neg_part a

-- `labs`
abbrev pub labs : ℤ → ℕ
labs x = pos_part x + neg_part x

abbrev pub signed : (negative : Bool) → ℕ → ℤ
signed negative n = if negative then sub_ℕ 0 n else pos n

-- `ldiv`: the quotient is truncated, and the remainder has the sign of `x`. It is undefined for
-- `y` = 0 and for a quotient that is not a word.
abbrev pub quot : ℤ → ℤ → ℤ
quot x y = signed (if is_negative x then not (is_negative y) else is_negative y) (labs x / labs y)

abbrev pub rem : ℤ → ℤ → ℤ
rem x y = signed (is_negative x) (labs x % labs y)

unfoldable pub ldiv : ℤ → ℤ → Option (ℤ × ℤ)
ldiv x y =
    if is_zero y || (neg_part y == 1 && neg_part x == min_magnitude)
    then none
    else some (quot x y, rem x y)

-- The adjustments that follow the division.
unfoldable pub floor_step : ℤ → ℤ × ℤ → ℤ × ℤ
floor_step y (q, r) =
    if not (is_zero r) && (if is_negative y then ltb_ℤ (pos 0) r else is_negative r)
    then (q -ℤ pos 1, r +ℤ y)
    else (q, r)

unfoldable pub ceiling_step : ℤ → ℤ × ℤ → ℤ × ℤ
ceiling_step y (q, r) =
    if not (is_zero r) && (if is_negative y then is_negative r else ltb_ℤ (pos 0) r)
    then (q +ℤ pos 1, r -ℤ y)
    else (q, r)

unfoldable pub round_step : ℤ → ℤ × ℤ → ℤ × ℤ
round_step y (q, r) =
    let threshold = labs y / 2 in
    if ltb_ℤ (pos threshold) r || (r ==ℤ pos threshold && is_odd q)
    then (if is_negative y then (q -ℤ pos 1, r +ℤ y) else (q +ℤ pos 1, r -ℤ y))
    else if ltb_ℤ r (sub_ℕ 0 threshold) || (r ==ℤ sub_ℕ 0 threshold && is_odd q)
    then (if is_negative y then (q +ℤ pos 1, r -ℤ y) else (q -ℤ pos 1, r +ℤ y))
    else (q, r)

-- Signed arithmetic that leaves the words is undefined.
abbrev pub is_word : ℤ → Bool
is_word x = ltb (pos_part x) min_magnitude && leb (neg_part x) min_magnitude

abbrev pub words : ℤ × ℤ → Option (ℤ × ℤ)
words (q, r) = if is_word q && is_word r then some (q, r) else none

abbrev pub adjust : (ℤ → ℤ × ℤ → ℤ × ℤ) → ℤ → Option (ℤ × ℤ) → Option (ℤ × ℤ)
adjust step y none = none
adjust step y (some z) = words (step y z)

-- The primitives for both results; those for the quotient or the remainder give one of the two.
unfoldable pub truncate : ℤ → ℤ → Option (ℤ × ℤ)
unfolding ldiv
truncate x y = ldiv x y

unfoldable pub floor : ℤ → ℤ → Option (ℤ × ℤ)
unfolding ldiv floor_step
floor x y = adjust floor_step y (ldiv x y)

unfoldable pub ceiling : ℤ → ℤ → Option (ℤ × ℤ)
unfolding ldiv ceiling_step
ceiling x y = adjust ceiling_step y (ldiv x y)

-- `labs` of the least word is undefined.
unfoldable pub round : ℤ → ℤ → Option (ℤ × ℤ)
unfolding ldiv round_step
round x y = if is_word (pos (labs y)) then adjust round_step y (ldiv x y) else none
