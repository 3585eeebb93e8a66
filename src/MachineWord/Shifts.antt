-- ===== src/MachineWord/Shifts.antt =====
-- Rotations and shifts of double words: primitive_machine_word_unsigned_rotate_left and its kin, of
-- sources/lib/run-time/c-primitives-math.c. C leaves a shift by 64 or more undefined.
pub mod Digits
pub mod Whole
use opendylan.Prelude.{
  ℕ, ◌-◌, ◌*◌, ◌/◌, ◌%◌, ◌^◌, Option, none, some, ltb, if◌then◌else◌, bit_or, ◌>>=◌,
}
use opendylan.MachineWord.Carry.{modulus}

-- `x << y` and `x >> y`, of an unsigned word.
abbrev pub shift_left : (x y : ℕ) → Option ℕ
shift_left x y = if ltb y 64 then some (x * 2 ^ y % modulus) else none

abbrev pub shift_right : (x y : ℕ) → Option ℕ
shift_right x y = if ltb y 64 then some (x / 2 ^ y) else none

unfoldable pub unsigned_rotate_left : (x y : ℕ) → Option ℕ
unsigned_rotate_left x y = do
  low ← shift_right x (64 - y)
  high ← shift_left x y
  some (bit_or low high)

unfoldable pub unsigned_rotate_right : (x y : ℕ) → Option ℕ
unsigned_rotate_right x y = do
  high ← shift_left x (64 - y)
  low ← shift_right x y
  some (bit_or low high)

-- The high word is the second value.
unfoldable pub unsigned_double_shift_left : (xl xh y : ℕ) → Option (ℕ × ℕ)
unsigned_double_shift_left xl xh y = do
  lowpart ← shift_right xl (64 - y)
  highpart ← shift_left xh y
  low ← shift_left xl y
  some (low, bit_or lowpart highpart)

unfoldable pub unsigned_double_shift_right : (xl xh y : ℕ) → Option (ℕ × ℕ)
unsigned_double_shift_right xl xh y = do
  lowpart ← shift_right xl y
  highpart ← shift_left xh (64 - y)
  high ← shift_right xh y
  some (bit_or lowpart highpart, high)
