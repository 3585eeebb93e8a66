-- ===== src/Tests/WordTests.antt =====
-- Tests of the machine-word primitives, and the theorems applied.
use opendylan.Prelude.{◌+◌, ◌*◌, ◌/◌, ◌%◌, ◌^◌, ◌≡◌, refl, not, false, none, some, arith}
use opendylan.MachineWord.Shifts.{
  unsigned_rotate_left, unsigned_double_shift_left, unsigned_double_shift_right,
}
use opendylan.MachineWord.Shifts.Whole.{IsWide, unsigned_double_shift-IsWide}
use opendylan.Prelude.Int.{ℤ, pos, negsuc, ◌+ℤ◌, ◌-ℤ◌}
use opendylan.MachineWord.{truncate, floor, ceiling, round, is_word}
use opendylan.MachineWord.Divide.{IsQuotient}
use opendylan.MachineWord.Floor.{floor-ceiling-truncate-IsQuotient}
use opendylan.MachineWord.Round.{IsNearest, round-IsNearest}
use opendylan.MachineWord.Carry.{
  add_with_overflow, subtract_with_overflow, add_subtract_with_overflow-InWord, multiply_double,
  multiply_double-product, modulus,
}

-- -7 by 2.
floors : floor (negsuc 6) (pos 2) ≡ some (negsuc 3, pos 1)
unfolding floor ◌+ℤ◌ ◌-ℤ◌
floors = refl

ceilings : ceiling (negsuc 6) (pos 2) ≡ some (negsuc 2, negsuc 0)
unfolding ceiling ◌+ℤ◌ ◌-ℤ◌
ceilings = refl

rounds : round (negsuc 6) (pos 2) ≡ some (negsuc 3, pos 1)
unfolding round ◌+ℤ◌ ◌-ℤ◌
rounds = refl

-- 3 by 1: the remainder 0 is taken for a tie.
rounds_by_one : round (pos 3) (pos 1) ≡ some (pos 4, negsuc 0)
unfolding round ◌+ℤ◌ ◌-ℤ◌
rounds_by_one = refl

undefined : floor (pos 1) (pos 0) ≡ none
unfolding floor ◌+ℤ◌ ◌-ℤ◌
undefined = refl

round-IsNearest_example :
    (q : ℤ) × (r : ℤ) × (round (negsuc 6) (pos 2) ≡ some (q, r)) × IsNearest (negsuc 6) (pos 2) q r
round-IsNearest_example =
    round-IsNearest (negsuc 6) (pos 2) (omega arith) (omega arith) (omega arith) (omega arith)
      (λ h. absurd (omega arith))

multiply_double-product_example :
    (multiply_double 4294967297 4294967298).0
      + ((multiply_double 4294967297 4294967298).1 + 0) * modulus
    ≡ 4294967297 * 4294967298
multiply_double-product_example =
    multiply_double-product 4294967297 4294967298 (omega arith) (omega arith)

floor-ceiling-truncate-IsQuotient_example :
    ((q : ℤ) × (r : ℤ) × (floor (negsuc 6) (pos 2) ≡ some (q, r))
      × IsQuotient (pos 2) (negsuc 6) (pos 2) q r)
    × ((q : ℤ) × (r : ℤ) × (ceiling (negsuc 6) (pos 2) ≡ some (q, r))
        × IsQuotient (pos 0 -ℤ pos 2) (negsuc 6) (pos 2) q r)
    × ((q : ℤ) × (r : ℤ) × (truncate (negsuc 6) (pos 2) ≡ some (q, r))
        × IsQuotient (negsuc 6) (negsuc 6) (pos 2) q r)
floor-ceiling-truncate-IsQuotient_example =
    floor-ceiling-truncate-IsQuotient (negsuc 6) (pos 2) (omega arith) (omega arith) (omega arith)

add_subtract_with_overflow-InWord_example :
    (((add_with_overflow (pos 5) (negsuc 6)).1 ≡ not (is_word (pos 5 +ℤ negsuc 6)))
      × ((add_with_overflow (pos 5) (negsuc 6)).1 ≡ false
          → (add_with_overflow (pos 5) (negsuc 6)).0 ≡ pos 5 +ℤ negsuc 6))
    × (((subtract_with_overflow (pos 5) (negsuc 6)).1 ≡ not (is_word (pos 5 -ℤ negsuc 6)))
        × ((subtract_with_overflow (pos 5) (negsuc 6)).1 ≡ false
            → (subtract_with_overflow (pos 5) (negsuc 6)).0 ≡ pos 5 -ℤ negsuc 6))
add_subtract_with_overflow-InWord_example =
    add_subtract_with_overflow-InWord (pos 5) (negsuc 6) (omega arith) (omega arith)

-- A rotation by 4 digits, and none by 0, where the other part of the word is shifted by 64.
rotates : unsigned_rotate_left 0xF000000000000001 4 ≡ some 0x1F
unfolding unsigned_rotate_left
rotates = refl

rotates_by_0 : unsigned_rotate_left 1 0 ≡ none
unfolding unsigned_rotate_left
rotates_by_0 = refl

unsigned_double_shift-IsWide_example :
    IsWide
      (unsigned_double_shift_left 0xF000000000000001 2 4)
      ((0xF000000000000001 + 2 * modulus) * 2 ^ 4 % (modulus * modulus))
    × IsWide
        (unsigned_double_shift_right 0xF000000000000001 2 4)
        ((0xF000000000000001 + 2 * modulus) / 2 ^ 4)
unsigned_double_shift-IsWide_example =
    unsigned_double_shift-IsWide 0xF000000000000001 2 4 (omega arith) (omega arith) (omega arith)
      (omega arith)
