-- ===== src/MachineWord/ByRef.antt =====
-- The primitives that return the first value and store the second at an address (_byref), and the
-- divisions of double words that take no adjustment.
use opendylan.Prelude.{ℕ, ◌≡◌, refl, Option, none, some, if◌then◌else◌}
use opendylan.Prelude.Int.{ℤ, pos, ◌-ℤ◌}
use opendylan.Prelude.Store.{Ptr, update}
use opendylan.MachineWord.{
  InWord, ldiv, floor_step, ceiling_step, round_step, adjust, is_word, labs, floor, ceiling,
}
use opendylan.MachineWord.Divide.{IsQuotient, IsDefined}
use opendylan.MachineWord.Floor.{floor-IsQuotient, ceiling-IsQuotient}
use opendylan.MachineWord.Carry.{unsigned_add_with_carry, unsigned_subtract_with_borrow}
use opendylan.MachineWord.Double.{divide_double}

abbrev pub Memory : Type 0
Memory = Ptr → ℤ

-- MV2_byref_: `*v = y`, and `x` is returned.
unfoldable pub mv2_byref : (x : ℤ) (v : Ptr) (y : ℤ) → Memory → ℤ × Memory
mv2_byref x v y memory = (x, update memory v y)

-- MV3_byref_
unfoldable pub mv3_byref : (x : ℤ) (v1 : Ptr) (y : ℤ) (v2 : Ptr) (z : ℤ) → Memory → ℤ × Memory
mv3_byref x v1 y v2 z memory = (x, update (update memory v1 y) v2 z)

-- The end of each primitive.
abbrev pub byref : Option (ℤ × ℤ) → Ptr → Memory → Option (ℤ × Memory)
unfolding mv2_byref
byref none v2 memory = none
byref (some (q, r)) v2 memory = some (mv2_byref q v2 r memory)

unfoldable pub truncate_byref : (x y : ℤ) → Ptr → Memory → Option (ℤ × Memory)
unfolding ldiv byref
truncate_byref x y v2 memory = byref (ldiv x y) v2 memory

unfoldable pub floor_byref : (x y : ℤ) → Ptr → Memory → Option (ℤ × Memory)
unfolding ldiv floor_step byref
floor_byref x y v2 memory = byref (adjust floor_step y (ldiv x y)) v2 memory

unfoldable pub ceiling_byref : (x y : ℤ) → Ptr → Memory → Option (ℤ × Memory)
unfolding ldiv ceiling_step byref
ceiling_byref x y v2 memory = byref (adjust ceiling_step y (ldiv x y)) v2 memory

unfoldable pub round_byref : (x y : ℤ) → Ptr → Memory → Option (ℤ × Memory)
unfolding ldiv round_step byref
round_byref x y v2 memory =
    if is_word (pos (labs y)) then byref (adjust round_step y (ldiv x y)) v2 memory else none

unfoldable pub double_truncate : (xl xh y : ℤ) → Option (ℤ × ℤ)
unfolding divide_double
double_truncate xl xh y = divide_double xl xh y

unfoldable pub double_divide_byref : (xl xh y : ℤ) → Ptr → Memory → Option (ℤ × Memory)
unfolding divide_double byref
double_divide_byref xl xh y v2 memory = byref (divide_double xl xh y) v2 memory

unfoldable pub double_floor_byref : (xl xh y : ℤ) → Ptr → Memory → Option (ℤ × Memory)
unfolding divide_double floor_step byref
double_floor_byref xl xh y v2 memory = byref (adjust floor_step y (divide_double xl xh y)) v2 memory

unfoldable pub double_ceiling_byref : (xl xh y : ℤ) → Ptr → Memory → Option (ℤ × Memory)
unfolding divide_double ceiling_step byref
double_ceiling_byref xl xh y v2 memory =
    byref (adjust ceiling_step y (divide_double xl xh y)) v2 memory

unfoldable pub double_round_byref : (xl xh y : ℤ) → Ptr → Memory → Option (ℤ × Memory)
unfolding divide_double round_step byref
double_round_byref xl xh y v2 memory =
    if is_word (pos (labs y))
    then byref (adjust round_step y (divide_double xl xh y)) v2 memory
    else none

-- For words whose quotient is defined floor_byref and ceiling_byref return the quotients that floor
-- and ceiling promise, with the remainder stored at `v2` and the rest of the memory as it was.
pub floor_byref-IsQuotient :
    (x y : ℤ)
    → InWord x
    → InWord y
    → IsDefined x y
    → (v2 : Ptr) (memory : Memory)
    → ((q : ℤ) × (r : ℤ) × (floor_byref x y v2 memory ≡ some (q, update memory v2 r))
        × IsQuotient y x y q r)
      × ((q : ℤ) × (r : ℤ) × (ceiling_byref x y v2 memory ≡ some (q, update memory v2 r))
          × IsQuotient (pos 0 -ℤ y) x y q r)
unfolding floor_byref ceiling_byref floor ceiling byref mv2_byref
floor_byref-IsQuotient x y wx wy d v2 memory =
    let (q, r, run, is) = floor-IsQuotient x y wx wy d in
    let (q', r', run', is') = ceiling-IsQuotient x y wx wy d in
    ((q, r, rw run refl, is), (q', r', rw run' refl, is'))

-- primitive_machine_word_unsigned_add_with_carry_byref and
-- primitive_machine_word_unsigned_subtract_with_borrow_byref
unfoldable pub unsigned_add_with_carry_byref : (x y : ℕ) → Ptr → Memory → ℤ × Memory
unfolding unsigned_add_with_carry mv2_byref
unsigned_add_with_carry_byref x y v2 memory =
    let (sum, carry) = unsigned_add_with_carry x y in mv2_byref (pos sum) v2 (pos carry) memory

unfoldable pub unsigned_subtract_with_borrow_byref : (x y : ℕ) → Ptr → Memory → ℤ × Memory
unfolding unsigned_subtract_with_borrow mv2_byref
unsigned_subtract_with_borrow_byref x y v2 memory =
    let (difference, borrow) = unsigned_subtract_with_borrow x y in
    mv2_byref (pos difference) v2 (pos borrow) memory
