-- ===== src/MachineWord/Shifts/Whole.antt =====
-- Rotations keep every digit, and shifts of double words are a product and a quotient.
use opendylan.Prelude.{
  ℕ, ◌+◌, ◌-◌, ◌*◌, ◌/◌, ◌%◌, ◌^◌, ◌≤◌, ◌<◌, ◌≡◌, refl, sym, ap, ◌∙◌, arith, Option, some, ◌>>=◌,
}
use native.Mathlib.Nat.{div-add-mod', mod-lt}
use opendylan.MachineWord.Carry.{modulus}
use opendylan.MachineWord.Shifts.{
  shift_left, shift_right, unsigned_rotate_left, unsigned_rotate_right, unsigned_double_shift_left,
  unsigned_double_shift_right,
}
use opendylan.MachineWord.Shifts.Digits.{
  bit_or_disjoint, quotient, remainder, power_sum, lower_small, upper_small, multiply_parts,
  multiply_remainder,
}

whole_power : (y : ℕ) → y ≤ 64 → 2 ^ y * 2 ^ (64 - y) ≡ modulus
whole_power y h =
    let e : y + (64 - y) ≡ 64 = omega arith in sym (power_sum y (64 - y)) ∙ ap (λ (t : ℕ). 2 ^ t) e

shift_left_defined : (x y : ℕ) → y < 64 → shift_left x y ≡ some (x * 2 ^ y % modulus)
shift_left_defined x y h = ground arith

shift_right_defined : (x y : ℕ) → y < 64 → shift_right x y ≡ some (x / 2 ^ y)
shift_right_defined x y h = ground arith

-- The parts of a word that a shift to the left by `y` separates, each at its new place.
module _ (x y : ℕ) (least : 0 < y) (most : y < 64) (x_small : x < modulus) where
  shift_left_parts : shift_left x y ≡ some (x % 2 ^ (64 - y) * 2 ^ y)
  shift_left_parts =
      shift_left_defined x y most
      ∙ ap some (
          multiply_remainder (2 ^ y) (2 ^ (64 - y)) modulus x (whole_power y (omega arith)) x_small)

  rotate_left_parts : unsigned_rotate_left x y ≡ some (x / 2 ^ (64 - y) + x % 2 ^ (64 - y) * 2 ^ y)
  unfolding unsigned_rotate_left
  rotate_left_parts =
      let low = shift_right_defined x (64 - y) (omega arith) in
      let joined =
        bit_or_disjoint y (x / 2 ^ (64 - y)) (x % 2 ^ (64 - y))
          (upper_small (2 ^ y) (2 ^ (64 - y)) modulus x (whole_power y (omega arith)) x_small) in
      cc (low, shift_left_parts, joined)

-- And those of a shift to the right.
module _ (x y : ℕ) (least : 0 < y) (most : y < 64) (x_small : x < modulus) where
  shift_left_rest : shift_left x (64 - y) ≡ some (x % 2 ^ y * 2 ^ (64 - y))
  shift_left_rest =
      let back : 64 - (64 - y) ≡ y = omega arith in
      shift_left_parts x (64 - y) (omega arith) (omega arith) x_small
      ∙ ap (λ (t : ℕ). some (x % 2 ^ t * 2 ^ (64 - y))) back

  rest_whole : 2 ^ (64 - y) * 2 ^ y ≡ modulus
  rest_whole = omega (arith, whole_power y (omega arith))

  rotate_right_parts : unsigned_rotate_right x y ≡ some (x / 2 ^ y + x % 2 ^ y * 2 ^ (64 - y))
  unfolding unsigned_rotate_right
  rotate_right_parts =
      let low = shift_right_defined x y most in
      let joined =
        bit_or_disjoint (64 - y) (x / 2 ^ y) (x % 2 ^ y)
          (upper_small (2 ^ (64 - y)) (2 ^ y) modulus x rest_whole x_small) in
      cc (low, shift_left_rest, joined)

module _ (x y : ℕ) (least : 0 < y) (most : y < 64) (x_small : x < modulus) where
  whole : 2 ^ y * 2 ^ (64 - y) ≡ modulus
  whole = whole_power y (omega arith)

  abbrev rotated : ℕ
  rotated = x / 2 ^ (64 - y) + x % 2 ^ (64 - y) * 2 ^ y

  upper : x / 2 ^ (64 - y) < 2 ^ y
  upper = upper_small (2 ^ y) (2 ^ (64 - y)) modulus x whole x_small

  rotated_small : rotated < modulus
  rotated_small = omega (arith, upper, lower_small (2 ^ y) (2 ^ (64 - y)) modulus x whole x_small)

  -- A word that is rotated to the left and then to the right by as many digits is the word, for 1 to
  -- 63 digits.
  pub unsigned_rotate_right-unsigned_rotate_left :
      (unsigned_rotate_left x y >>= λ z. unsigned_rotate_right z y) ≡ some x
  unsigned_rotate_right-unsigned_rotate_left =
      let e = rotate_left_parts x y least most x_small in
      let back = rotate_right_parts rotated y least most rotated_small in
      let over = quotient (x % 2 ^ (64 - y)) (x / 2 ^ (64 - y)) rotated refl upper in
      let under = remainder (x % 2 ^ (64 - y)) (x / 2 ^ (64 - y)) rotated refl upper in
      let same = div-add-mod' x (2 ^ (64 - y)) in
      ap (λ t. t >>= λ z. unsigned_rotate_right z y) e
      ∙ back
      ∙ ap some (omega (arith, over, ap (λ (t : ℕ). t * 2 ^ (64 - y)) under, same))

-- The low and the high word of a number.
abbrev pub IsWide : (word : Option (ℕ × ℕ)) → ℕ → Type 0
IsWide word n = (l h : ℕ) × (word ≡ some (l, h)) × (l + h * modulus ≡ n) × (l < modulus)

-- For 1 to 63 digits, the shift to the left of a double word gives the two words of the product with
-- 2 ^ y, without its overflow, and the one to the right those of the quotient.
module _ (xl xh y : ℕ) (least : 0 < y) (most : y < 64) (l_small : xl < modulus)
    (h_small : xh < modulus) where
  double_shift_left_parts :
      unsigned_double_shift_left xl xh y
      ≡ some (xl % 2 ^ (64 - y) * 2 ^ y, xl / 2 ^ (64 - y) + xh % 2 ^ (64 - y) * 2 ^ y)
  unfolding unsigned_double_shift_left
  double_shift_left_parts =
      let low = shift_right_defined xl (64 - y) (omega arith) in
      let high = shift_left_parts xh y least most h_small in
      let under = shift_left_parts xl y least most l_small in
      let joined =
        bit_or_disjoint y (xl / 2 ^ (64 - y)) (xh % 2 ^ (64 - y)) (upper xl y least most l_small) in
      cc (low, high, under, joined)

  double_shift_right_parts :
      unsigned_double_shift_right xl xh y
      ≡ some (xl / 2 ^ y + xh % 2 ^ y * 2 ^ (64 - y), xh / 2 ^ y)
  unfolding unsigned_double_shift_right
  double_shift_right_parts =
      let low = shift_right_defined xl y most in
      let over = shift_right_defined xh y most in
      let high = shift_left_rest xh y least most h_small in
      let joined = bit_or_disjoint (64 - y) (xl / 2 ^ y) (xh % 2 ^ y) (
        upper_small (2 ^ (64 - y)) (2 ^ y) modulus xl (rest_whole xl y least most l_small)
          l_small) in
      cc (low, over, high, joined)

  left_sum :
      (xl + xh * modulus) * 2 ^ y
      ≡ xl % 2 ^ (64 - y) * 2 ^ y
        + (xl / 2 ^ (64 - y) + xh % 2 ^ (64 - y) * 2 ^ y) * modulus
        + xh / 2 ^ (64 - y) * (modulus * modulus)
  left_sum =
      let w = whole xl y least most l_small in
      omega (
        arith,
        multiply_parts (2 ^ y) (2 ^ (64 - y)) modulus xl w l_small,
        multiply_parts (2 ^ y) (2 ^ (64 - y)) modulus xh w h_small,
      )

  left_small :
      xl % 2 ^ (64 - y) * 2 ^ y + (xl / 2 ^ (64 - y) + xh % 2 ^ (64 - y) * 2 ^ y) * modulus
      < modulus * modulus
  left_small =
      let w = whole xl y least most l_small in
      omega (
        arith,
        upper xl y least most l_small,
        lower_small (2 ^ y) (2 ^ (64 - y)) modulus xl w l_small,
        lower_small (2 ^ y) (2 ^ (64 - y)) modulus xh w h_small,
      )

  right_sum :
      xl + xh * modulus
      ≡ xl % 2 ^ y + (xl / 2 ^ y + xh % 2 ^ y * 2 ^ (64 - y) + xh / 2 ^ y * modulus) * 2 ^ y
  right_sum = omega (
    arith,
    div-add-mod' xl (2 ^ y),
    div-add-mod' xh (2 ^ y),
    ap (λ (t : ℕ). xh % 2 ^ y * t) (rest_whole xl y least most l_small),
  )

  -- For 1 to 63 digits, the shift of a double word to the left gives the low and the high word of
  -- its product with 2 ^ y, without what does not fit in them, and the shift to the right those of
  -- the quotient by 2 ^ y.
  pub unsigned_double_shift-IsWide :
      IsWide
        (unsigned_double_shift_left xl xh y)
        ((xl + xh * modulus) * 2 ^ y % (modulus * modulus))
      × IsWide (unsigned_double_shift_right xl xh y) ((xl + xh * modulus) / 2 ^ y)
  unsigned_double_shift-IsWide =
      let w = whole xl y least most l_small in
      let u = rest_whole xl y least most l_small in
      (
        (
          _,
          _,
          double_shift_left_parts,
          sym (remainder (xh / 2 ^ (64 - y)) _ _ left_sum left_small),
          omega (
            arith,
            upper xl y least most l_small,
            lower_small (2 ^ y) (2 ^ (64 - y)) modulus xl w l_small,
          ),
        ),
        (
          _,
          _,
          double_shift_right_parts,
          sym (
              quotient _ (xl % 2 ^ y) _ right_sum
                (mod-lt xl (omega (arith, upper xl y least most l_small)))),
          omega (
            arith,
            upper_small (2 ^ (64 - y)) (2 ^ y) modulus xl u l_small,
            lower_small (2 ^ (64 - y)) (2 ^ y) modulus xh u h_small,
          ),
        ),
      )
