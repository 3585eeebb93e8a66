-- ===== src/MachineWord/Floor.antt =====
-- The floor and the ceiling of a quotient.
use opendylan.Prelude.{
  ◌*◌, ◌≤◌, ◌≡◌, ◌≢◌, ◌∙◌, some, arith, inl, inr, Bool-cases, not, ◌&&◌, if◌then◌else◌,
}
use opendylan.Prelude.Int.{ℤ, pos, ◌+ℤ◌, ◌-ℤ◌, ltb_ℤ}
use opendylan.MachineWord.{
  ldiv, truncate, quot, rem, floor_step, floor, ceiling_step, ceiling, labs, is_negative, is_zero,
  InWord, min_magnitude, words,
}
use opendylan.MachineWord.Divide.{IsQuotient, IsDefined, up, down, half-div, rem-IsQuotient}

pub ldiv-quot : (x y : ℤ) → IsDefined x y → ldiv x y ≡ some (quot x y, rem x y)
unfolding ldiv
ldiv-quot x y d = ground (arith, d.0, d.1)

-- A remainder that is not 0 leaves room for a step of the quotient.
pub quot-room :
    (x y : ℤ) → InWord x → labs y ≢ 0 → labs (rem x y) ≢ 0 → 2 * labs (quot x y) ≤ min_magnitude
quot-room x y wx ny nr = ground (arith, half-div (labs x) (labs y))

module _ (x y q r : ℤ) (t : IsQuotient x x y q r) (wy : InWord y)
    (room : labs r ≢ 0 → 2 * labs q ≤ min_magnitude) where
  floor_step-IsQuotient : IsQuotient y x y (floor_step y (q, r)).0 (floor_step y (q, r)).1
  unfolding floor_step
  floor_step-IsQuotient =
      let test = not (is_zero r) && (if is_negative y then ltb_ℤ (pos 0) r else is_negative r) in
      elim (Bool-cases test) [
        | inl e ↦ rw e (record {
          equation = down q r y ∙ t.equation;
          small = unfold ◌+ℤ◌ in ground (arith, t.small);
          sign = (
            λ h. unfold ◌+ℤ◌ in ground (arith, t.small),
            λ h. unfold ◌+ℤ◌ in ground (arith, t.small),
          );
          fits = unfold ◌+ℤ◌ ◌-ℤ◌ in ground (arith, t.small, t.fits, room, wy);
        })
        | inr e ↦ rw e (record {
          equation = t.equation;
          small = t.small;
          sign = (λ h. ground arith, λ h. ground arith);
          fits = t.fits;
        })
      ]

  ceiling_step-IsQuotient :
      IsQuotient (pos 0 -ℤ y) x y (ceiling_step y (q, r)).0 (ceiling_step y (q, r)).1
  unfolding ceiling_step
  ceiling_step-IsQuotient =
      let test = not (is_zero r) && (if is_negative y then is_negative r else ltb_ℤ (pos 0) r) in
      elim (Bool-cases test) [
        | inl e ↦ rw e (record {
          equation = up q r y ∙ t.equation;
          small = unfold ◌-ℤ◌ in ground (arith, t.small);
          sign = (
            λ h. unfold ◌-ℤ◌ in ground (arith, t.small),
            λ h. unfold ◌-ℤ◌ in ground (arith, t.small),
          );
          fits = unfold ◌+ℤ◌ ◌-ℤ◌ in ground (arith, t.small, t.fits, room, wy);
        })
        | inr e ↦ rw e (record {
          equation = t.equation;
          small = t.small;
          sign = (λ h. unfold ◌-ℤ◌ in ground arith, λ h. unfold ◌-ℤ◌ in ground arith);
          fits = t.fits;
        })
      ]

pub words-InWord : (z : ℤ × ℤ) → InWord z.0 → InWord z.1 → words z ≡ some z
words-InWord (q, r) wq wr = ground arith

module _ (x y : ℤ) (wx : InWord x) (wy : InWord y) (d : IsDefined x y) where
  -- For words whose quotient is defined truncate returns words q and r with q * y + r = x and
  -- |r| < |y|; r is 0 or has the sign of x.
  pub truncate-IsQuotient : (q : ℤ) × (r : ℤ) × (truncate x y ≡ some (q, r)) × IsQuotient x x y q r
  unfolding truncate
  truncate-IsQuotient = (quot x y, rem x y, ldiv-quot x y d, rem-IsQuotient x y wx wy d)

  -- For words whose quotient is defined floor returns words q and r with q * y + r = x and
  -- |r| < |y|; r is 0 or has the sign of y.
  pub floor-IsQuotient : (q : ℤ) × (r : ℤ) × (floor x y ≡ some (q, r)) × IsQuotient y x y q r
  unfolding floor
  floor-IsQuotient =
      let z = floor_step y (quot x y, rem x y) in
      let is =
        floor_step-IsQuotient x y (quot x y) (rem x y) (rem-IsQuotient x y wx wy d) wy
          (quot-room x y wx d.0) in
      (z.0, z.1, rw (ldiv-quot x y d) (words-InWord z is.fits.0 is.fits.1), is)

  -- For words whose quotient is defined ceiling returns words q and r with q * y + r = x and
  -- |r| < |y|; r is 0 or has the sign of -y.
  pub ceiling-IsQuotient :
      (q : ℤ) × (r : ℤ) × (ceiling x y ≡ some (q, r)) × IsQuotient (pos 0 -ℤ y) x y q r
  unfolding ceiling
  ceiling-IsQuotient =
      let z = ceiling_step y (quot x y, rem x y) in
      let is =
        ceiling_step-IsQuotient x y (quot x y) (rem x y) (rem-IsQuotient x y wx wy d) wy
          (quot-room x y wx d.0) in
      (z.0, z.1, rw (ldiv-quot x y d) (words-InWord z is.fits.0 is.fits.1), is)

  -- For words whose quotient is defined floor, ceiling and truncate return words q and r with
  -- q * y + r = x and |r| < |y|; r is 0 or has the sign of y, of -y and of x.
  pub floor-ceiling-truncate-IsQuotient :
      ((q : ℤ) × (r : ℤ) × (floor x y ≡ some (q, r)) × IsQuotient y x y q r)
      × ((q : ℤ) × (r : ℤ) × (ceiling x y ≡ some (q, r)) × IsQuotient (pos 0 -ℤ y) x y q r)
      × ((q : ℤ) × (r : ℤ) × (truncate x y ≡ some (q, r)) × IsQuotient x x y q r)
  floor-ceiling-truncate-IsQuotient = (floor-IsQuotient, ceiling-IsQuotient, truncate-IsQuotient)
