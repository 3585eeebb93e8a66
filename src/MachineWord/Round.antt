-- ===== src/MachineWord/Round.antt =====
-- Rounding to the nearest quotient.
use opendylan.Prelude.{
  ◌+◌, ◌*◌, ◌/◌, ◌%◌, ◌≤◌, ◌<◌, ◌≡◌, ◌≢◌, ◌∙◌, sym, ap, Bool, some, arith, inl, inr, Bool-cases,
  ◌&&◌, ◌||◌,
}
use opendylan.Prelude.Int.{ℤ, pos, pos_part, neg_part, sub_ℕ, ◌+ℤ◌, ◌-ℤ◌, ◌*ℤ◌, ltb_ℤ}
use opendylan.MachineWord.{
  quot, rem, round_step, round, labs, is_negative, is_odd, InWord, min_magnitude, words, ◌==ℤ◌,
}
use opendylan.MachineWord.Divide.{IsQuotient, IsDefined, up, down, rem-IsQuotient}
use opendylan.MachineWord.Floor.{ldiv-quot, quot-room, words-InWord}

-- `q` is a quotient nearest to x / y, and of two such the even one.
pub record IsNearest (x y q r : ℤ) : Type 0 where
  pub equation : q *ℤ y +ℤ r ≡ x
  pub near : 2 * labs r ≤ labs y
  pub tie : 2 * labs r ≡ labs y → labs q % 2 ≡ 0
  pub fits : InWord q × InWord r

abbrev above : (y q r : ℤ) → Bool
above y q r = ltb_ℤ (pos (labs y / 2)) r || (r ==ℤ pos (labs y / 2) && is_odd q)

abbrev below : (y q r : ℤ) → Bool
below y q r = ltb_ℤ r (sub_ℕ 0 (labs y / 2)) || (r ==ℤ sub_ℕ 0 (labs y / 2) && is_odd q)

module _ (x y q r : ℤ) (t : IsQuotient x x y q r) (wy : InWord y)
    (room : labs r ≢ 0 → 2 * labs q ≤ min_magnitude) where
  -- The step down, where the signs differ, and the step up, where they agree.
  step-down :
      labs y ≤ 2 * labs r
      → (2 * labs r ≡ labs y → labs q % 2 ≡ 1)
      → (neg_part y ≡ 0 → pos_part r ≡ 0)
      → (pos_part y ≡ 0 → neg_part r ≡ 0)
      → IsNearest x y (q -ℤ pos 1) (r +ℤ y)
  step-down far odd s1 s2 = record {
    equation = down q r y ∙ t.equation;
    near = unfold ◌+ℤ◌ in ground (arith, t.small);
    tie = λ h. unfold ◌+ℤ◌ ◌-ℤ◌ in ground (arith, t.small);
    fits = unfold ◌+ℤ◌ ◌-ℤ◌ in ground (arith, t.small, t.fits, room, wy);
  }

  step-up :
      labs y ≤ 2 * labs r
      → (2 * labs r ≡ labs y → labs q % 2 ≡ 1)
      → (neg_part y ≡ 0 → neg_part r ≡ 0)
      → (pos_part y ≡ 0 → pos_part r ≡ 0)
      → IsNearest x y (q +ℤ pos 1) (r -ℤ y)
  step-up far odd s1 s2 = record {
    equation = up q r y ∙ t.equation;
    near = unfold ◌-ℤ◌ in ground (arith, t.small);
    tie = λ h. unfold ◌+ℤ◌ ◌-ℤ◌ in ground (arith, t.small);
    fits = unfold ◌+ℤ◌ ◌-ℤ◌ in ground (arith, t.small, t.fits, room, wy);
  }

  round_step-IsNearest :
      (labs y % 2 ≡ 1 → labs r ≡ labs y / 2 → labs q % 2 ≡ 0)
      → IsNearest x y (round_step y (q, r)).0 (round_step y (q, r)).1
  unfolding round_step
  round_step-IsNearest good = elim (Bool-cases (is_negative y)) [
    | inl ny ↦ elim (Bool-cases (above y q r)) [
      | inl e ↦
          rw (e, ny)
            (step-down (ground arith) (λ h. ground arith) (λ h. ground arith) (λ h. ground arith))
      | inr e ↦ elim (Bool-cases (below y q r)) [
        | inl e' ↦
            rw (e, e', ny)
              (step-up (ground arith) (λ h. ground arith) (λ h. ground arith) (λ h. ground arith))
        | inr e' ↦
            rw (e, e')
              (record {
                equation = t.equation;
                near = ground arith;
                tie = λ h. ground arith;
                fits = t.fits;
              })
      ]
    ]
    | inr ny ↦ elim (Bool-cases (above y q r)) [
      | inl e ↦
          rw (e, ny)
            (step-up (ground arith) (λ h. ground arith) (λ h. ground arith) (λ h. ground arith))
      | inr e ↦ elim (Bool-cases (below y q r)) [
        | inl e' ↦
            rw (e, e', ny)
              (step-down (ground arith) (λ h. ground arith) (λ h. ground arith) (λ h. ground arith))
        | inr e' ↦
            rw (e, e')
              (record {
                equation = t.equation;
                near = ground arith;
                tie = λ h. ground arith;
                fits = t.fits;
              })
      ]
    ]
  ]

  -- Where the remainder is the threshold of an odd divisor and the quotient is odd, the step goes
  -- away from the nearest quotient.
  round_step-far :
      labs y % 2 ≡ 1
      → labs r ≡ labs y / 2
      → labs q % 2 ≡ 1
      → 2 * labs (round_step y (q, r)).1 ≡ labs y + 1
  unfolding round_step
  round_step-far odd at oq = elim (Bool-cases (is_negative y)) [
    | inl ny ↦ elim (Bool-cases (above y q r)) [
      | inl e ↦ rw (e, ny) (unfold ◌+ℤ◌ in ground arith)
      | inr e ↦ elim (Bool-cases (below y q r)) [
        | inl e' ↦ rw (e, e', ny) (unfold ◌-ℤ◌ in ground arith)
        | inr e' ↦ ground arith
      ]
    ]
    | inr ny ↦ elim (Bool-cases (above y q r)) [
      | inl e ↦ rw (e, ny) (unfold ◌-ℤ◌ in ground arith)
      | inr e ↦ elim (Bool-cases (below y q r)) [
        | inl e' ↦ rw (e, e', ny) (unfold ◌+ℤ◌ in ground arith)
        | inr e' ↦ ground arith
      ]
    ]
  ]

words-some : (z : ℤ × ℤ) (q r : ℤ) → words z ≡ some (q, r) → z ≡ (q, r)
words-some (q', r') q r h = ground arith

module _ (x y : ℤ) (wx : InWord x) (wy : InWord y) (d : IsDefined x y)
    (wl : labs y < min_magnitude) where
  round-step : round x y ≡ words (round_step y (quot x y, rem x y))
  unfolding round
  round-step = rw (ldiv-quot x y d) (ground arith)

  -- For words whose quotient is defined, with |y| a word, round returns a nearest quotient, and of
  -- two the even one, unless y is odd, ldiv's remainder is half of |y|, rounded down, in magnitude,
  -- and its quotient is odd.
  pub round-IsNearest :
      (labs y % 2 ≡ 1 → labs (rem x y) ≡ labs y / 2 → labs (quot x y) % 2 ≡ 0)
      → (q : ℤ) × (r : ℤ) × (round x y ≡ some (q, r)) × IsNearest x y q r
  round-IsNearest good =
      let z = round_step y (quot x y, rem x y) in
      let is =
        round_step-IsNearest x y (quot x y) (rem x y) (rem-IsQuotient x y wx wy d) wy
          (quot-room x y wx d.0) good in
      (z.0, z.1, round-step ∙ words-InWord z is.fits.0 is.fits.1, is)

  -- Where y is odd, ldiv's remainder is half of |y|, rounded down, in magnitude, and its quotient is
  -- odd, what round returns, if it returns, has a remainder r with 2 * |r| = |y| + 1: it is not a
  -- nearest quotient.
  pub round-far :
      labs y % 2 ≡ 1
      → labs (rem x y) ≡ labs y / 2
      → labs (quot x y) % 2 ≡ 1
      → (q r : ℤ) → round x y ≡ some (q, r)
      → 2 * labs r ≡ labs y + 1
  round-far odd at oq q r h =
      let z = round_step y (quot x y, rem x y) in
      let e = words-some z q r (sym round-step ∙ h) in
      let far =
        round_step-far x y (quot x y) (rem x y) (rem-IsQuotient x y wx wy d) wy
          (quot-room x y wx d.0) odd at oq in
      sym (ap (λ (p : ℤ × ℤ). 2 * labs p.1) e) ∙ far
