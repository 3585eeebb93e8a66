-- ===== src/MachineWord/Divide.antt =====
-- What the divisions promise.
use opendylan.Prelude.{ℕ, suc, ◌+◌, ◌*◌, ◌/◌, ◌%◌, ◌≤◌, ◌<◌, ◌≡◌, ◌≢◌, ap, arith}
use opendylan.Prelude.Int.{
  ℤ, pos, negsuc, pos_part, neg_part, ◌+ℤ◌, ◌-ℤ◌, ◌*ℤ◌, +ℤ_parts, -ℤ_parts, eq_of_parts,
}
use opendylan.MachineWord.{quot, rem, labs, InWord, min_magnitude}
use native.Mathlib.Nat.{mod-lt}

*ℤ_parts :
    (a b : ℤ)
    → pos_part (a *ℤ b) + pos_part a * neg_part b + neg_part a * pos_part b
      ≡ neg_part (a *ℤ b) + pos_part a * pos_part b + neg_part a * neg_part b
unfolding ◌*ℤ◌
*ℤ_parts a b = ground arith

-- A quotient moves by one, and the remainder by the divisor.
pub up : (q r y : ℤ) → (q +ℤ pos 1) *ℤ y +ℤ (r -ℤ y) ≡ q *ℤ y +ℤ r
up q r y =
    let e = +ℤ_parts q (pos 1) in
    eq_of_parts _ _ (
      omega (
        arith,
        +ℤ_parts ((q +ℤ pos 1) *ℤ y) (r -ℤ y),
        +ℤ_parts (q *ℤ y) r,
        -ℤ_parts r y,
        *ℤ_parts (q +ℤ pos 1) y,
        *ℤ_parts q y,
        ap (λ (t : ℕ). t * pos_part y) e,
        ap (λ (t : ℕ). t * neg_part y) e,
      ))

pub down : (q r y : ℤ) → (q -ℤ pos 1) *ℤ y +ℤ (r +ℤ y) ≡ q *ℤ y +ℤ r
down q r y =
    let e = -ℤ_parts q (pos 1) in
    eq_of_parts _ _ (
      omega (
        arith,
        +ℤ_parts ((q -ℤ pos 1) *ℤ y) (r +ℤ y),
        +ℤ_parts (q *ℤ y) r,
        +ℤ_parts r y,
        *ℤ_parts (q -ℤ pos 1) y,
        *ℤ_parts q y,
        ap (λ (t : ℕ). t * pos_part y) e,
        ap (λ (t : ℕ). t * neg_part y) e,
      ))

-- `q` and `r` are words, and a quotient and a remainder of `x` by `y`; the remainder is 0 or has
-- the sign of `s`.
pub record IsQuotient (s x y q r : ℤ) : Type 0 where
  pub equation : q *ℤ y +ℤ r ≡ x
  pub small : labs r < labs y
  pub sign : (neg_part s ≡ 0 → neg_part r ≡ 0) × (pos_part s ≡ 0 → pos_part r ≡ 0)
  pub fits : InWord q × InWord r

-- A quotient that is a word exists.
abbrev pub IsDefined : ℤ → ℤ → Type 0
IsDefined x y = (labs y ≢ 0) × (neg_part y ≡ 1 → neg_part x ≢ min_magnitude)

div-mod : (a b : ℕ) → a / b * b + a % b ≡ a
div-mod a b = grind arith

quot-equation : (x y : ℤ) → quot x y *ℤ y +ℤ rem x y ≡ x
quot-equation (pos a) (pos b) =
    let q = quot (pos a) (pos b) in
    let r = rem (pos a) (pos b) in
    eq_of_parts _ _ (ground (arith, +ℤ_parts (q *ℤ (pos b)) r, *ℤ_parts q (pos b), div-mod a b))
quot-equation (pos a) (negsuc b) =
    let q = quot (pos a) (negsuc b) in
    let r = rem (pos a) (negsuc b) in
    eq_of_parts _ _
      (ground (arith, +ℤ_parts (q *ℤ (negsuc b)) r, *ℤ_parts q (negsuc b), div-mod a (suc b)))
quot-equation (negsuc a) (pos b) =
    let q = quot (negsuc a) (pos b) in
    let r = rem (negsuc a) (pos b) in
    eq_of_parts _ _
      (ground (arith, +ℤ_parts (q *ℤ (pos b)) r, *ℤ_parts q (pos b), div-mod (suc a) b))
quot-equation (negsuc a) (negsuc b) =
    let q = quot (negsuc a) (negsuc b) in
    let r = rem (negsuc a) (negsuc b) in
    eq_of_parts _ _
      (ground (arith, +ℤ_parts (q *ℤ (negsuc b)) r, *ℤ_parts q (negsuc b), div-mod (suc a) (suc b)))

pub half-div : (a b : ℕ) → 2 ≤ b → 2 * (a / b) ≤ a
half-div a b h = grind arith

div_le : (a b : ℕ) → a / b ≤ a
div_le a b = grind arith

quot-InWord : (x y : ℤ) → InWord x → IsDefined x y → InWord (quot x y)
quot-InWord x y wx d = ground (arith, div_le (labs x) (labs y), half-div (labs x) (labs y))

pub rem-IsQuotient :
    (x y : ℤ) → InWord x → InWord y → IsDefined x y → IsQuotient x x y (quot x y) (rem x y)
rem-IsQuotient x y wx wy d =
    let lt = mod-lt (labs x) {m = labs y} (omega (arith, d.0)) in
    record {
      equation = quot-equation x y;
      small = ground arith;
      sign = (λ h. ground arith, λ h. ground arith);
      fits = (quot-InWord x y wx d, ground arith);
    }
