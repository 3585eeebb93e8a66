-- ===== src/Threads/Semaphores/Count.antt =====
-- The count of a semaphore.
use opendylan.Prelude.{
  ℕ, suc, ◌+◌, ◌≤◌, ◌≡◌, ◌⊎◌, refl, sym, ap, subst, ◌∙◌, arith, Bool, true, false, Option, none,
  some, inl, inr, Bool-cases,
}
use mathlib.Core.Option.{some-injective, none-ne-some}
use opendylan.Prelude.Int.{ℤ, pos, pos_part, neg_part, ltb_ℤ, ◌+ℤ◌, ◌-ℤ◌, +ℤ_parts, -ℤ_parts}
use opendylan.Threads.Mutex.{ok, timeout, count_exceeded}
use opendylan.Threads.Semaphores.{
  Semaphore, Progress, sleeps, answers, make_semaphore, wait_for_semaphore, timed_out,
  release_semaphore, Reach, made, takes, waits, gives_up, gives, exceeds,
}

-- At most, of integers.
abbrev pub AtMost : ℤ → ℤ → Type 0
AtMost a b = pos_part a + neg_part b ≤ pos_part b + neg_part a

-- The count is the initial one, and one more for each release and one less for each wait; it does not
-- fall below 0, or the initial count, and does not rise above the greatest, or the initial count.
pub record Counts (initial max : ℤ) (s : Semaphore) (taken given : ℕ) : Type 0 where
  pub max_count : s.max_count ≡ max
  pub balance :
      pos_part s.count + neg_part initial + taken ≡ neg_part s.count + pos_part initial + given
  pub low : neg_part initial ≡ 0 → neg_part s.count ≡ 0
  pub high : AtMost initial max → AtMost s.count max

-- A section that goes as it does from this state, and gives `t`, has this progress and this state.
given-by :
    {x : Option (Progress × Semaphore)} {p q : Progress} {t u : Semaphore}
    → x ≡ some (p, t)
    → x ≡ some (q, u)
    → (p ≡ q) × (t ≡ u)
given-by e f = let both = some-injective _ _ (sym e ∙ f) in (ap (λ r. r.0) both, ap (λ r. r.1) both)

module _ (initial max : ℤ) (s : Semaphore) (taken given : ℕ)
    (is : Counts initial max s taken given) where
  less-Counts :
      ltb_ℤ (pos 0) s.count ≡ true
      → Counts initial max (record s { count = s.count -ℤ pos 1 }) (suc taken) given
  less-Counts some_left =
      let parts = -ℤ_parts s.count (pos 1) in
      let balance = is.balance in
      let low = is.low in
      let high = is.high in
      record {
        max_count = is.max_count;
        balance = omega (arith, parts, balance);
        low = λ at_0. ground (arith, parts, low at_0, some_left);
        high = λ below. let le = high below in omega (arith, parts, le);
      }

  more-Counts :
      ltb_ℤ s.count s.max_count ≡ true
      → Counts initial max (record s { count = s.count +ℤ pos 1 }) taken (suc given)
  more-Counts room =
      let parts = +ℤ_parts s.count (pos 1) in
      let balance = is.balance in
      let low = is.low in
      let same = is.max_count in
      record {
        max_count = same;
        balance = omega (arith, parts, balance);
        low = λ at_0. ground (arith, parts, low at_0);
        high = λ below. ground (arith, parts, room, same);
      }

  locked-Counts : (l : Bool) → Counts initial max (record s { locked = l }) taken given
  locked-Counts l = record {
    max_count = is.max_count;
    balance = is.balance;
    low = is.low;
    high = is.high;
  }

-- What each section does.
module _ (s : Semaphore) where
  wait-cases :
      (wait_for_semaphore s ≡ none)
      ⊎ (((ltb_ℤ (pos 0) s.count ≡ true)
            × (wait_for_semaphore s ≡ some (answers ok, record s { count = s.count -ℤ pos 1 })))
          ⊎ (wait_for_semaphore s ≡ some (sleeps, s)))
  unfolding wait_for_semaphore
  wait-cases = elim (Bool-cases s.locked) [
    | inl held ↦ inl (rw held refl)
    | inr free ↦ elim (Bool-cases (ltb_ℤ (pos 0) s.count)) [
      | inl some_left ↦ inr (inl (some_left, rw (free, some_left) refl))
      | inr empty ↦ inr (inr (rw (free, empty) refl))
    ]
  ]

  release-cases :
      (release_semaphore s ≡ none)
      ⊎ (((ltb_ℤ s.count s.max_count ≡ true)
            × (release_semaphore s ≡ some (answers ok, record s { count = s.count +ℤ pos 1 })))
          ⊎ (release_semaphore s ≡ some (answers count_exceeded, record s { locked = true })))
  unfolding release_semaphore
  release-cases = elim (Bool-cases s.locked) [
    | inl held ↦ inl (rw held refl)
    | inr free ↦ elim (Bool-cases (ltb_ℤ s.count s.max_count)) [
      | inl room ↦ inr (inl (room, rw (free, room) refl))
      | inr full ↦ inr (inr (rw (free, full) refl))
    ]
  ]

  timed-cases : (timed_out s ≡ none) ⊎ (timed_out s ≡ some (answers timeout, s))
  unfolding timed_out
  timed-cases = elim (Bool-cases s.locked) [
    | inl held ↦ inl (rw held refl)
    | inr free ↦ inr (rw free refl)
  ]

-- A semaphore made with an initial count and a greatest one, after any waits, timed waits and
-- releases: the count is the initial one, and one more for each release and one less for each
-- wait that answered OK; from an initial count of 0 or more it is never below 0, and from one that
-- is not above the greatest it is never above that.
pub Reach-Counts :
    (initial max : ℤ) (s : Semaphore) (taken given : ℕ)
    → Reach initial max s taken given
    → Counts initial max s taken given
unfolding make_semaphore
Reach-Counts initial max s taken given made = record {
  max_count = refl;
  balance = omega arith;
  low = λ e. e;
  high = λ e. e;
}
Reach-Counts initial max t taken given (takes {s = s} {taken = w} run e) =
    let is = Reach-Counts initial max s w given run in
    elim (wait-cases s) [
      | inl stuck ↦ absurd (none-ne-some _ (sym stuck ∙ e))
      | inr (inl (some_left, known)) ↦
          subst (λ (x : Semaphore). Counts initial max x (suc w) given) (given-by known e).1
            (less-Counts initial max s w given is some_left)
      | inr (inr known) ↦ absurd (ground (arith, (given-by known e).0))
    ]
Reach-Counts initial max t taken given (waits {s = s} run e) =
    let is = Reach-Counts initial max s taken given run in
    elim (wait-cases s) [
      | inl stuck ↦ absurd (none-ne-some _ (sym stuck ∙ e))
      | inr (inl (some_left, known)) ↦ absurd (ground (arith, (given-by known e).0))
      | inr (inr known) ↦
          subst (λ (x : Semaphore). Counts initial max x taken given) (given-by known e).1 is
    ]
Reach-Counts initial max t taken given (gives_up {s = s} run e) =
    let is = Reach-Counts initial max s taken given run in
    elim (timed-cases s) [
      | inl stuck ↦ absurd (none-ne-some _ (sym stuck ∙ e))
      | inr known ↦
          subst (λ (x : Semaphore). Counts initial max x taken given) (given-by known e).1 is
    ]
Reach-Counts initial max t taken given (gives {s = s} {given = r} run e) =
    let is = Reach-Counts initial max s taken r run in
    elim (release-cases s) [
      | inl stuck ↦ absurd (none-ne-some _ (sym stuck ∙ e))
      | inr (inl (room, known)) ↦
          subst (λ (x : Semaphore). Counts initial max x taken (suc r)) (given-by known e).1
            (more-Counts initial max s taken r is room)
      | inr (inr known) ↦ absurd (ground (arith, (given-by known e).0))
    ]
Reach-Counts initial max t taken given (exceeds {s = s} run e) =
    let is = Reach-Counts initial max s taken given run in
    elim (release-cases s) [
      | inl stuck ↦ absurd (none-ne-some _ (sym stuck ∙ e))
      | inr (inl (room, known)) ↦ absurd (ground (arith, (given-by known e).0))
      | inr (inr known) ↦
          subst (λ (x : Semaphore). Counts initial max x taken given) (given-by known e).1
            (locked-Counts initial max s taken given is true)
    ]

-- A release above the greatest count answers the error with the mutex held: after it no section of
-- the semaphore can begin.
pub release_semaphore-held :
    (s : Semaphore)
    → s.locked ≡ false
    → ltb_ℤ s.count s.max_count ≡ false
    → (k : Semaphore) × (release_semaphore s ≡ some (answers count_exceeded, k))
      × (wait_for_semaphore k ≡ none)
      × (timed_out k ≡ none)
      × (release_semaphore k ≡ none)
unfolding release_semaphore wait_for_semaphore timed_out
release_semaphore-held s free full =
    (record s { locked = true }, rw (free, full) refl, refl, refl, refl)
