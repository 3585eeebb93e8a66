-- ===== src/Prelude/Totals.antt =====
-- Sums over the threads below a bound, of a measure of their program counters.
use opendylan.Prelude.{ℕ, zero, suc, ◌+◌, ◌≤◌, ◌<◌, ◌≡◌, ◌≢◌, refl, arith, ==_ne, ==_refl}
use native.Mathlib.Decide.{ℕ_discrete}
use opendylan.Prelude.Store.{update}

module _ {ℓ} {S : Type ℓ} (f : S → ℕ) where
  abbrev pub total : (n : ℕ) → (ℕ → S) → ℕ
  total zero pc = 0
  total (suc n) pc = f (pc n) + total n pc

  total-outside :
      (n : ℕ) (pc : ℕ → S) (i : ℕ) (p : S) → n ≤ i → total n (update pc i p) ≡ total n pc
  total-outside zero pc i p le = refl
  total-outside (suc n) pc i p le =
      let rest = total-outside n pc i p (omega arith) in rw (==_ne n i (omega arith), rest)

  -- One thread moves.
  pub total-update :
      (n : ℕ) (pc : ℕ → S) (i : ℕ) (p : S)
      → i < n
      → total n (update pc i p) + f (pc i) ≡ total n pc + f p
  total-update zero pc i p lt = absurd (omega arith)
  total-update (suc n) pc i p lt = elim (ℕ_discrete n i) [
    | yes same ↦ rw (same, ==_refl i, total-outside i pc i p (omega arith)) (omega arith)
    | no ne ↦
        let rest = total-update n pc i p (omega arith) in rw (==_ne n i ne) (omega (arith, rest))
  ]

  pub total-at : (n : ℕ) (pc : ℕ → S) (i : ℕ) → i < n → f (pc i) ≤ total n pc
  total-at zero pc i lt = absurd (omega arith)
  total-at (suc n) pc i lt = elim (ℕ_discrete n i) [
    | yes same ↦ rw same (omega arith)
    | no ne ↦ let rest = total-at n pc i (omega arith) in omega (arith, rest)
  ]

  -- Two threads, given a place at which the measure is 0.
  pub total-two :
      (n : ℕ) (pc : ℕ → S) (i j : ℕ) (p : S)
      → f p ≡ 0
      → i < n
      → j < n
      → i ≢ j
      → f (pc i) + f (pc j) ≤ total n pc
  total-two n pc i j p at_0 lt_i lt_j ne =
      let without = total-update n pc j p lt_j in
      let rest : f (update pc j p i) ≤ total n (update pc j p) =
        total-at n (update pc j p) i lt_i in
      let kept : f (update pc j p i) ≡ f (pc i) = rw (==_ne i j ne) refl in
      omega (arith, without, rest, kept, at_0)

  pub total-some : (n : ℕ) (pc : ℕ → S) → total n pc ≢ 0 → (i : ℕ) × (i < n) × (f (pc i) ≢ 0)
  total-some zero pc ne = absurd (ne refl)
  total-some (suc n) pc ne = elim (ℕ_discrete (f (pc n)) 0) [
    | yes none_here ↦ let (i, lt, at) = total-some n pc (omega arith) in (i, omega (arith, lt), at)
    | no here ↦ (n, omega arith, here)
  ]

-- A measure that never exceeds another has no greater sum.
pub total-le {ℓ} :
    {S : Type ℓ} (f g : S → ℕ)
    → ((p : S) → f p ≤ g p)
    → (n : ℕ) (pc : ℕ → S) → total f n pc ≤ total g n pc
total-le f g le zero pc = omega arith
total-le f g le (suc n) pc =
    let here = le (pc n) in let rest = total-le f g le n pc in omega (arith, here, rest)

-- A measure of at most 1.
pub total-bounded {ℓ} :
    {S : Type ℓ} (f g : S → ℕ)
    → ((p : S) → f p + g p ≤ 1)
    → (n : ℕ) (pc : ℕ → S) → total f n pc + total g n pc ≤ n
total-bounded f g le zero pc = omega arith
total-bounded f g le (suc n) pc =
    let here = le (pc n) in let rest = total-bounded f g le n pc in omega (arith, here, rest)

-- Two measures that together never exceed a third.
pub total-sum {ℓ} :
    {S : Type ℓ} (f g h : S → ℕ)
    → ((p : S) → f p + g p ≤ h p)
    → (n : ℕ) (pc : ℕ → S) → total f n pc + total g n pc ≤ total h n pc
total-sum f g h le zero pc = omega arith
total-sum f g h le (suc n) pc =
    let here = le (pc n) in let rest = total-sum f g h le n pc in omega (arith, here, rest)
