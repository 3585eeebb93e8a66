-- ===== src/Prelude/Loops.antt =====
-- Counted loops.
use opendylan.Prelude.{ℕ, zero, suc, ◌+◌, ◌≤◌, ◌<◌, ◌≡◌, ◌≢◌, refl, ◌∙◌, arith}
use native.Mathlib.Decide.{ℕ_discrete}
use opendylan.Prelude.Store.{update}

-- `for (i = first; rounds are left; i++) s = body(i, s)`
abbrev pub for_up {ℓ} : {S : Type ℓ} → (rounds first : ℕ) → (ℕ → S → S) → S → S
for_up zero i body s = s
for_up (suc k) i body s = for_up k (suc i) body (body i s)

-- The loop `for (i = first; ...; i++) to[i + offset] = f(i)`.
module _ {ℓ} {A : Type ℓ} (offset : ℕ) (f : ℕ → A) where
  abbrev pub fill : (rounds first : ℕ) → (ℕ → A) → ℕ → A
  fill rounds first = for_up rounds first (λ i to. update to (i + offset) (f i))

  pub fill-outside :
      (rounds first : ℕ) (to : ℕ → A) (x : ℕ)
      → ((i : ℕ) → first ≤ i → i < first + rounds → x ≢ i + offset)
      → fill rounds first to x ≡ to x
  fill-outside zero i to x h = refl
  fill-outside (suc k) i to x h =
      fill-outside k (suc i) _ x (λ j lo hi. h j (omega arith) (omega arith))
      ∙ ground (arith, h i (omega arith) (omega arith))

  pub fill-inside :
      (rounds first : ℕ) (to : ℕ → A) (i : ℕ)
      → first ≤ i
      → i < first + rounds
      → fill rounds first to (i + offset) ≡ f i
  fill-inside zero j to i lo hi = absurd (omega arith)
  fill-inside (suc k) j to i lo hi = elim (ℕ_discrete i j) [
    | yes e ↦
        fill-outside k (suc j) _ (i + offset) (λ m l h same. absurd (omega arith)) ∙ ground arith
    | no ne ↦ fill-inside k (suc j) _ i (omega arith) (omega arith)
  ]
