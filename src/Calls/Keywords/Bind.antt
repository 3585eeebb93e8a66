-- ===== src/Calls/Keywords/Bind.antt =====
-- What the keyword processing binds each parameter to.
use opendylan.Prelude.{
  true, false, ltb, ℕ, zero, suc, ◌+◌, ◌*◌, ◌/◌, ◌≤◌, ◌<◌, ◌≡◌, ◌≢◌, ◌⊎◌, inl, inr, refl, ap, ◌∙◌,
  arith, ◌==◌, if◌then◌else◌, ==_iff, ==_refl, Bool-cases, ==_ne,
}
use native.Mathlib.Decide.{ℕ_discrete}
use opendylan.Prelude.Loops.{fill, fill-inside, fill-outside}
use opendylan.Prelude.Store.{update, update_self, update-ne}
use opendylan.Calls.{Words, Method, ok, err, overrun}
use opendylan.Calls.Keywords.{
  default_arguments, assign_keyword, process_keyword_parameters, process_keyword_call_into,
}
use opendylan.Values.{Value}

-- The place of the keyword of pair `p`; its value stands behind it.
abbrev pub twice : ℕ → ℕ
twice zero = zero
twice (suc n) = suc (suc (twice n))

pub twice-eq : (n : ℕ) → twice n ≡ 2 * n
twice-eq zero = refl
twice-eq (suc n) = omega (arith, twice-eq n)

-- Parameter `q` is the first for its keyword.
abbrev pub IsFirst : Words → ℕ → Type 0
IsFirst s q = (p : ℕ) → p < q → s (2 * p) ≢ s (2 * q)

module _ (s : Words) (keyword value : Value) where
  assign-outside :
      (r j k : ℕ) (new : Words) (x : ℕ)
      → (x < k) ⊎ (k + r ≤ x)
      → assign_keyword r j k s keyword value new x ≡ new x
  unfolding assign_keyword
  assign-outside zero j k new x h = refl
  assign-outside (suc r) j k new x h =
      ground (arith, assign-outside r (j + 2) (k + 1) new x (omega arith))

  assign-at :
      (r j k : ℕ) (new : Words) (q m x : ℕ)
      → q < r
      → m ≡ j + 2 * q
      → x ≡ k + q
      → ((p : ℕ) → p < q → s (j + 2 * p) ≢ s m)
      → assign_keyword r j k s keyword value new x ≡ (if keyword == s m then value else new x)
  unfolding assign_keyword
  assign-at zero j k new q m x lt em ex first = elim lt [ ]
  assign-at (suc r) j k new zero m x lt em ex first =
      let same : m ≡ j = omega arith in
      let here : x ≡ k = omega arith in
      elim (Bool-cases (keyword == s j)) [
        | inl e ↦ rw (same, here, e, ==_refl k)
        | inr e ↦ rw (same, here, e) (assign-outside r (j + 2) (k + 1) new k (inl (omega arith)))
      ]
  assign-at (suc r) j k new (suc q) m x lt em ex first =
      let later =
        assign-at r (j + 2) (k + 1) new q m x (omega arith) (omega arith) (omega arith)
          (λ p h e. first (suc p) (omega arith) (ap s (omega arith) ∙ e)) in
      let apart : s j ≢ s m = λ e. first 0 (omega arith) (ap s (omega arith) ∙ e) in
      ground (arith, later)

module _ (nr nk : ℕ) (s optional : Words) where
  -- The outer loop over whole pairs, without its failure.
  processed : ℕ → Words → Words
  processed zero new = new
  processed (suc m) new =
      processed m
        (assign_keyword nk 0 (nr + 1) s (optional (twice m)) (optional (suc (twice m))) new)

  process-ok :
      (m : ℕ) (new : Words)
      → process_keyword_parameters nr nk s (twice m) optional new ≡ ok (processed m new)
  unfolding process_keyword_parameters processed
  process-ok zero new = refl
  process-ok (suc m) new = process-ok m _

  -- An odd number of optional arguments leads to a read before the array.
  process-odd :
      (m : ℕ) (new : Words)
      → process_keyword_parameters nr nk s (suc (twice m)) optional new ≡ err overrun
  unfolding process_keyword_parameters
  process-odd zero new = refl
  process-odd (suc m) new = process-odd m _

  processed-outside :
      (m : ℕ) (new : Words) (x : ℕ) → (x < nr + 1) ⊎ (nr + 1 + nk ≤ x) → processed m new x ≡ new x
  unfolding processed
  processed-outside zero new x h = refl
  processed-outside (suc m) new x h =
      processed-outside m _ x h ∙ assign-outside s _ _ nk 0 (nr + 1) new x h

  module _ (q : ℕ) (lt : q < nk) (first : IsFirst s q) where
    processed-none :
        (m : ℕ) (new : Words)
        → ((p : ℕ) → p < m → optional (twice p) ≢ s (2 * q))
        → processed m new (nr + 1 + q) ≡ new (nr + 1 + q)
    unfolding processed
    processed-none zero new none_of = refl
    processed-none (suc m) new none_of =
        processed-none m _ (λ p h. none_of p (omega arith))
        ∙ assign-at s _ _ nk 0 (nr + 1) new q (2 * q) (nr + 1 + q) lt (omega arith) refl
            (λ p h e. first p h (ap s (omega arith) ∙ e))
        ∙ rw (==_ne _ _ (none_of m (omega arith)))

    processed-first :
        (m : ℕ) (new : Words) (p : ℕ)
        → p < m
        → optional (twice p) ≡ s (2 * q)
        → ((p' : ℕ) → p' < p → optional (twice p') ≢ s (2 * q))
        → processed m new (nr + 1 + q) ≡ optional (suc (twice p))
    unfolding processed
    processed-first zero new p h e none_of = elim h [ ]
    processed-first (suc m) new p h e none_of = elim (ℕ_discrete p m) [
      | no ne ↦ processed-first m _ p (omega arith) e none_of
      | yes same ↦ rw (← same) (
          processed-none p _ none_of
          ∙ assign-at s _ _ nk 0 (nr + 1) new q (2 * q) (nr + 1 + q) lt (omega arith) refl
              (λ p h e. first p h (ap s (omega arith) ∙ e))
          ∙ rw ((==_iff _ _).1 e))
    ]

-- The new arguments `out`, by the places of an implementation's parameters: the `nr` required
-- arguments, the #rest vector, and `nk` keyword parameters, from `m` pairs of optional arguments.
pub record IsBound (nr nk : ℕ) (args s : Words) (m : ℕ) (optional : Words) (rest_vector : Value)
    (new out : Words) : Type 0 where
  pub required : (i : ℕ) → i < nr → out i ≡ args i
  pub rest : out nr ≡ rest_vector
  pub given :
      (q p : ℕ)
      → q < nk
      → IsFirst s q
      → p < m
      → optional (twice p) ≡ s (2 * q)
      → ((p' : ℕ) → p' < p → optional (twice p') ≢ s (2 * q))
      → out (nr + 1 + q) ≡ optional (suc (twice p))
  pub defaulted :
      (q : ℕ)
      → q < nk
      → IsFirst s q
      → ((p : ℕ) → p < m → optional (twice p) ≢ s (2 * q))
      → out (nr + 1 + q) ≡ s (2 * q + 1)
  pub beyond : (x : ℕ) → nr + 1 + nk ≤ x → out x ≡ new x

module _ (room : ℕ) (new : Words) (fn : Method) (nr : ℕ) (required optional : Words)
    (rest : Value) where
  -- In a buffer with room for all parameters and for an even number of optional arguments,
  -- process_keyword_call_into gives the number of parameters, and binds each: a keyword parameter
  -- has the value of the first pair with its keyword, or else its default. Of an odd number it reads
  -- outside the arguments.
  pub process_keyword_call_into-IsBound :
      (m : ℕ)
      → nr + fn.keyword_specifiers.size / 2 + 1 ≤ room
      → let nk = fn.keyword_specifiers.size / 2 in
        ((out : Words) × (process_keyword_call_into room new fn nr required (twice m) optional rest
            ≡ ok (nr + nk + 1, out))
          × IsBound nr nk required fn.keyword_specifiers.elements m optional rest new out)
        × (process_keyword_call_into room new fn nr required (suc (twice m)) optional rest
            ≡ err overrun)
  unfolding process_keyword_call_into default_arguments
  process_keyword_call_into-IsBound m small =
      let fits : ltb room (nr + fn.keyword_specifiers.size / 2 + 1) ≡ false = ground arith in
      let nk = fn.keyword_specifiers.size / 2 in
      let s = fn.keyword_specifiers.elements in
      let copied = fill 0 required nr 0 new in
      let start = fill (nr + 1) (λ (i : ℕ). s (2 * i + 1)) nk 0 copied in
      let out = processed nr nk s optional m start in
      let at : (x : ℕ) → x ≢ nr → update out nr rest x ≡ out x =
        λ x ne. update-ne out nr rest x ne in
      (
        (
          update out nr rest,
          rw (fits, process-ok nr nk s optional m start),
          record {
            required = λ i h.
                at i (omega arith)
                ∙ processed-outside nr nk s optional m start i (inl (omega arith))
                ∙ fill-outside (nr + 1) _ nk 0 copied i (λ j lo hi. omega arith)
                ∙ ap copied (omega arith)
                ∙ fill-inside 0 required nr 0 new i (omega arith) (omega arith);
            rest = update_self out nr rest;
            given = λ q p lt first h e none_of.
                at _ (omega arith)
                ∙ processed-first nr nk s optional q lt first m start p h e none_of;
            defaulted = λ q lt first none_of.
                at _ (omega arith)
                ∙ processed-none nr nk s optional q lt first m start none_of
                ∙ ap start (omega arith)
                ∙ fill-inside (nr + 1) _ nk 0 copied q (omega arith) (omega arith);
            beyond = λ x h.
                at x (omega arith)
                ∙ processed-outside nr nk s optional m start x (inr h)
                ∙ fill-outside (nr + 1) _ nk 0 copied x (λ j lo hi. omega arith)
                ∙ fill-outside 0 required nr 0 new x (λ j lo hi. omega arith);
          },
        ),
        rw (fits, process-odd nr nk s optional m start),
      )

  -- Of more parameters than the buffer has room for, some are written behind it.
  pub process_keyword_call_into-overrun :
      (count : ℕ)
      → room < nr + fn.keyword_specifiers.size / 2 + 1
      → process_keyword_call_into room new fn nr required count optional rest ≡ err overrun
  unfolding process_keyword_call_into
  process_keyword_call_into-overrun count more =
      let full : ltb room (nr + fn.keyword_specifiers.size / 2 + 1) ≡ true = ground arith in
      rw full refl
