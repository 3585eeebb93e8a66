-- ===== src/Calls/Keywords/Check.antt =====
-- check_explicit_kwds and check_unrestricted_kwds, and the keyed engine nodes that call them.
use opendylan.Prelude.{
  ℕ, zero, suc, ◌+◌, ◌-◌, ◌*◌, ◌/◌, ◌%◌, ◌<◌, ◌≡◌, ◌↔◌, refl, Bool, true, false, Option, none, some,
  arith, ◌==◌, if◌then◌else◌, Bool-cases, inl, inr, sym, ap, subst, ◌∙◌, ==_iff, ==_ne,
}
use native.Mathlib.Nat.{zero-add}
use opendylan.Calls.{Words, Vector}
use opendylan.Calls.Keywords.Bind.{twice, twice-eq}
use opendylan.Values.{Value}

-- `for (j = first; j < kwdsize; j += kwdskip)`, by the rounds that are left.
known_loop : (rounds j kwdskip : ℕ) → Words → Value → Bool
known_loop zero j kwdskip kwddata kwdarg = false
known_loop (suc r) j kwdskip kwddata kwdarg =
    let rest = known_loop r (j + kwdskip) kwdskip kwddata kwdarg in
    if kwddata j == kwdarg then true else rest

-- `for (i = first; i < optsize; i += 2)`, by the rounds that are left. NULL is none.
unknown_loop : (rounds i : ℕ) → Words → Vector → (kwdskip : ℕ) → Option Value
unfolding known_loop
unknown_loop zero i optdata kwds kwdskip = none
unknown_loop (suc r) i optdata kwds kwdskip =
    let rest = unknown_loop r (i + 2) optdata kwds kwdskip in
    let kwdrounds = (kwds.size + kwdskip - 1) / kwdskip in
    if known_loop kwdrounds 0 kwdskip kwds.elements (optdata i) then rest else some (optdata i)

unfoldable pub check_explicit_kwds :
    (dfalse : Value) → (optionals kwds : Vector) → (kwdskip : ℕ) → Option Value
unfolding unknown_loop
check_explicit_kwds dfalse optionals kwds kwdskip =
    if optionals.size % 2 == 0
    then unknown_loop (optionals.size / 2) 0 optionals.elements kwds kwdskip
    else some dfalse

unfoldable pub check_unrestricted_kwds : (dfalse : Value) → (optionals : Vector) → Option Value
check_unrestricted_kwds dfalse optionals = if optionals.size % 2 == 0 then none else some dfalse

-- Some keyword of `kwds`, at a place that is a multiple of `kwdskip`, is `k`.
abbrev pub IsKnown : Vector → (kwdskip : ℕ) → Value → Type 0
IsKnown kwds kwdskip k = (t : ℕ) × (t * kwdskip < kwds.size) × (kwds.elements (t * kwdskip) ≡ k)

known_loop-true :
    (r j skip : ℕ) (s : Words) (k : Value) (t m : ℕ)
    → t < r
    → m ≡ j + t * skip
    → s m ≡ k
    → known_loop r j skip s k ≡ true
unfolding known_loop
known_loop-true zero j skip s k t m h em e = elim h [ ]
known_loop-true (suc r) j skip s k zero m h em e = rw ((==_iff (s j) k).1 (ap s (omega arith) ∙ e))
known_loop-true (suc r) j skip s k (suc t) m h em e =
    ground (arith, known_loop-true r (j + skip) skip s k t m (omega arith) (grind arith) e)

known_loop_sound :
    (r j skip : ℕ) (s : Words) (k : Value)
    → known_loop r j skip s k ≡ true
    → (t : ℕ) × (t < r) × (s (j + t * skip) ≡ k)
unfolding known_loop
known_loop_sound zero j skip s k h = cc
known_loop_sound (suc r) j skip s k h = elim (Bool-cases (s j == k)) [
  | inl e ↦ (0, omega arith, ap s (omega arith) ∙ (==_iff (s j) k).0 e)
  | inr e ↦
      let (t, lt, here) = known_loop_sound r (j + skip) skip s k (rw e at h) in
      (suc t, omega arith, ap s (grind arith) ∙ here)
]

rounds_lt : (size skip t : ℕ) → (0 < skip) → (t * skip < size) ↔ (t < (size + skip - 1) / skip)
rounds_lt size skip t h = (λ lt. grind arith, λ lt. grind arith)

module _ (optdata : Words) (kwds : Vector) (skip : ℕ) (pos : 0 < skip) where
  kwdrounds : ℕ
  kwdrounds = (kwds.size + skip - 1) / skip

  known-true :
      (k : Value) → IsKnown kwds skip k → known_loop kwdrounds 0 skip kwds.elements k ≡ true
  unfolding kwdrounds
  known-true k (t, lt, e) =
      known_loop-true _ 0 skip kwds.elements k t (t * skip) ((rounds_lt _ skip t pos).0 lt)
        (omega arith) e

  known-false :
      (k : Value) → ¬ IsKnown kwds skip k → known_loop kwdrounds 0 skip kwds.elements k ≡ false
  unfolding kwdrounds
  known-false k unknown = elim (Bool-cases (known_loop kwdrounds 0 skip kwds.elements k)) [
    | inr e ↦ e
    | inl e ↦
        let (t, lt, here) = known_loop_sound kwdrounds 0 skip kwds.elements k e in
        absurd (
          unknown (t, (rounds_lt kwds.size skip t pos).1 lt, ap kwds.elements (omega arith) ∙ here))
  ]

  unknown_loop-none :
      (m i : ℕ)
      → ((p : ℕ) → p < m → IsKnown kwds skip (optdata (i + twice p)))
      → unknown_loop m i optdata kwds skip ≡ none
  unfolding unknown_loop kwdrounds
  unknown_loop-none zero i h = refl
  unknown_loop-none (suc m) i h =
      let here =
        known-true (optdata i)
          (subst (λ j. IsKnown kwds skip (optdata j)) (omega arith) (h 0 (omega arith))) in
      rw here (
        unknown_loop-none m (i + 2) λ p lt.
          subst (λ j. IsKnown kwds skip (optdata j)) (omega arith) (h (suc p) (omega arith)))

  unknown_loop-some :
      (m i p : ℕ)
      → p < m
      → ¬ IsKnown kwds skip (optdata (i + twice p))
      → ((p' : ℕ) → p' < p → IsKnown kwds skip (optdata (i + twice p')))
      → unknown_loop m i optdata kwds skip ≡ some (optdata (i + twice p))
  unfolding unknown_loop kwdrounds
  unknown_loop-some zero i p lt bad h = elim lt [ ]
  unknown_loop-some (suc m) i zero lt bad h =
      let e : i + 0 ≡ i = omega arith in rw (e, known-false (optdata i) (rw e at bad))
  unknown_loop-some (suc m) i (suc p) lt bad h =
      let e : (j : ℕ) → i + 2 + j ≡ i + suc (suc j) = λ j. omega arith in
      let here =
        known-true (optdata i)
          (subst (λ j. IsKnown kwds skip (optdata j)) (omega arith) (h 0 (omega arith))) in
      rw here (
        unknown_loop-some m (i + 2) p (omega arith)
          (subst (λ j. ¬ IsKnown kwds skip (optdata j)) (sym (e (twice p))) bad)
          (λ p' lt'.
            subst (λ j. IsKnown kwds skip (optdata j)) (sym (e (twice p')))
              (h (suc p') (omega arith)))
        ∙ ap (λ (j : ℕ). some (optdata j)) (e (twice p)))

-- For an even number of optional arguments check_explicit_kwds gives NULL when every keyword is
-- known, and otherwise the first that is not; for an odd number it gives #f.
pub check_explicit_kwds-IsKnown :
    (dfalse : Value) (optionals kwds : Vector) (skip m : ℕ)
    → 0 < skip
    → let keyword = λ (p : ℕ). optionals.elements (twice p) in
      let result = check_explicit_kwds dfalse optionals kwds skip in
      (optionals.size ≡ twice m → ((p : ℕ) → p < m → IsKnown kwds skip (keyword p)) → result ≡ none)
      × (optionals.size ≡ twice m
          → (p : ℕ) → p < m
          → ¬ IsKnown kwds skip (keyword p)
          → ((p' : ℕ) → p' < p → IsKnown kwds skip (keyword p'))
          → result ≡ some (keyword p))
      × (optionals.size ≡ suc (twice m) → result ≡ some dfalse)
unfolding check_explicit_kwds
check_explicit_kwds-IsKnown dfalse optionals kwds skip m pos = (
  λ even known.
      rw (halves.0 even, halves.1 even)
        (unknown_loop-none optionals.elements kwds skip pos m 0 (λ p lt. rw zero-add (known p lt))),
  λ even p lt bad known.
      rw (halves.0 even, halves.1 even)
        (unknown_loop-some optionals.elements kwds skip pos m 0 p lt (rw zero-add bad)
            (λ p' lt'. rw zero-add (known p' lt'))
          ∙ rw zero-add),
  λ odd. rw (halves.2 odd),
)
  where
    halves :
        (optionals.size ≡ twice m → (optionals.size % 2 == 0) ≡ true)
        × (optionals.size ≡ twice m → optionals.size / 2 ≡ m)
        × (optionals.size ≡ suc (twice m) → (optionals.size % 2 == 0) ≡ false)
    halves = (
      λ e. (==_iff _ _).1 (omega (arith, twice-eq m)),
      λ e. omega (arith, twice-eq m),
      λ e. ==_ne _ _ (omega (arith, twice-eq m)),
    )
