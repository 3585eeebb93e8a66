-- ===== src/Calls/TypeCheck.antt =====
-- TYPE_CHECK_ARGS: which arguments pass, and which error is signalled.
use opendylan.Prelude.{
  ℕ, zero, suc, ◌+◌, ◌≤◌, ◌<◌, ◌≡◌, inl, inr, refl, Bool, true, false, ◌||◌, some, arith, ◌==◌,
  Option-cases,
}
use opendylan.Calls.{
  Words, Method, Runtime, type_check_error, ok, err, type_check_loop, type_check_args,
}
use native.Mathlib.Decide.{ℕ_discrete}
use opendylan.Values.{Value}

-- The test of one argument.
abbrev pub accepts : Runtime → (specializer argument : Value) → Bool
accepts rt specializer argument =
    specializer == rt.object_class || rt.instance_p argument specializer

-- The first `n` arguments fit.
abbrev pub AllFit : Runtime → Method → ℕ → Words → Type 0
AllFit rt fn n arguments =
    (specializers : Words)
    → fn.specializers ≡ some specializers
    → (i : ℕ) → i < n
    → accepts rt (specializers i) (arguments i) ≡ true

pub loop-ok :
    (rt : Runtime) (s a : Words) (rounds i : ℕ)
    → ((j : ℕ) → i ≤ j → j < i + rounds → accepts rt (s j) (a j) ≡ true)
    → type_check_loop rt s a rounds i ≡ ok tt
unfolding type_check_loop
loop-ok rt s a zero i h = refl
loop-ok rt s a (suc k) i h =
    rw (h i (omega arith) (omega arith))
      (loop-ok rt s a k (suc i) λ j lo hi. h j (omega arith) (omega arith))

loop-err :
    (rt : Runtime) (s a : Words) (rounds i j : ℕ)
    → i ≤ j
    → j < i + rounds
    → accepts rt (s j) (a j) ≡ false
    → ((p : ℕ) → i ≤ p → p < j → accepts rt (s p) (a p) ≡ true)
    → type_check_loop rt s a rounds i ≡ err (type_check_error (a j) (s j))
unfolding type_check_loop
loop-err rt s a zero i j lo hi bad good = absurd (omega arith)
loop-err rt s a (suc k) i j lo hi bad good = elim (ℕ_discrete i j) [
  | yes e ↦ rw (e, bad)
  | no ne ↦
      rw (good i (omega arith) (omega arith)) (
        loop-err rt s a k (suc i) j (omega arith) (omega arith) bad λ p l h. good p (omega arith) h)
]

-- TYPE_CHECK_ARGS passes where every argument fits its specializer, or there are no
-- specializers; otherwise it signals a type error for the first argument that does not fit.
pub type_check_args-AllFit :
    (rt : Runtime) (fn : Method) (n : ℕ) (a : Words)
    → (AllFit rt fn n a → type_check_args rt fn n a ≡ ok tt)
      × ((s : Words) (j : ℕ)
          → fn.specializers ≡ some s
          → j < n
          → accepts rt (s j) (a j) ≡ false
          → ((p : ℕ) → p < j → accepts rt (s p) (a p) ≡ true)
          → type_check_args rt fn n a ≡ err (type_check_error (a j) (s j)))
unfolding type_check_args
type_check_args-AllFit rt fn n a = (
  λ fit. elim (Option-cases fn.specializers) [
    | inl e ↦ rw e
    | inr (s, e) ↦ rw e (loop-ok rt s a n 0 λ j lo hi. fit s e j (omega arith))
  ],
  λ s j e h bad good.
      rw e (loop-err rt s a n 0 j (omega arith) (omega arith) bad λ p lo hi. good p hi),
)
