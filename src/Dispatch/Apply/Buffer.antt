-- ===== src/Dispatch/Apply/Buffer.antt =====
-- The arguments that `apply` calls a function with.
use opendylan.Prelude.{
  ℕ, ◌+◌, ◌-◌, ◌≤◌, ◌<◌, ◌≡◌, refl, ◌∙◌, inl, inr, true, false, Option, none, some, arith, leb, ltb,
  get_or, Bool-cases,
}
use opendylan.Prelude.Loops.{fill}
use opendylan.Values.{Value}
use opendylan.Calls.{Words, Vector, Result, ok, err, overrun, max_arguments}
use opendylan.Dispatch.{Heap, State, spread}
use opendylan.Dispatch.Generic.Stack.{get_or-spread}
use opendylan.Dispatch.Collect.{followed_by, copied_behind}
use opendylan.Dispatch.Apply.{Applied, xep_apply, apply_buffer, apply_using_buffer}

-- The call that an application ends in.
pub record Applies (fn dfalse : Value) (count : ℕ) (words : Words) (r : Result (Option Applied))
    : Type 0 where
  pub applied : Applied
  pub returned : r ≡ ok (some applied)
  pub callee : applied.callee ≡ fn
  pub counted : applied.count ≡ count
  pub passed : (i : ℕ) → i < count → get_or applied.arguments i 0 ≡ words i
  pub function : applied.state.function ≡ fn
  pub next : applied.state.next_methods ≡ dfalse

module _ (dfalse : Value) (h : Heap) (fn : Value) (n : ℕ) (a buffer : Words) (s : State) where
  abbrev optionals : Vector
  optionals = h.vector (a (n - 1))

  abbrev total : ℕ
  total = (n - 1) + optionals.size

  -- `apply` with `n` arguments, one at least, of which the last is a vector, calls the function with
  -- the others followed by the vector's elements, if these are at most 64 together; its
  -- entry point is told how many they are.
  pub apply_using_buffer-Applies :
      0 < n
      → total ≤ 64
      → Applies fn dfalse total
          (followed_by (n - 1) a optionals.elements)
          (apply_using_buffer dfalse h fn n a buffer s)
  unfolding apply_using_buffer apply_buffer xep_apply
  apply_using_buffer-Applies least small =
      let size : n + optionals.size - 1 ≡ total = omega arith in
      let fits : ltb max_arguments total ≡ false = ground arith in
      let words = fill (n - 1) optionals.elements optionals.size 0 (fill 0 a (n - 1) 0 buffer) in
      let state : State = record s { function = fn; next_methods = dfalse } in
      elim (Bool-cases (leb total 9)) [
        | inl near ↦ record {
          applied = record {
            callee = fn;
            count = total;
            arguments = spread total words;
            state = state;
          };
          returned = rw (size, fits, near) refl;
          callee = refl;
          counted = refl;
          passed = λ i range.
              get_or-spread total words i range ∙ copied_behind (n - 1) a buffer optionals i range;
          function = refl;
          next = refl;
        }
        | inr far ↦
            let whole : ltb 64 total ≡ false = ground arith in
            record {
              applied = record {
                callee = fn;
                count = total;
                arguments = spread 64 words;
                state = state;
              };
              returned = rw (size, fits, far, whole) refl;
              callee = refl;
              counted = refl;
              passed = λ i range.
                  get_or-spread 64 words i (omega arith)
                  ∙ copied_behind (n - 1) a buffer optionals i range;
              function = refl;
              next = refl;
            }
      ]

  -- More than 64 arguments, and at most 256, end in `primitive_break`; more than 256 are written
  -- outside the buffer, which no check prevents.
  pub apply_using_buffer-overrun :
      0 < n
      → (64 < total → total ≤ max_arguments → apply_using_buffer dfalse h fn n a buffer s ≡ ok none)
        × (max_arguments < total → apply_using_buffer dfalse h fn n a buffer s ≡ err overrun)
  unfolding apply_using_buffer apply_buffer xep_apply
  apply_using_buffer-overrun least =
      let size : n + optionals.size - 1 ≡ total = omega arith in
      (
        λ more fit.
            let fits : ltb max_arguments total ≡ false = ground arith in
            let far : leb total 9 ≡ false = ground arith in
            let whole : ltb 64 total ≡ true = ground arith in rw (size, fits, far, whole) refl,
        λ more. let out : ltb max_arguments total ≡ true = ground arith in rw (size, out) refl,
      )
