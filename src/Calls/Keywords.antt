-- ===== src/Calls/Keywords.antt =====
-- Keyword arguments: default_arguments, process_keyword_parameters, process_keyword_call_into and
-- the checks of the keyed engine nodes.
pub mod Bind
pub mod Check
use opendylan.Prelude.{
  ℕ, zero, suc, ◌+◌, ◌-◌, ◌*◌, ◌/◌, ◌%◌, ◌<◌, ◌≡◌, Bool, true, false, not, Option, none, some, ltb,
  ◌==◌, if◌then◌else◌,
}
use opendylan.Prelude.Loops.{for_up, fill}
use opendylan.Prelude.Store.{update}
use opendylan.Calls.{Words, Vector, Method, Result, ok, err, overrun, check, ◌>>=◌, ◌>>◌}
use opendylan.Values.{Value}

unfoldable pub default_arguments :
    (number_required : ℕ) → Words → (number_keywords : ℕ) → Words → (offset : ℕ) → Words → Words
default_arguments number_required arguments number_keywords specifiers offset new =
    fill offset (λ i. specifiers (2 * i + 1)) number_keywords 0
      (fill 0 arguments number_required 0 new)

-- The inner loop: the parameter for which `keyword` stands gets `value`. There are `rounds`
-- specifiers left, from `j` on, and `k` is the place of the next parameter.
unfoldable pub assign_keyword : (rounds j k : ℕ) → Words → (keyword value : Value) → Words → Words
assign_keyword zero j k specifiers keyword value new = new
assign_keyword (suc r) j k specifiers keyword value new =
    let rest = assign_keyword r (j + 2) (k + 1) specifiers keyword value new in
    if keyword == specifiers j then update new k value else rest

-- The outer loop, from the last of `count` optional arguments to the first. Of an odd number the
-- last round reads before the array.
unfoldable pub process_keyword_parameters :
    (number_required number_keywords : ℕ) → Words → (count : ℕ) → Words → Words → Result Words
unfolding assign_keyword
process_keyword_parameters number_required number_keywords specifiers zero optional new = ok new
process_keyword_parameters number_required number_keywords specifiers (suc zero) optional new =
    err overrun
process_keyword_parameters number_required number_keywords specifiers (suc (suc n)) optional new =
    process_keyword_parameters number_required number_keywords specifiers n optional (
      assign_keyword number_keywords 0 (number_required + 1) specifiers (optional n)
        (optional (suc n)) new)

-- The new arguments and their number; `rest` is the address of the #rest vector, and `room` the
-- size of the array of new arguments, of which every place up to the last parameter is written.
unfoldable pub process_keyword_call_into :
    (room : ℕ)
    → Words
    → Method
    → (number_required : ℕ) → Words
    → (optionals_count : ℕ) → Words
    → (rest : Value) → Result (ℕ × Words)
unfolding default_arguments process_keyword_parameters
process_keyword_call_into room new fn number_required required optionals_count optional rest =
    let number_keywords = fn.keyword_specifiers.size / 2 in
    let specifiers = fn.keyword_specifiers.elements in
    do
      check (not (ltb room (number_required + number_keywords + 1))) overrun
      let defaulted =
          default_arguments number_required required number_keywords specifiers
            (number_required + 1) new
      processed ←
          process_keyword_parameters number_required number_keywords specifiers optionals_count
            optional defaulted
      ok (number_required + number_keywords + 1, update processed number_required rest)
