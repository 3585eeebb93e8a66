-- ===== src/Tests/CallTests.antt =====
-- Calls of a method with one required argument and the keyword parameters 11 and 12.
use opendylan.Prelude.{zero, ℕ, suc, ◌<◌, ◌≡◌, refl, List, [], ◌∷◌, none, some, arith, get_or, ◌==◌}
use opendylan.Calls.{
  Words, Vector, Method, Runtime, Result, ok, err, overrun, odd_keyword_arguments, buffer_varargs,
  keyword_call_check, type_check_args,
}
use opendylan.Calls.Entry.Mep.{EntersMep, key_mep-EntersMep}
use opendylan.Calls.Entry.{key_mep, Teb, Entry, rest_key_xep}
use opendylan.Calls.Entry.Keyed.{EntersKeyed, rest_key_xep-EntersKeyed, rest_key_xep-refused}
use opendylan.Calls.Keywords.{process_keyword_call_into}
use opendylan.Calls.Keywords.Bind.{twice, IsBound, process_keyword_call_into-IsBound}
use opendylan.Calls.Keywords.Check.{IsKnown}
use opendylan.Calls.TypeCheck.{AllFit}

abbrev words : List ℕ → Words
words l i = get_or l i 0

abbrev runtime : Runtime
runtime = record { dfalse = 2; object_class = 3; instance_p = λ v t. v == 50 }

abbrev fn : Method
fn = record {
  address = 900;
  number_required = 1;
  specializers = some (λ i. 4);
  keyword_specifiers = record { size = 4; elements = words (11 ∷ 61 ∷ 12 ∷ 62 ∷ []) };
}

abbrev teb : Teb
teb = record { function = 1; next_methods = 1; arguments = λ i. 0; new_arguments = λ i. 0 }

-- The keyword 12 is given twice, and the first value counts; 11 has its default.
abbrev args : List ℕ
args = 50 ∷ 12 ∷ 71 ∷ 12 ∷ 72 ∷ []

fit : AllFit runtime fn 1 (words args)
fit s e i h = ground arith

rest_key_xep-EntersKeyed_example :
    EntersKeyed runtime fn none 80 args teb 2 (rest_key_xep runtime fn none 80 args teb)
rest_key_xep-EntersKeyed_example =
    rest_key_xep-EntersKeyed runtime fn none 80 args teb 2 (omega arith) refl fit (omega arith)

-- The parameters of that call: the argument, the #rest vector, and the two keyword parameters.
parameters_of : Result Entry → List ℕ
parameters_of (err e) = []
parameters_of (ok e) =
    e.count ∷ e.parameters 0 ∷ e.parameters 1 ∷ e.parameters 2 ∷ e.parameters 3 ∷ []

keyword_call : parameters_of (rest_key_xep runtime fn none 80 args teb) ≡ 4 ∷ 50 ∷ 80 ∷ 61 ∷ 71 ∷ []
unfolding parameters_of rest_key_xep buffer_varargs keyword_call_check type_check_args
    process_keyword_call_into
keyword_call = refl

rest_key_xep-refused_example :
    rest_key_xep runtime fn none 80 (50 ∷ 12 ∷ []) teb ≡ err (odd_keyword_arguments 2)
rest_key_xep-refused_example =
    (rest_key_xep-refused runtime fn none 80 (50 ∷ 12 ∷ []) teb).3 0 (omega arith) refl fit_two
  where
    fit_two : AllFit runtime fn 1 (λ i. get_or (50 ∷ 12 ∷ []) i 0)
    fit_two s e i h = ground arith

process_keyword_call_into-IsBound_example :
    ((out : Words) × (process_keyword_call_into 256 teb.new_arguments fn 1
          (words args)
          4
          (words (12 ∷ 71 ∷ 12 ∷ 72 ∷ []))
          80
        ≡ ok (4, out))
      × IsBound 1 2
          (words args)
          fn.keyword_specifiers.elements
          2
          (words (12 ∷ 71 ∷ 12 ∷ 72 ∷ []))
          80
          teb.new_arguments
          out)
    × (process_keyword_call_into 256 teb.new_arguments fn 1
          (words args)
          5
          (words (12 ∷ 71 ∷ 12 ∷ 72 ∷ []))
          80
        ≡ err overrun)
process_keyword_call_into-IsBound_example =
    process_keyword_call_into-IsBound 256 teb.new_arguments fn 1 (words args)
      (words (12 ∷ 71 ∷ 12 ∷ 72 ∷ [])) 80 2 (omega arith)

abbrev unknown : Vector
unknown = record { size = 4; elements = words (12 ∷ 71 ∷ 13 ∷ 72 ∷ []) }

unknown-bad : ¬ IsKnown fn.keyword_specifiers 2 13
unknown-bad (zero, lt, e) = omega arith
unknown-bad (suc zero, lt, e) = omega arith
unknown-bad (suc (suc t), lt, e) = omega arith

unknown-good : (p : ℕ) → p < 1 → IsKnown fn.keyword_specifiers 2 (unknown.elements (twice p))
unknown-good zero lt = (1, omega arith, refl)
unknown-good (suc p) lt = absurd (omega arith)

key_mep-EntersMep_example :
    EntersMep fn none (50 ∷ 80 ∷ []) (words (12 ∷ 71 ∷ [])) (words []) (words []) 2 1 (
      key_mep fn none
        (50 ∷ 80 ∷ [])
        (record { size = 2; elements = words (12 ∷ 71 ∷ []) })
        (words [])
        (words [])
        2)
    × (key_mep fn none
          (50 ∷ 80 ∷ [])
          (record { size = 3; elements = words (12 ∷ 71 ∷ []) })
          (words [])
          (words [])
          2
        ≡ err overrun)
key_mep-EntersMep_example =
    key_mep-EntersMep fn none (50 ∷ 80 ∷ []) (words (12 ∷ 71 ∷ [])) (words []) (words []) 2 1
      (omega arith) (omega arith) (omega arith)
