-- ===== src/Calls.antt =====
-- Calls of methods through their entry points: the keyword processing and the external entry
-- points (XEPs) of sources/lib/run-time/c-run-time.c.
pub mod Keywords
pub mod TypeCheck
pub mod Entry
pub mod Returns
use opendylan.Prelude.{
  ℕ, zero, suc, ◌+◌, ◌-◌, ◌*◌, ◌/◌, ◌%◌, ◌<◌, ◌≡◌, Bool, true, false, ◌||◌, not, Option, none, some,
  List, [], ◌∷◌, ltb, ◌==◌, if◌then◌else◌, length, get_or,
}
use opendylan.Prelude.Loops.{for_up, fill}
use opendylan.Prelude.Store.{Ptr, null, update}
use opendylan.Values.{Value}

-- An array of words: a buffer, or the data of a vector.
abbrev pub Words : Type 0
Words = ℕ → Value

-- A `dylan_simple_object_vector`.
pub record Vector : Type 0 where
  pub size : ℕ
  pub elements : Words

-- What the entry points read of a method and of its signature. `specializers` is none where
-- `sig->required` is NULL.
pub record Method : Type 0 where
  pub address : Ptr
  pub number_required : ℕ
  pub specializers : Option Words
  pub keyword_specifiers : Vector

-- Values that the run-time knows, and its test `primitive_instanceQ`, which is Dylan code.
pub record Runtime : Type 0 where
  pub dfalse : Value
  pub object_class : Value
  pub instance_p : Value → Value → Bool

-- The errors that are signalled, with the argument count or the value and its type. Signalling
-- does not return. `overrun` is a read or write outside an array of the C code, and `iep_break`
-- the primitive_break of iep_apply.
pub data Error : Type 0 where
  argument_count_overflow : ℕ → Error
  argument_count_error : ℕ → Error
  odd_keyword_arguments : ℕ → Error
  type_check_error : Value → Value → Error
  overrun : Error
  iep_break : Error

pub data Result {ℓ} (A : Type ℓ) : Type ℓ where
  ok : A → Result A
  err : Error → Result A

-- An error ends the call: what would follow it does not run.
infixl 5 ◌>>=◌ ◌>>◌
abbrev pub ◌>>=◌ {ℓ} : {A B : Type ℓ} (r : Result A) (next : A → Result B) → Result B
err signalled >>= next = err signalled
ok value >>= next = next value

-- A signalled error, unless the condition holds.
abbrev pub check : Bool → Error → Result (Unit {0})
check passes e = if passes then ok tt else err e

abbrev pub ◌>>◌ : {B : Type 0} → Result (Unit {0}) → Result B → Result B
m >> k = m >>= λ _. k

abbrev pub max_arguments : ℕ
max_arguments = 256

-- TYPE_CHECK_ARG: a type that is <object> is not tested.
unfoldable pub type_check_arg : Runtime → (specializer argument : Value) → Result (Unit {0})
type_check_arg rt specializer argument =
    check (specializer == rt.object_class || rt.instance_p argument specializer)
      (type_check_error argument specializer)

unfoldable pub type_check_loop : Runtime → Words → Words → (rounds i : ℕ) → Result (Unit {0})
unfolding type_check_arg
type_check_loop rt specializers arguments zero i = ok tt
type_check_loop rt specializers arguments (suc k) i =
    let rest = type_check_loop rt specializers arguments k (suc i) in
    type_check_arg rt (specializers i) (arguments i) >> rest

unfoldable pub type_check_args : Runtime → Method → (argument_count : ℕ) → Words → Result (Unit {0})
unfolding type_check_loop
type_check_args rt fn argument_count arguments = elim fn.specializers [
  | none ↦ ok tt
  | some specializers ↦ type_check_loop rt specializers arguments argument_count 0
]

-- CALL_CHECK
unfoldable pub call_check : (argument_count : ℕ) → Result (Unit {0})
call_check n = check (not (ltb max_arguments n)) (argument_count_overflow n)

unfoldable pub required_call_check :
    Runtime → Method → (number_required argument_count : ℕ) → Words → Result (Unit {0})
unfolding call_check
required_call_check rt fn number_required n arguments = do
  call_check n
  check (n == number_required) (argument_count_error n)
  type_check_args rt fn n arguments

unfoldable pub optional_call_check :
    Runtime → Method → (number_required argument_count : ℕ) → Words → Result (Unit {0})
unfolding call_check
optional_call_check rt fn number_required n arguments = do
  call_check n
  check (not (ltb n number_required)) (argument_count_error n)
  type_check_args rt fn number_required arguments

unfoldable pub keyword_call_check :
    Runtime → Method → (number_required argument_count : ℕ) → Words → Result (Unit {0})
unfolding optional_call_check
keyword_call_check rt fn number_required n arguments = do
  optional_call_check rt fn number_required n arguments
  check ((n - number_required) % 2 == 0) (odd_keyword_arguments n)

-- BUFFER_VARARGS(n, ..., buffer): the `n` arguments of the call are written to `teb->arguments`,
-- which has room for MAX_ARGUMENTS.
unfoldable pub buffer_varargs : List Value → Words → Result Words
buffer_varargs args buffer =
    if ltb max_arguments (length args)
    then err overrun
    else ok (fill 0 (λ i. get_or args i 0) (length args) 0 buffer)
