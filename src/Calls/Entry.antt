-- ===== src/Calls/Entry.antt =====
-- The external entry points: xep, rest_xep, rest_key_xep and key_mep, with their numbered kin.
pub mod Keyed
pub mod Plain
pub mod Mep
use opendylan.Prelude.{
  ℕ, zero, suc, ◌+◌, ◌-◌, ◌≤◌, ◌<◌, Option, none, some, List, [], ◌∷◌, ltb, if◌then◌else◌, length,
  get_or,
}
use opendylan.Prelude.Loops.{fill}
use opendylan.Prelude.Store.{Ptr, update, copy_words}
use opendylan.Calls.{
  Words, Vector, Method, Runtime, Error, Result, ok, err, check, iep_break, ◌>>=◌, ◌>>◌,
  max_arguments, call_check, required_call_check, optional_call_check, keyword_call_check,
  buffer_varargs, overrun,
}
use opendylan.Calls.Keywords.{process_keyword_call_into}
use opendylan.Values.{Value}

-- The words of `teb` that the calling sequence uses.
pub record Teb : Type 0 where
  pub function : Value
  pub next_methods : Value
  pub arguments : Words
  pub new_arguments : Words

-- The entry of an implementation: the thread's `function` and `next_methods`, the number of
-- parameters and their values, and the #rest vector, if there is one.
pub record Entry : Type 0 where
  pub function : Value
  pub next_methods : Value
  pub count : ℕ
  pub parameters : Words
  pub rest : Option Vector

-- The buffer from an offset on: `&arguments[offset]`.
abbrev pub from : ℕ → Words → Words
from offset arguments i = arguments (offset + i)

-- iep_apply: the parameters are passed one by one, to 64 of them; of more it breaks. The entry
-- points with a number in their name pass that number of parameters themselves.
unfoldable pub iep_entry : (numbered : Option ℕ) → Entry → Result Entry
iep_entry none e = if ltb 64 e.count then err iep_break else ok e
iep_entry (some k) e = ok e

-- xep, for any number of required arguments. It leaves `function` and `next_methods` as they are.
unfoldable pub xep : Runtime → Method → (args : List Value) → Teb → Result Entry
unfolding iep_entry
xep rt fn args teb = do
  arguments ← buffer_varargs args teb.arguments
  let n = length args
  required_call_check rt fn fn.number_required n arguments
  iep_entry none (record {
    function = teb.function;
    next_methods = teb.next_methods;
    count = n;
    parameters = arguments;
    rest = none;
  })

-- xep_0 to xep_9: `number_required` is the number in the name, and the arguments are parameters
-- of the C function.
unfoldable pub xep_numbered :
    Runtime → Method → (number_required : ℕ) → (args : List Value) → Result Entry
xep_numbered rt fn number_required args = do
  let n = length args
  let arguments = λ (i : ℕ). get_or args i 0
  required_call_check rt fn number_required n arguments
  ok (record {
    function = fn.address;
    next_methods = rt.dfalse;
    count = number_required;
    parameters = arguments;
    rest = none;
  })

-- rest_xep. `rest` is the address of the vector on the stack.
unfoldable pub rest_xep :
    Runtime → Method → (rest : Value) → (args : List Value) → Teb → Result Entry
unfolding iep_entry
rest_xep rt fn rest args teb = do
  arguments ← buffer_varargs args teb.arguments
  let n = length args
  let number_required = fn.number_required
  optional_call_check rt fn number_required n arguments
  check (ltb number_required max_arguments) overrun
  let new_arguments = copy_words 0 number_required teb.new_arguments arguments
  iep_entry none (record {
    function = fn.address;
    next_methods = rt.dfalse;
    count = number_required + 1;
    parameters = update new_arguments number_required rest;
    rest = some (record { size = n - number_required; elements = from number_required arguments });
  })

-- rest_key_xep, and rest_key_xep_1 to rest_key_xep_9, which pass `count` parameters, the number
-- in their name; rest_key_xep passes all.
unfoldable pub rest_key_xep :
    Runtime
    → Method
    → (count : Option ℕ) → (rest : Value) → (args : List Value) → Teb
    → Result Entry
unfolding iep_entry
rest_key_xep rt fn count rest args teb = do
  arguments ← buffer_varargs args teb.arguments
  let n = length args
  let number_required = fn.number_required
  keyword_call_check rt fn number_required n arguments
  keyword_call_check rt fn number_required n arguments
  let optionals = from number_required arguments
  let optionals_count = n - number_required
  (new_n, a) ←
      process_keyword_call_into max_arguments teb.new_arguments fn number_required arguments
        optionals_count optionals rest
  iep_entry count (record {
    function = fn.address;
    next_methods = rt.dfalse;
    count = elim count [ none ↦ new_n | some k ↦ k ];
    parameters = a;
    rest = some (record { size = optionals_count; elements = optionals });
  })

-- key_mep and key_mep_1 to key_mep_9, which pass `count` parameters. The arguments, a1 and the
-- others, are the required ones and then the address of the #rest vector `optionals`, which a
-- generic function has collected. The thread's `function` is the method; `a` and `target` are the
-- buffers `teb->a` and `teb->new_arguments`, or `teb->iep_a` in the numbered ones; each has room
-- for MAX_ARGUMENTS.
unfoldable pub key_mep :
    Method
    → (count : Option ℕ) → (args : List Value) → (optionals : Vector) → (a target : Words)
    → (next_methods : Value) → Result Entry
unfolding iep_entry
key_mep fn count args optionals a target next_methods = do
  a ← buffer_varargs args a
  let number_required = fn.number_required
  let rest = a number_required
  (new_n, parameters) ←
      process_keyword_call_into max_arguments target fn number_required a optionals.size
        optionals.elements rest
  iep_entry count (record {
    function = fn.address;
    next_methods = next_methods;
    count = elim count [ none ↦ new_n | some k ↦ k ];
    parameters = parameters;
    rest = some optionals;
  })
