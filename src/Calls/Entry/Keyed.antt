-- ===== src/Calls/Entry/Keyed.antt =====
-- What the entry points with keyword parameters pass on, and which errors they signal.
use opendylan.Prelude.{
  ℕ, suc, ◌+◌, ◌-◌, ◌/◌, ◌%◌, ◌≤◌, ◌<◌, ◌≡◌, refl, ap, ◌∙◌, true, false, Option, none, some, List,
  arith, ltb, length, get_or, ==_iff, ==_ne,
}
use opendylan.Prelude.Loops.{fill, fill-inside}
use opendylan.Calls.{
  Words, Method, Runtime, argument_count_error, odd_keyword_arguments, overrun, type_check_error,
  Result, ok, err, max_arguments, buffer_varargs, type_check_args, optional_call_check,
  keyword_call_check,
}
use opendylan.Calls.Entry.{Teb, Entry, from, iep_entry, rest_key_xep}
use opendylan.Calls.Keywords.Bind.{twice, twice-eq, IsBound, process_keyword_call_into-IsBound}
use opendylan.Calls.TypeCheck.{accepts, AllFit, type_check_args-AllFit}
use opendylan.Values.{Value}

-- The buffer that BUFFER_VARARGS fills holds the arguments.
pub buffered : List Value → Words → Words
buffered args buffer = fill 0 (λ i. get_or args i 0) (length args) 0 buffer

pub buffered-get_or :
    (args : List Value) (buffer : Words) (i : ℕ)
    → i < length args
    → buffered args buffer i ≡ get_or args i 0
unfolding buffered
buffered-get_or args buffer i h =
    ap (fill 0 (λ (j : ℕ). get_or args j 0) (length args) 0 buffer) (omega arith)
    ∙ fill-inside 0 (λ j. get_or args j 0) (length args) 0 buffer i (omega arith) (omega arith)

pub buffer_varargs-ok :
    (args : List Value) (buffer : Words)
    → length args ≤ max_arguments
    → buffer_varargs args buffer ≡ ok (buffered args buffer)
unfolding buffer_varargs buffered
buffer_varargs-ok args buffer h = ground arith

pub buffer_varargs-overrun :
    (args : List Value) (buffer : Words)
    → max_arguments < length args
    → buffer_varargs args buffer ≡ err overrun
unfolding buffer_varargs
buffer_varargs-overrun args buffer h = ground arith

-- The number of parameters that an entry point can pass: iep_apply, which those without a number in
-- their name call, passes 64, and the buffer has room for 256.
abbrev pub most_parameters : (numbered : Option ℕ) → ℕ
most_parameters none = 64
most_parameters (some k) = max_arguments

pub most_parameters-room :
    (count : Option ℕ) (n : ℕ) → n ≤ most_parameters count → n ≤ max_arguments
most_parameters-room none n h = omega arith
most_parameters-room (some k) n h = h

pub iep_entry-ok :
    (count : Option ℕ) (n : ℕ) (e : Entry)
    → n ≤ most_parameters count
    → e.count ≡ elim count [ none ↦ n | some k ↦ k ]
    → iep_entry count e ≡ ok e
unfolding iep_entry
iep_entry-ok none n e h same =
    let fits : ltb 64 e.count ≡ false = ground (arith, same) in rw fits refl
iep_entry-ok (some k) n e h same = refl

-- The checks in their order.
pub optional_call_check-ok :
    (rt : Runtime) (fn : Method) (nr n : ℕ) (a : Words)
    → n ≤ max_arguments
    → nr ≤ n
    → optional_call_check rt fn nr n a ≡ type_check_args rt fn nr a
unfolding optional_call_check
optional_call_check-ok rt fn nr n a small enough = ground arith

pub optional_call_check-few :
    (rt : Runtime) (fn : Method) (nr n : ℕ) (a : Words)
    → n ≤ max_arguments
    → n < nr
    → optional_call_check rt fn nr n a ≡ err (argument_count_error n)
unfolding optional_call_check
optional_call_check-few rt fn nr n a small few = ground arith

module _ (rt : Runtime) (fn : Method) (count : Option ℕ) (rest : Value) (args : List Value)
    (teb : Teb) where
  abbrev nr : ℕ
  nr = fn.number_required

  abbrev n : ℕ
  n = length args

  -- The arguments that the call gives are those in the buffer.
  pub fit-buffered :
      nr ≤ n
      → AllFit rt fn nr (λ i. get_or args i 0)
      → AllFit rt fn nr (buffered args teb.arguments)
  fit-buffered enough fit s e i h =
      rw (buffered-get_or args teb.arguments i (omega arith)) (fit s e i h)

  keyword_call_check-pairs :
      (m : ℕ)
      → n ≤ max_arguments
      → n ≡ nr + twice m
      → AllFit rt fn nr (λ i. get_or args i 0)
      → keyword_call_check rt fn nr n (buffered args teb.arguments) ≡ ok tt
  unfolding keyword_call_check
  keyword_call_check-pairs m small e fit = rw (
    optional_call_check-ok rt fn nr n (buffered args teb.arguments) small (omega arith),
    (type_check_args-AllFit rt fn nr (buffered args teb.arguments)).0
        (fit-buffered (omega arith) fit),
    (==_iff ((n - nr) % 2) 0).1 (omega (arith, twice-eq m)),
  )

  -- The entry that a good call makes.
  pub record EntersKeyed (m : ℕ) (r : Result Entry) : Type 0 where
    pub entry : Entry
    pub entered : r ≡ ok entry
    pub function : entry.function ≡ fn.address
    pub next_methods : entry.next_methods ≡ rt.dfalse
    pub arguments : Words
    pub buffered : (i : ℕ) → i < n → arguments i ≡ get_or args i 0
    pub number :
        entry.count
        ≡ elim count [ none ↦ fn.number_required + fn.keyword_specifiers.size / 2 + 1 | some k ↦ k ]
    pub bound :
        IsBound fn.number_required
          (fn.keyword_specifiers.size / 2)
          arguments
          fn.keyword_specifiers.elements
          m
          (from fn.number_required arguments)
          rest
          teb.new_arguments
          entry.parameters
    pub rest_vector :
        entry.rest ≡ some (record { size = twice m; elements = from fn.number_required arguments })

  -- A call of at most 256 arguments with the required ones, all fitting, and pairs of optional
  -- ones enters the implementation, with each parameter bound as IsBound says, if the implementation
  -- has at most 64 parameters, or at most 256 where the entry point has their number in its name.
  pub rest_key_xep-EntersKeyed :
      (m : ℕ)
      → n ≤ max_arguments
      → n ≡ nr + twice m
      → AllFit rt fn nr (λ i. get_or args i 0)
      → nr + fn.keyword_specifiers.size / 2 + 1 ≤ most_parameters count
      → EntersKeyed m (rest_key_xep rt fn count rest args teb)
  unfolding rest_key_xep
  rest_key_xep-EntersKeyed m small e fit few =
      let b = buffered args teb.arguments in
      let left : n - nr ≡ twice m = omega arith in
      let (out, run, bound) =
        (process_keyword_call_into-IsBound max_arguments teb.new_arguments fn nr b (from nr b) rest
          m (most_parameters-room count _ few)).0 in
      let made : Entry = record {
        function = fn.address;
        next_methods = rt.dfalse;
        count = elim count [ none ↦ nr + fn.keyword_specifiers.size / 2 + 1 | some k ↦ k ];
        parameters = out;
        rest = some (record { size = twice m; elements = from nr b });
      } in
      record {
        entry = made;
        entered =
            rw
              (
                buffer_varargs-ok args teb.arguments small,
                keyword_call_check-pairs m small e fit,
                left,
                run,
              )
              (iep_entry-ok count _ made few refl);
        function = refl;
        next_methods = refl;
        arguments = b;
        buffered = buffered-get_or args teb.arguments;
        number = refl;
        bound = bound;
        rest_vector = refl;
      }

  -- What a call is refused with, in the order of the tests: a count above the room of the buffer
  -- overruns it before any test, then too few arguments, then one that does not fit, then an odd
  -- number of optional ones.
  pub rest_key_xep-refused :
      (max_arguments < n → rest_key_xep rt fn count rest args teb ≡ err overrun)
      × (n ≤ max_arguments
          → n < nr
          → rest_key_xep rt fn count rest args teb ≡ err (argument_count_error n))
      × (n ≤ max_arguments
          → nr ≤ n
          → (s : Words) (j : ℕ) → fn.specializers ≡ some s
          → j < nr
          → accepts rt (s j) (get_or args j 0) ≡ false
          → ((p : ℕ) → p < j → accepts rt (s p) (get_or args p 0) ≡ true)
          → rest_key_xep rt fn count rest args teb ≡ err (type_check_error (get_or args j 0) (s j)))
      × ((m : ℕ)
          → n ≤ max_arguments
          → n ≡ nr + suc (twice m)
          → AllFit rt fn nr (λ i. get_or args i 0)
          → rest_key_xep rt fn count rest args teb ≡ err (odd_keyword_arguments n))
  unfolding rest_key_xep keyword_call_check
  rest_key_xep-refused =
      let b = buffered args teb.arguments in
      let checks = optional_call_check-ok rt fn nr n b in
      (
        λ big. rw (buffer_varargs-overrun args teb.arguments big),
        λ small few. rw (
          buffer_varargs-ok args teb.arguments small,
          optional_call_check-few rt fn nr n b small few,
        ),
        λ small enough s j e h bad good. rw (
          buffer_varargs-ok args teb.arguments small,
          checks small enough,
          (type_check_args-AllFit rt fn nr b).1 s j e h
              (rw (buffered-get_or args teb.arguments j (omega arith)) bad)
              (λ p lt. rw (buffered-get_or args teb.arguments p (omega arith)) (good p lt)),
          buffered-get_or args teb.arguments j (omega arith),
        ),
        λ m small e fit. rw (
          buffer_varargs-ok args teb.arguments small,
          checks small (omega arith),
          (type_check_args-AllFit rt fn nr b).0 (fit-buffered (omega arith) fit),
          ==_ne ((n - nr) % 2) 0 (omega (arith, twice-eq m)),
        ),
      )
