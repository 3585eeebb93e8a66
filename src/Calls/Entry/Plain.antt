-- ===== src/Calls/Entry/Plain.antt =====
-- The entry points without keyword parameters: xep, xep_0 to xep_9, and rest_xep.
use opendylan.Prelude.{
  true, false, ℕ, ◌+◌, ◌-◌, ◌≤◌, ◌<◌, ◌≡◌, ◌≢◌, refl, ◌∙◌, none, some, List, arith, length, get_or,
  ◌⊎◌, inl, inr, Bool-cases, ltb, ltb→lt, if◌then◌else◌,
}
use opendylan.Prelude.Store.{update, update_self, update-ne, copy_words}
use opendylan.Calls.{
  Words, Method, Runtime, argument_count_error, overrun, Result, ok, err, max_arguments,
  required_call_check,
}
use opendylan.Calls.Entry.{Teb, Entry, from, iep_entry, xep, xep_numbered, rest_xep}
use opendylan.Calls.Entry.Keyed.{
  buffered, buffered-get_or, buffer_varargs-ok, buffer_varargs-overrun, optional_call_check-ok,
  fit-buffered,
}
use opendylan.Calls.TypeCheck.{AllFit, type_check_args-AllFit}
use opendylan.Values.{Value}

module _ (rt : Runtime) (fn : Method) (args : List Value) (teb : Teb) where
  abbrev nr : ℕ
  nr = fn.number_required

  abbrev n : ℕ
  n = length args

  required_call_check-ok :
      (a : Words)
      → n ≤ max_arguments
      → n ≡ nr
      → AllFit rt fn n a
      → required_call_check rt fn nr n a ≡ ok tt
  unfolding required_call_check
  required_call_check-ok a small e fit =
      rw ((type_check_args-AllFit rt fn n a).0 fit) (ground arith)

  -- The entries that xep and its numbered kin make.
  pub record EntersRequired (r r' : Result Entry) : Type 0 where
    pub general : Entry
    pub numbered : Entry
    pub entered : (r ≡ ok general) × (r' ≡ ok numbered)
    pub counts : (general.count ≡ nr) × (numbered.count ≡ nr)
    pub parameters :
        (i : ℕ)
        → i < nr
        → (general.parameters i ≡ get_or args i 0) × (numbered.parameters i ≡ get_or args i 0)
    pub stale : (general.function ≡ teb.function) × (general.next_methods ≡ teb.next_methods)
    pub fresh : (numbered.function ≡ fn.address) × (numbered.next_methods ≡ rt.dfalse)

  -- For as many fitting arguments as are required, at most 64, xep and the numbered entry point
  -- for that number pass the arguments of the call on. The numbered one makes the method the
  -- thread's function and clears its next methods; xep leaves in both what was there.
  pub xep-EntersRequired :
      n ≤ 64
      → n ≡ nr
      → AllFit rt fn n (λ i. get_or args i 0)
      → EntersRequired (xep rt fn args teb) (xep_numbered rt fn nr args)
  unfolding xep xep_numbered iep_entry
  xep-EntersRequired few e fit =
      let small : n ≤ max_arguments = omega (arith, few) in
      let passed : ltb 64 n ≡ false = ground (arith, few) in
      let b = buffered args teb.arguments in
      let fit' : AllFit rt fn n b =
        λ s h i lt. rw (buffered-get_or args teb.arguments i lt) (fit s h i lt) in
      record {
        general = record {
          function = teb.function;
          next_methods = teb.next_methods;
          count = n;
          parameters = b;
          rest = none;
        };
        numbered = record {
          function = fn.address;
          next_methods = rt.dfalse;
          count = nr;
          parameters = λ i. get_or args i 0;
          rest = none;
        };
        entered = (
          rw (
            buffer_varargs-ok args teb.arguments small,
            required_call_check-ok b small e fit',
            passed,
          ),
          rw (required_call_check-ok (λ i. get_or args i 0) small e fit),
        );
        counts = (e, refl);
        parameters = λ i lt. (buffered-get_or args teb.arguments i (omega arith), refl);
        stale = (refl, refl);
        fresh = (refl, refl);
      }

  -- xep refuses a number of arguments that is not the required one or is above 256: with an
  -- argument-count error, but above 256 it has overrun its buffer before.
  pub xep-refused :
      (max_arguments < n) ⊎ (n ≢ nr)
      → xep rt fn args teb ≡ err (if ltb max_arguments n then overrun else argument_count_error n)
  unfolding xep required_call_check
  xep-refused bad = elim (Bool-cases (ltb max_arguments n)) [
    | inl e ↦
        let big = ltb→lt max_arguments n e in
        rw (buffer_varargs-overrun args teb.arguments big, e) refl
    | inr e ↦
        let small : n ≤ max_arguments = ground (arith, e) in
        rw (buffer_varargs-ok args teb.arguments small, e) (ground (arith, bad, small))
  ]

  -- The entry that rest_xep makes.
  pub record EntersRest (rest : Value) (r : Result Entry) : Type 0 where
    pub entry : Entry
    pub entered : r ≡ ok entry
    pub context : (entry.function ≡ fn.address) × (entry.next_methods ≡ rt.dfalse)
    pub count : entry.count ≡ nr + 1
    pub required : (i : ℕ) → i < nr → entry.parameters i ≡ get_or args i 0
    pub rest_parameter : entry.parameters nr ≡ rest
    pub elements : ℕ → Value
    pub rest_vector : entry.rest ≡ some (record { size = n - nr; elements = elements })
    pub collected : (i : ℕ) → nr + i < n → elements i ≡ get_or args (nr + i) 0

  -- rest_xep passes the required arguments on, of which there are less than 64, and then a vector of
  -- all the others.
  pub rest_xep-EntersRest :
      (rest : Value)
      → n ≤ max_arguments
      → nr ≤ n
      → nr < 64
      → AllFit rt fn nr (λ i. get_or args i 0)
      → EntersRest rest (rest_xep rt fn rest args teb)
  unfolding rest_xep iep_entry
  rest_xep-EntersRest rest small enough few fit =
      let room : ltb nr max_arguments ≡ true = ground (arith, few) in
      let passed : ltb 64 (nr + 1) ≡ false = ground (arith, few) in
      let b = buffered args teb.arguments in
      let fit' = fit-buffered rt fn none rest args teb enough fit in
      let new = copy_words 0 nr teb.new_arguments b in
      record {
        entry = record {
          function = fn.address;
          next_methods = rt.dfalse;
          count = nr + 1;
          parameters = update new nr rest;
          rest = some (record { size = n - nr; elements = from nr b });
        };
        entered = rw (
          buffer_varargs-ok args teb.arguments small,
          optional_call_check-ok rt fn nr n b small enough,
          (type_check_args-AllFit rt fn nr b).0 fit',
          room,
          passed,
        );
        context = (refl, refl);
        count = refl;
        required = λ i lt.
            update-ne new nr rest i (omega arith)
            ∙ ground arith
            ∙ buffered-get_or args teb.arguments i (omega arith);
        rest_parameter = update_self new nr rest;
        elements = from nr b;
        rest_vector = refl;
        collected = λ i lt. buffered-get_or args teb.arguments (nr + i) lt;
      }
