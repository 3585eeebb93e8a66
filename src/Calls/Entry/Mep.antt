-- ===== src/Calls/Entry/Mep.antt =====
-- The method entry point of methods with keyword parameters.
use opendylan.Prelude.{
  ℕ, suc, ◌+◌, ◌/◌, ◌≤◌, ◌<◌, ◌≡◌, refl, none, some, Option, List, length, get_or,
}
use opendylan.Calls.{Words, Method, Result, ok, err, overrun, max_arguments}
use opendylan.Calls.Entry.{Entry, key_mep}
use opendylan.Calls.Entry.Keyed.{
  buffered, buffered-get_or, buffer_varargs-ok, most_parameters, most_parameters-room, iep_entry-ok,
}
use opendylan.Calls.Keywords.Bind.{twice, IsBound, process_keyword_call_into-IsBound}
use opendylan.Values.{Value}

module _ (fn : Method) (count : Option ℕ) (args : List Value) (elements a target : Words)
    (next_methods : Value) where
  -- The entry that key_mep makes from `m` pairs of optional arguments.
  pub record EntersMep (m : ℕ) (r : Result Entry) : Type 0 where
    pub entry : Entry
    pub entered : r ≡ ok entry
    pub context : (entry.function ≡ fn.address) × (entry.next_methods ≡ next_methods)
    pub arguments : Words
    pub given : (i : ℕ) → i < length args → arguments i ≡ get_or args i 0
    pub bound :
        IsBound fn.number_required
          (fn.keyword_specifiers.size / 2)
          arguments
          fn.keyword_specifiers.elements
          m
          elements
          (arguments fn.number_required)
          target
          entry.parameters

  -- With at most 256 arguments, more than the required ones, at most 64 parameters of the
  -- implementation (256 for an entry point with their number in its name), and a vector of pairs of
  -- optional arguments, key_mep binds the parameters of the implementation from the required
  -- arguments and from that vector, which stays the #rest parameter; a vector of odd size leads to a
  -- read outside it.
  pub key_mep-EntersMep :
      (m : ℕ)
      → length args ≤ max_arguments
      → fn.number_required < length args
      → fn.number_required + fn.keyword_specifiers.size / 2 + 1 ≤ most_parameters count
      → EntersMep m (
          key_mep fn count args
            (record { size = twice m; elements = elements })
            a
            target
            next_methods)
        × (key_mep fn count args
              (record { size = suc (twice m); elements = elements })
              a
              target
              next_methods
            ≡ err overrun)
  unfolding key_mep
  key_mep-EntersMep m small enough few =
      let nr = fn.number_required in
      let b = buffered args a in
      let p =
        process_keyword_call_into-IsBound max_arguments target fn nr b elements (b nr) m
          (most_parameters-room count _ few) in
      let (out, run, bound) = p.0 in
      let made : Entry = record {
        function = fn.address;
        next_methods = next_methods;
        count = elim count [ none ↦ nr + fn.keyword_specifiers.size / 2 + 1 | some k ↦ k ];
        parameters = out;
        rest = some (record { size = twice m; elements = elements });
      } in
      (
        record {
          entry = made;
          entered = rw (buffer_varargs-ok args a small, run) (iep_entry-ok count _ made few refl);
          context = (refl, refl);
          arguments = b;
          given = buffered-get_or args a;
          bound = bound;
        },
        rw (buffer_varargs-ok args a small, p.1),
      )
