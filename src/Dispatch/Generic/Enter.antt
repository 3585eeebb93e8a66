-- ===== src/Dispatch/Generic/Enter.antt =====
-- What a call of a generic function passes to its engine.
use opendylan.Prelude.{
  ℕ, ◌+◌, ◌-◌, ◌≤◌, ◌<◌, ◌≡◌, ◌≢◌, refl, sym, ap, ◌∙◌, ◌⊎◌, inl, inr, true, false, List, [], ◌∷◌,
  arith, leb, length, get_or, Bool-cases,
}
use native.Mathlib.Decide.{ℕ_discrete}
use opendylan.Prelude.Store.{update, update-ne}
use opendylan.Values.{Value}
use opendylan.Calls.{
  Words, Vector, Result, ok, err, call_check, argument_count_error, max_arguments,
}
use opendylan.Calls.Entry.{from}
use opendylan.Calls.Entry.Keyed.{buffered, buffered-get_or, buffer_varargs-ok}
use opendylan.Dispatch.{
  Heap, State, GenericFunction, spread, signature_number_required, signature_optionals_p,
}
use opendylan.Dispatch.Nodes.{goto_node, goto_node_n}
use opendylan.Dispatch.Tree.{Carries, advance}
use opendylan.Dispatch.Generic.{
  Started, generic_function_xep, basic_required_call_check, basic_optional_call_check,
  def_stack_vector, vector_ref_setter, gf_iep, gf_iep_numbered, call_gf_xep, call_gf_xep_numbered,
  call_gf_optional_xep, call_gf_optional_xep_numbered, call_generic_function,
}
use opendylan.Dispatch.Generic.Stack.{
  length-spread, get_or-spread, stack_vector_object, stack_vector_size, stack_vector_words,
  stack_vector_other, element_set_self, element_set_other, element_set_object, Carries-few,
  Carries-many, basic_required_call_check-fails, basic_optional_call_check-fails,
}

module _ (fn : Value) (gf : GenericFunction) (new_arguments rest_arguments : Value)
    (arguments : Words) (h : Heap) (args : List Value) (s : State) where
  abbrev nr : ℕ
  nr = signature_number_required gf.signature

  -- The engine is called with parameters, of which the thread's function is the parent.
  pub record Starts (n : ℕ) (p : Words) (r : Result Started) : Type 0 where
    pub started : Started
    pub passed : List Value
    pub state : State
    pub returned : r ≡ ok started
    pub entered : started.tail ≡ advance started.heap n fn gf.engine passed state
    pub carried : Carries started.heap n p passed
    pub objects : started.heap.object ≡ h.object

  abbrev parameters : Words
  parameters i = get_or args i 0

  abbrev n : ℕ
  n = length args

  required_numbered :
      n ≡ nr
      → nr ≤ 7
      → Starts nr parameters
          (call_gf_xep_numbered fn gf new_arguments rest_arguments arguments h args s nr)
  unfolding call_gf_xep_numbered basic_required_call_check call_check gf_iep_numbered advance
  required_numbered count few =
      let near : leb nr 7 ≡ true = ground arith in
      let state : State = record s { function = fn } in
      let passes : basic_required_call_check nr n ≡ ok tt = ground arith in
      record {
        started = record { heap = h; tail = goto_node h fn gf.engine args state };
        passed = args;
        state = state;
        returned = rw (passes) refl;
        entered = rw (near) refl;
        carried = Carries-few h nr parameters args few count λ i range. refl;
        objects = refl;
      }

  required_vector :
      n ≡ nr
      → n ≤ max_arguments
      → 7 < nr
      → Starts nr parameters (call_gf_xep fn gf new_arguments rest_arguments arguments h args s)
  unfolding call_gf_xep basic_required_call_check call_check gf_iep advance
  required_vector count small many =
      let far : leb nr 7 ≡ false = ground arith in
      let state : State = record s { function = fn } in
      let passes : basic_required_call_check nr n ≡ ok tt = ground arith in
      let buffer = buffered args arguments in
      let h' = def_stack_vector new_arguments nr buffer nr h in
      record {
        started = record { heap = h'; tail = goto_node_n h' fn gf.engine new_arguments state };
        passed = new_arguments ∷ [];
        state = state;
        returned = rw (buffer_varargs-ok args arguments small, passes) refl;
        entered = rw (far) refl;
        carried =
            Carries-many h' nr parameters new_arguments many
              (stack_vector_size new_arguments nr buffer nr h)
              λ i range.
                stack_vector_words new_arguments nr buffer nr h i range
                ∙ buffered-get_or args arguments i (omega arith);
        objects = stack_vector_object new_arguments nr buffer nr h;
      }

  -- The parameters of a call with optionals: the required arguments, and the #rest vector.
  abbrev optional_parameters : Words
  optional_parameters = update parameters nr rest_arguments

  -- The engine is called with the other arguments in the #rest vector.
  pub record StartsOptional (r : Result Started) : Type 0 where
    pub starts : Starts (nr + 1) optional_parameters r
    pub rest_size : (starts.started.heap.vector rest_arguments).size ≡ n - nr
    pub rest_words :
        (i : ℕ)
        → i < n - nr
        → (starts.started.heap.vector rest_arguments).elements i ≡ get_or args (nr + i) 0

  rest_word : (i : ℕ) → i < n - nr → from nr (buffered args arguments) i ≡ get_or args (nr + i) 0
  rest_word i range = buffered-get_or args arguments (nr + i) (omega arith)

  optional_word :
      nr ≤ n
      → (i : ℕ) → i < nr + 1
      → update (buffered args arguments) nr rest_arguments i ≡ optional_parameters i
  optional_word enough i range = elim (ℕ_discrete i nr) [
    | yes e ↦ ground arith
    | no ne ↦
        update-ne (buffered args arguments) nr rest_arguments i ne
        ∙ buffered-get_or args arguments i (omega arith)
        ∙ sym (update-ne parameters nr rest_arguments i ne)
  ]

  optional_numbered :
      nr ≤ n
      → n ≤ max_arguments
      → nr ≤ 6
      → StartsOptional
          (call_gf_optional_xep_numbered fn gf new_arguments rest_arguments arguments h args s nr)
  unfolding call_gf_optional_xep_numbered basic_optional_call_check call_check gf_iep_numbered
      advance
  optional_numbered enough small few =
      let near : leb (nr + 1) 7 ≡ true = ground arith in
      let state : State = record s { function = fn } in
      let passes : basic_optional_call_check nr n ≡ ok tt = ground arith in
      let buffer = buffered args arguments in
      let rest = from nr buffer in
      let h' = def_stack_vector rest_arguments (n - nr) rest (n - nr) h in
      let passed = spread (nr + 1) (update buffer nr rest_arguments) in
      record {
        starts = record {
          started = record { heap = h'; tail = goto_node h' fn gf.engine passed state };
          passed = passed;
          state = state;
          returned = rw (passes, buffer_varargs-ok args arguments small) refl;
          entered = rw (near) refl;
          carried =
              Carries-few h' (nr + 1) optional_parameters passed (omega arith)
                (length-spread (nr + 1) _)
                λ i range.
                  get_or-spread (nr + 1) (update buffer nr rest_arguments) i range
                  ∙ optional_word enough i range;
          objects = stack_vector_object rest_arguments (n - nr) rest (n - nr) h;
        };
        rest_size = stack_vector_size rest_arguments (n - nr) rest (n - nr) h;
        rest_words = λ i range.
            stack_vector_words rest_arguments (n - nr) rest (n - nr) h i range ∙ rest_word i range;
      }

  -- The elements that the vector of more than seven parameters gets.
  boxed_word :
      (elements : Words)
      → ((i : ℕ) → i < nr → elements i ≡ get_or args i 0)
      → (i : ℕ) → i < nr + 1
      → update elements nr rest_arguments i ≡ optional_parameters i
  boxed_word elements words i range = elim (ℕ_discrete i nr) [
    | yes e ↦ ground arith
    | no ne ↦
        update-ne elements nr rest_arguments i ne
        ∙ words i (omega arith)
        ∙ sym (update-ne parameters nr rest_arguments i ne)
  ]

  optional_vector :
      rest_arguments ≢ new_arguments
      → nr ≤ n
      → n ≤ max_arguments
      → 6 < nr
      → StartsOptional (call_gf_optional_xep fn gf new_arguments rest_arguments arguments h args s)
  unfolding call_gf_optional_xep basic_optional_call_check call_check gf_iep advance
  optional_vector apart enough small many =
      let far : leb (nr + 1) 7 ≡ false = ground arith in
      let state : State = record s { function = fn } in
      let passes : basic_optional_call_check nr n ≡ ok tt = ground arith in
      let buffer = buffered args arguments in
      let rest = from nr buffer in
      let h₁ = def_stack_vector new_arguments (nr + 1) buffer nr h in
      let h₂ = def_stack_vector rest_arguments (n - nr) rest (n - nr) h₁ in
      let h₃ = vector_ref_setter rest_arguments new_arguments nr h₂ in
      let new_self = element_set_self rest_arguments new_arguments nr h₂ in
      let new_before =
        stack_vector_other rest_arguments (n - nr) rest (n - nr) h₁ new_arguments
          λ e. apart (sym e) in
      let rest_self = element_set_other rest_arguments new_arguments nr h₂ rest_arguments apart in
      record {
        starts = record {
          started = record { heap = h₃; tail = goto_node_n h₃ fn gf.engine new_arguments state };
          passed = new_arguments ∷ [];
          state = state;
          returned = rw (buffer_varargs-ok args arguments small, passes) refl;
          entered = rw (far) refl;
          carried =
              Carries-many h₃ (nr + 1) optional_parameters new_arguments (omega arith)
                (ap (λ (v : Vector). v.size) new_self
                  ∙ ap (λ (v : Vector). v.size) new_before
                  ∙ stack_vector_size new_arguments (nr + 1) buffer nr h)
                λ i range.
                  ap (λ (v : Vector). v.elements i) new_self
                  ∙ boxed_word _
                      (λ j below.
                        ap (λ (v : Vector). v.elements j) new_before
                        ∙ stack_vector_words new_arguments (nr + 1) buffer nr h j below
                        ∙ buffered-get_or args arguments j (omega arith))
                      i range;
          objects =
              element_set_object rest_arguments new_arguments nr h₂
              ∙ stack_vector_object rest_arguments (n - nr) rest (n - nr) h₁
              ∙ stack_vector_object new_arguments (nr + 1) buffer nr h;
        };
        rest_size =
            ap (λ (v : Vector). v.size) rest_self
            ∙ stack_vector_size rest_arguments (n - nr) rest (n - nr) h₁;
        rest_words = λ i range.
            ap (λ (v : Vector). v.elements i) rest_self
            ∙ stack_vector_words rest_arguments (n - nr) rest (n - nr) h₁ i range
            ∙ rest_word i range;
      }

  abbrev call : Result Started
  call =
      call_generic_function fn gf new_arguments rest_arguments arguments h args s
        (generic_function_xep gf.signature)

  -- A generic function without optionals, called with as many arguments as it requires, through the
  -- entry point that is installed for its signature, calls its engine with the arguments.
  pub call_generic_function-Starts :
      signature_optionals_p gf.signature ≡ 0
      → n ≡ nr
      → n ≤ max_arguments
      → Starts nr parameters call
  unfolding generic_function_xep call_generic_function
  call_generic_function-Starts plain count small = elim (Bool-cases (leb nr 7)) [
    | inl near ↦ rw (plain, near) (required_numbered count (ground arith))
    | inr far ↦ rw (plain, far) (required_vector count small (ground arith))
  ]

  -- A generic function with optionals, called with at least as many arguments as it requires, and
  -- at most 256, calls its engine with the required arguments and a vector of the others.
  pub call_generic_function-StartsOptional :
      signature_optionals_p gf.signature ≡ 1
      → rest_arguments ≢ new_arguments
      → nr ≤ n
      → n ≤ max_arguments
      → StartsOptional call
  unfolding generic_function_xep call_generic_function
  call_generic_function-StartsOptional optional apart enough small = elim (Bool-cases (leb nr 6)) [
    | inl near ↦ rw (optional, near) (optional_numbered enough small (ground arith))
    | inr far ↦ rw (optional, far) (optional_vector apart enough small (ground arith))
  ]

  -- The number of arguments is wrong, and no engine is entered: an error is signalled.
  pub call_generic_function-argument_count_error :
      n ≤ max_arguments
      → ((signature_optionals_p gf.signature ≡ 0) × (n ≢ nr))
        ⊎ ((signature_optionals_p gf.signature ≡ 1) × (n < nr))
      → call ≡ err (argument_count_error n)
  unfolding generic_function_xep call_generic_function call_gf_xep_numbered call_gf_xep
      call_gf_optional_xep_numbered call_gf_optional_xep
  call_generic_function-argument_count_error small (inl (plain, wrong)) =
      let fails = basic_required_call_check-fails nr n small wrong in
      elim (Bool-cases (leb nr 7)) [
        | inl near ↦ rw (plain, near, fails) refl
        | inr far ↦ rw (plain, far, buffer_varargs-ok args arguments small, fails) refl
      ]
  call_generic_function-argument_count_error small (inr (optional, few)) =
      let fails = basic_optional_call_check-fails nr n small few in
      elim (Bool-cases (leb nr 6)) [
        | inl near ↦ rw (optional, near, fails) refl
        | inr far ↦ rw (optional, far, buffer_varargs-ok args arguments small, fails) refl
      ]
