-- ===== src/Dispatch/Keyed/Accept.antt =====
-- A call that reaches a node of a method with keywords: it enters the method, or a trap.
use opendylan.Prelude.{
  true, false, subst, suc, ◌%◌, ==_iff, ==_ne, ℕ, ◌+◌, ◌-◌, ◌≤◌, ◌<◌, ◌≡◌, refl, ap, ◌∙◌, inl, inr,
  none, some, List, arith, leb, ◌==◌, if◌then◌else◌, get_or, Bool-cases,
}
use opendylan.Values.{Value}
use opendylan.Calls.Keywords.Bind.{twice, twice-eq}
use opendylan.Calls.Keywords.Check.{IsKnown, check_unrestricted_kwds, check_explicit_kwds-IsKnown}
use opendylan.Calls.{Words, Vector}
use opendylan.Dispatch.{
  keywords_word, body, Engine, Heap, State, Tail, Dispatcher, odd_keyword_args_trap,
  invalid_keyword_trap, engine_node, method, MethodObject, meth, method_data, stack_vector,
  parent_gf,
}
use opendylan.Dispatch.Nodes.{node_engine, run}
use opendylan.Dispatch.Keyed.{
  How, explicit, implicit, unrestricted, keyed_engine, keyed_engine_n, check_keywords,
  reported_keys, invalid_keyword, keyed_engine_numbered, keyed_engine_vector,
}
use opendylan.Dispatch.Tree.{Carries, advance}
use opendylan.Dispatch.Tree.Reach.{continue, advance-node, run-continue, invoke-node}
use opendylan.Dispatch.Select.{Enters, mep_apply_with_optionals-Enters}
use opendylan.Dispatch.Collect.{fill_word}

-- The trap for a bad keyword: for an odd number of keyword arguments, which #f stands for, or for a
-- keyword that is not known, with the keywords that are.
abbrev pub trap :
    (dfalse : Value)
    → (bad_keyword : Value) → (keys : Value × Value) → (args : Vector) → (gf engine : Value) → Tail
trap dfalse bad_keyword keys args gf engine =
    if bad_keyword == dfalse
    then odd_keyword_args_trap args gf engine
    else invalid_keyword_trap args gf engine bad_keyword keys.0 keys.1

-- A call ends in the trap, with all implementation arguments in a vector.
pub record Traps (dfalse bad_keyword : Value) (keys : Value × Value) (gf engine : Value) (n : ℕ)
    (p : Words) (t : Tail) : Type 0 where
  pub vector : Vector
  pub trapped : t ≡ trap dfalse bad_keyword keys vector gf engine
  pub sized : vector.size ≡ n
  pub filled : (i : ℕ) → i < n → vector.elements i ≡ p i

-- The two entry points of a node, by their parameter.
node_engine-numbered :
    (d : Dispatcher) (h : Heap) (fuel : ℕ) (how : How) (k : ℕ) (args : List Value) (e : Engine)
    (s : State)
    → node_engine d h fuel (keyed_engine how k) args e s
      ≡ keyed_engine_numbered d h fuel how k args e s
unfolding node_engine
node_engine-numbered d h fuel explicit k args e s = refl
node_engine-numbered d h fuel implicit k args e s = refl
node_engine-numbered d h fuel unrestricted k args e s = refl

node_engine-vector :
    (d : Dispatcher) (h : Heap) (fuel : ℕ) (how : How) (args : List Value) (e : Engine) (s : State)
    → node_engine d h fuel (keyed_engine_n how) args e s
      ≡ keyed_engine_vector d h fuel how (get_or args 0 0) e s
unfolding node_engine
node_engine-vector d h fuel explicit args e s = refl
node_engine-vector d h fuel implicit args e s = refl
node_engine-vector d h fuel unrestricted args e s = refl

module _ (d : Dispatcher) (h : Heap) (m : MethodObject) (e : Engine) where
  -- The keywords that a node takes: those of its own vector; those of the method's vector of keywords
  -- and defaults; or all.
  abbrev pub IsTaken : How → Value → Type 0
  IsTaken explicit k = IsKnown (h.vector (keywords_word e)) 1 k
  IsTaken implicit k = IsKnown (h.vector m.keyword_specifiers) 2 k
  IsTaken unrestricted k = Unit {0}

  -- What a trap for a bad keyword is told: the vector of keywords, and whether it has defaults.
  abbrev pub told : How → Value × Value
  told explicit = (keywords_word e, d.runtime.dfalse)
  told implicit = (m.keyword_specifiers, d.dtrue)
  told unrestricted = (d.runtime.dfalse, d.runtime.dfalse)

  told-reported_keys : (how : How) → reported_keys d h how m e ≡ told how
  told-reported_keys explicit = refl
  told-reported_keys implicit = refl
  told-reported_keys unrestricted = refl

  module _ (o : Value) (pairs : ℕ) where
    abbrev pub keyword : ℕ → Value
    keyword q = (h.vector o).elements (twice q)

    check_keywords-none :
        (how : How)
        → (h.vector o).size ≡ twice pairs
        → ((q : ℕ) → q < pairs → IsTaken how (keyword q))
        → check_keywords d h how o m e ≡ none
    unfolding check_keywords check_unrestricted_kwds
    check_keywords-none explicit even all =
        (check_explicit_kwds-IsKnown d.runtime.dfalse (h.vector o) _ 1 pairs (omega arith)).0 even
          all
    check_keywords-none implicit even all =
        (check_explicit_kwds-IsKnown d.runtime.dfalse (h.vector o) _ 2 pairs (omega arith)).0 even
          all
    check_keywords-none unrestricted even all =
        let test : ((h.vector o).size % 2 == 0) ≡ true =
          (==_iff _ _).1 (omega (arith, twice-eq pairs, even)) in
        rw test refl

    check_keywords-unknown :
        (how : How) (q : ℕ)
        → (h.vector o).size ≡ twice pairs
        → q < pairs
        → ¬ IsTaken how (keyword q)
        → ((r : ℕ) → r < q → IsTaken how (keyword r))
        → check_keywords d h how o m e ≡ some (keyword q)
    unfolding check_keywords
    check_keywords-unknown explicit q even lt bad all =
        (check_explicit_kwds-IsKnown d.runtime.dfalse (h.vector o) _ 1 pairs (omega arith)).1 even q
          lt bad all
    check_keywords-unknown implicit q even lt bad all =
        (check_explicit_kwds-IsKnown d.runtime.dfalse (h.vector o) _ 2 pairs (omega arith)).1 even q
          lt bad all
    check_keywords-unknown unrestricted q even lt bad all = absurd (bad tt)

    check_keywords-odd :
        (how : How)
        → (h.vector o).size ≡ suc (twice pairs)
        → check_keywords d h how o m e ≡ some d.runtime.dfalse
    unfolding check_keywords check_unrestricted_kwds
    check_keywords-odd explicit odd =
        (check_explicit_kwds-IsKnown d.runtime.dfalse (h.vector o) _ 1 pairs (omega arith)).2 odd
    check_keywords-odd implicit odd =
        (check_explicit_kwds-IsKnown d.runtime.dfalse (h.vector o) _ 2 pairs (omega arith)).2 odd
    check_keywords-odd unrestricted odd =
        let test : ((h.vector o).size % 2 == 0) ≡ false =
          ==_ne _ _ (omega (arith, twice-eq pairs, odd)) in
        rw test refl

module _ (d : Dispatcher) (h : Heap) (fuel : ℕ) (how : How) (nreq : ℕ) (p : Words)
    (args : List Value) (carries : Carries h (nreq + 1) p args) (leaf parent gf : Value)
    (e : Engine) (m : MethodObject) (c : ℕ) (s : State) (at : h.object leaf ≡ engine_node e)
    (entry : e.entry_point ≡ (if leb nreq 6 then keyed_engine how nreq else keyed_engine_n how))
    (at' : h.object (meth e) ≡ method m) (code : m.mep ≡ body c)
    (found : parent_gf fuel h parent ≡ some gf) where
  abbrev n : ℕ
  n = nreq + 1

  abbrev s' : State
  s' = record s { function = leaf; next_methods = parent }

  -- The call of the node.
  abbrev call : Tail
  call = continue d h fuel 2 (advance h n parent leaf args s)

  call_eq : call ≡ continue d h fuel 1 (node_engine d h fuel e.entry_point args e s')
  unfolding continue run
  call_eq =
      ap (continue d h fuel 2) (advance-node d h fuel n p args carries parent leaf e s at)
      ∙ run-continue d h fuel 1 e.entry_point args s'
      ∙ ap (continue d h fuel 1) (invoke-node d h fuel e.entry_point args s' e at)

  accept_near :
      nreq ≤ 6
      → check_keywords d h how (p nreq) m e ≡ none
      → Enters n p (meth e) (method_data e) c (keyed_engine_numbered d h fuel how nreq args e s')
  unfolding keyed_engine_numbered
  accept_near few good =
      let optionals : get_or args nreq 0 ≡ p nreq =
        carries.spread_words (omega arith) nreq (omega arith) in
      record {
        arguments = args;
        state = record s' { function = meth e; next_methods = method_data e };
        entered = rw (at', keyed_engine_numbered, optionals, good, code) refl;
        function = refl;
        next = refl;
        passed = carries.spread_words (omega arith);
      }

  accept_far :
      n ≤ 64
      → 6 < nreq
      → check_keywords d h how (p nreq) m e ≡ none
      → Enters n p
          (meth e)
          (method_data e)
          c
          (keyed_engine_vector d h fuel how (get_or args 0 0) e s')
  unfolding keyed_engine_vector
  accept_far small many good =
      let size = carries.boxed_size (omega arith) in
      let last : (h.vector (get_or args 0 0)).size - 1 ≡ nreq = omega (arith, size) in
      let optionals = carries.boxed_words (omega arith) nreq (omega arith) in
      rw (at', keyed_engine_vector, last, optionals, good)
        (mep_apply_with_optionals-Enters h (meth e) m c at' code n p (method_data e)
          (get_or args 0 0) s' small size (carries.boxed_words (omega arith)))

  abbrev dfalse : Value
  dfalse = d.runtime.dfalse

  abbrev keys : Value × Value
  keys = reported_keys d h how m e

  invalid_keyword-trap :
      (k : Value) (v : Vector)
      → invalid_keyword d h fuel how k m e v s' ≡ trap dfalse k keys v gf leaf
  unfolding invalid_keyword
  invalid_keyword-trap k v = rw (found, invalid_keyword) refl

  refuse_near :
      (k : Value)
      → nreq ≤ 6
      → check_keywords d h how (p nreq) m e ≡ some k
      → Traps dfalse k keys gf leaf n p (keyed_engine_numbered d h fuel how nreq args e s')
  unfolding keyed_engine_numbered invalid_keyword stack_vector
  refuse_near k few bad =
      let optionals : get_or args nreq 0 ≡ p nreq =
        carries.spread_words (omega arith) nreq (omega arith) in
      record {
        vector = stack_vector n λ i. get_or args i 0;
        trapped =
            rw (at', keyed_engine_numbered, optionals, bad)
              (invalid_keyword-trap k (stack_vector n λ i. get_or args i 0));
        sized = refl;
        filled = λ i range.
            fill_word (λ j. get_or args j 0) n (λ _. 0) i range
            ∙ carries.spread_words (omega arith) i range;
      }

  refuse_far :
      (k : Value)
      → 6 < nreq
      → check_keywords d h how (p nreq) m e ≡ some k
      → Traps dfalse k keys gf leaf n p (keyed_engine_vector d h fuel how (get_or args 0 0) e s')
  unfolding keyed_engine_vector invalid_keyword
  refuse_far k many bad =
      let size = carries.boxed_size (omega arith) in
      let last : (h.vector (get_or args 0 0)).size - 1 ≡ nreq = omega (arith, size) in
      let optionals = carries.boxed_words (omega arith) nreq (omega arith) in
      record {
        vector = h.vector (get_or args 0 0);
        trapped =
            rw (at', keyed_engine_vector, last, optionals, bad)
              (invalid_keyword-trap k (h.vector (get_or args 0 0)));
        sized = size;
        filled = carries.boxed_words (omega arith);
      }

  enters_eq :
      (r : Tail)
      → node_engine d h fuel e.entry_point args e s' ≡ r
      → Enters n p (meth e) (method_data e) c r
      → Enters n p (meth e) (method_data e) c call
  unfolding continue
  enters_eq r same x = record {
    arguments = x.arguments;
    state = x.state;
    entered = call_eq ∙ ap (continue d h fuel 1) (same ∙ x.entered);
    function = x.function;
    next = x.next;
    passed = x.passed;
  }

  continue-trap :
      (k : Value) (v : Vector)
      → continue d h fuel 1 (trap dfalse k keys v gf leaf) ≡ trap dfalse k keys v gf leaf
  unfolding continue
  continue-trap k v = elim (Bool-cases (k == dfalse)) [
    | inl same ↦ rw same refl
    | inr other ↦ rw other refl
  ]

  trapped_vector :
      (k : Value) (r : Tail)
      → node_engine d h fuel e.entry_point args e s' ≡ r
      → Traps dfalse k keys gf leaf n p r
      → Traps dfalse k keys gf leaf n p call
  trapped_vector k r same x = record {
    vector = x.vector;
    trapped = call_eq ∙ ap (continue d h fuel 1) (same ∙ x.trapped) ∙ continue-trap k x.vector;
    sized = x.sized;
    filled = x.filled;
  }

  branches_lem :
      n ≤ 64
      → (check_keywords d h how (p nreq) m e ≡ none → Enters n p (meth e) (method_data e) c call)
        × ((k : Value)
            → check_keywords d h how (p nreq) m e ≡ some k
            → Traps dfalse k keys gf leaf n p call)
  branches_lem small = elim (Bool-cases (leb nreq 6)) [
    | inl near ↦
        let few : nreq ≤ 6 = ground arith in
        let entry' : e.entry_point ≡ keyed_engine how nreq = rw near at entry in
        let node =
          ap (λ k. node_engine d h fuel k args e s') entry'
          ∙ node_engine-numbered d h fuel how nreq args e s' in
        (
          λ good. enters_eq _ node (accept_near few good),
          λ k bad. trapped_vector k _ node (refuse_near k few bad),
        )
    | inr far ↦
        let many : 6 < nreq = ground arith in
        let entry' : e.entry_point ≡ keyed_engine_n how = rw far at entry in
        let node =
          ap (λ k. node_engine d h fuel k args e s') entry'
          ∙ node_engine-vector d h fuel how args e s' in
        (
          λ good. enters_eq _ node (accept_far small many good),
          λ k bad. trapped_vector k _ node (refuse_far k many bad),
        )
  ]

  -- A call with at most 64 implementation arguments that reaches the node of a method with keywords,
  -- of any of the three kinds and by either convention, with the entry point for these and under a
  -- generic function. If the last argument, a vector, has pairs of
  -- keywords that the node takes (IsTaken) and values, the call enters the method with all arguments.
  -- If a keyword is not taken, the call ends in the trap for the first such keyword, with the
  -- keywords of the node, and all arguments in a vector; the trap is the one for an odd number
  -- where that keyword is #f. If the vector has an odd size, the call ends in the trap for that.
  pub keyed_engine-Enters-Traps :
      (pairs : ℕ)
      → n ≤ 64
      → let o = h.vector (p nreq) in
        let key = keyword d h m e (p nreq) pairs in
        let IsGood = λ (q : ℕ). IsTaken d h m e how (key q) in
        (o.size ≡ twice pairs
          → ((q : ℕ) → q < pairs → IsGood q)
          → Enters n p (meth e) (method_data e) c call)
        × ((q : ℕ)
            → o.size ≡ twice pairs
            → q < pairs
            → ¬ IsGood q
            → ((r : ℕ) → r < q → IsGood r)
            → Traps dfalse (key q) (told d h m e how) gf leaf n p call)
        × (o.size ≡ suc (twice pairs) → Traps dfalse dfalse (told d h m e how) gf leaf n p call)
  keyed_engine-Enters-Traps pairs small =
      let same = told-reported_keys d h m e how in
      let trapped : (k : Value)
          → check_keywords d h how (p nreq) m e ≡ some k
          → Traps dfalse k (told d h m e how) gf leaf n p call =
        λ k bad.
          subst (λ t. Traps dfalse k t gf leaf n p call) same ((branches_lem small).1 k bad) in
      (
        λ even all.
            (branches_lem small).0 (check_keywords-none d h m e (p nreq) pairs how even all),
        λ q even lt bad all.
            trapped _ (check_keywords-unknown d h m e (p nreq) pairs how q even lt bad all),
        λ odd. trapped _ (check_keywords-odd d h m e (p nreq) pairs how odd),
      )
