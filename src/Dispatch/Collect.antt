-- ===== src/Dispatch/Collect.antt =====
-- The general nodes: the vector of arguments that their callbacks get.
use opendylan.Prelude.{
  ℕ, ◌+◌, ◌-◌, ◌/◌, ◌%◌, ◌≤◌, ◌<◌, ◌≡◌, refl, ap, ◌∙◌, ◌⊎◌, inl, inr, true, false, not, ◌||◌, some,
  List, arith, ltb, ◌==◌, if◌then◌else◌, get_or, Bool-cases,
}
use opendylan.Prelude.Loops.{fill, fill-inside, fill-outside}
use opendylan.Values.{Value}
use opendylan.Calls.{Words, Vector}
use opendylan.Dispatch.{
  Code, Engine, Heap, State, Tail, Dispatcher, calls_back_vector, generic, GenericFunction,
  signature_number_required, signature_optionals_p, implementation_args, parent_gf, stack_vector,
}
use opendylan.Dispatch.Nodes.{
  parent_signature, general_engine_node_n, general_engine_node_spread, spread_optionals,
}
use opendylan.Dispatch.Tree.{Carries}

-- A callback gets a vector with the given elements, the node and its parent.
pub record CallsBack (callback : Code) (size : ℕ) (elements : Words) (node parent : Value)
    (t : Tail) : Type 0 where
  pub vector : Vector
  pub called : t ≡ calls_back_vector callback vector node parent
  pub sized : vector.size ≡ size
  pub filled : (i : ℕ) → i < size → vector.elements i ≡ elements i

pub fill_word : (a : Words) (n : ℕ) (to : Words) (i : ℕ) → i < n → fill 0 a n 0 to i ≡ a i
fill_word a n to i range =
    ap (fill 0 a n 0 to) (omega arith) ∙ fill-inside 0 a n 0 to i (omega arith) (omega arith)

-- The elements of the required arguments and then those of the #rest vector.
abbrev pub followed_by : (nreq : ℕ) → (required optionals : Words) → Words
followed_by nreq required optionals i = if ltb i nreq then required i else optionals (i - nreq)

-- Two copies, one behind the other.
pub copied_behind :
    (nreq : ℕ) (required to : Words) (optionals : Vector) (i : ℕ)
    → i < nreq + optionals.size
    → fill nreq optionals.elements optionals.size 0 (fill 0 required nreq 0 to) i
      ≡ followed_by nreq required optionals.elements i
copied_behind nreq required to optionals i range = elim (Bool-cases (ltb i nreq)) [
  | inl low ↦ rw low (
      fill-outside nreq optionals.elements optionals.size 0 (fill 0 required nreq 0 to) i
        (λ j lo hi. ground arith)
      ∙ fill_word required nreq (to) i (ground arith))
  | inr high ↦
      let above : nreq ≤ i = ground arith in
      let place : i ≡ (i - nreq) + nreq = omega arith in
      rw high (
        ap (fill nreq optionals.elements optionals.size 0 (fill 0 required nreq 0 to)) place
        ∙ fill-inside nreq optionals.elements optionals.size 0 (fill 0 required nreq 0 to)
            (i - nreq) (omega arith) (omega arith))
]

spread_optionals_word :
    (d : Dispatcher) (h : Heap) (nreq : ℕ) (required : Words) (optionals : Vector) (i : ℕ)
    → i < nreq + optionals.size
    → (spread_optionals d h nreq required optionals).elements i
      ≡ followed_by nreq required optionals.elements i
unfolding spread_optionals
spread_optionals_word d h nreq required optionals i range =
    copied_behind nreq required (λ _. 0) optionals i range

optional-cases : (sig : ℕ) → (signature_optionals_p sig ≡ 0) ⊎ (signature_optionals_p sig ≡ 1)
unfolding signature_optionals_p
optional-cases sig = elim (Bool-cases ((sig / 65536) % 2 == 1 || (sig / 262144) % 2 == 1)) [
  | inl b ↦ inr (rw b refl)
  | inr b ↦ inl (rw b refl)
]

-- A call of a general node of a generic function, by which the parameters `p` are carried.
module _ (d : Dispatcher) (h : Heap) (fuel : ℕ) (p : Words) (args : List Value) (e : Engine)
    (s : State) (gf : Value) (g : GenericFunction)
    (parent : parent_gf fuel h s.next_methods ≡ some gf) (at : h.object gf ≡ generic g) where
  abbrev n : ℕ
  n = implementation_args g.signature

  abbrev nreq : ℕ
  nreq = signature_number_required g.signature

  parent_signature_eq : parent_signature d h fuel s.next_methods ≡ some g.signature
  unfolding parent_signature
  parent_signature_eq = rw (parent, parent_signature, at) refl

  -- The node of an absent or an invalidated engine gives its callback all implementation arguments in
  -- a vector, whether they come spread or in a vector.
  pub general_engine_node_n-CallsBack :
      Carries h n p args
      → CallsBack e.callback n p s.function s.next_methods (general_engine_node_n d h fuel args e s)
  unfolding general_engine_node_n stack_vector
  general_engine_node_n-CallsBack c = elim (Bool-cases (ltb 7 n)) [
    | inl many ↦ record {
      vector = h.vector (get_or args 0 0);
      called = rw (parent_signature_eq, general_engine_node_n, many) refl;
      sized = c.boxed_size (ground arith);
      filled = c.boxed_words (ground arith);
    }
    | inr few ↦ record {
      vector = stack_vector n λ i. get_or args i 0;
      called = rw (parent_signature_eq, general_engine_node_n, few) refl;
      sized = refl;
      filled = λ i range.
          fill_word (λ j. get_or args j 0) n (λ _. 0) i range
          ∙ c.spread_words (ground arith) i range;
    }
  ]

  abbrev optional : ℕ
  optional = signature_optionals_p g.signature

  abbrev rest : Vector
  rest = h.vector (p nreq)

  n_eq : n ≡ nreq + optional
  unfolding implementation_args
  n_eq = refl

  required_spread :
      Carries h n p args
      → optional ≡ 0
      → CallsBack e.callback nreq p s.function s.next_methods
          (general_engine_node_spread d h fuel args e s)
  unfolding general_engine_node_spread stack_vector
  required_spread c plain =
      let same : n ≡ nreq = omega (arith, n_eq, plain) in
      let test : not (nreq == n) ≡ false = ground arith in
      elim (Bool-cases (ltb 7 n)) [
        | inl many ↦ record {
          vector = h.vector (get_or args 0 0);
          called = rw (parent_signature_eq, general_engine_node_spread, test, many) refl;
          sized = c.boxed_size (ground arith) ∙ same;
          filled = λ i range. c.boxed_words (ground arith) i (omega arith);
        }
        | inr few ↦ record {
          vector = stack_vector nreq λ i. get_or args i 0;
          called = rw (parent_signature_eq, general_engine_node_spread, test, few) refl;
          sized = refl;
          filled = λ i range.
              fill_word (λ j. get_or args j 0) nreq (λ _. 0) i range
              ∙ c.spread_words (ground arith) i (omega arith);
        }
      ]

  -- The vectors of required arguments and of the optional ones, as they are found in the call.
  module _ (r : Words) (agree : (j : ℕ) → j < nreq + 1 → r j ≡ p j) where
    rest_eq : h.vector (r nreq) ≡ rest
    rest_eq = ap h.vector (agree nreq (omega arith))

    spread_size : (spread_optionals d h nreq r (h.vector (r nreq))).size ≡ nreq + rest.size
    unfolding spread_optionals
    spread_size = ap (λ (v : Vector). nreq + v.size) rest_eq

    spread_word :
        (i : ℕ)
        → i < nreq + rest.size
        → (spread_optionals d h nreq r (h.vector (r nreq))).elements i
          ≡ followed_by nreq p rest.elements i
    spread_word i range =
        ap (λ (v : Vector). (spread_optionals d h nreq r v).elements i) rest_eq
        ∙ spread_optionals_word d h nreq r rest i range
        ∙ elim (Bool-cases (ltb i nreq)) [
          | inl low ↦ rw low (agree i (ground arith))
          | inr high ↦ rw high refl
        ]

  optional_spread :
      Carries h n p args
      → optional ≡ 1
      → CallsBack e.callback
          (nreq + rest.size)
          (followed_by nreq p rest.elements)
          s.function
          s.next_methods
          (general_engine_node_spread d h fuel args e s)
  unfolding general_engine_node_spread
  optional_spread c takes =
      let same : n ≡ nreq + 1 = omega (arith, n_eq, takes) in
      let test : not (nreq == n) ≡ true = ground arith in
      elim (Bool-cases (ltb 7 n)) [
        | inl many ↦
            let r : Words = (h.vector (get_or args 0 0)).elements in
            let agree : (j : ℕ) → j < nreq + 1 → r j ≡ p j =
              λ j below. c.boxed_words (ground arith) j (omega arith) in
            record {
              vector = spread_optionals d h nreq r (h.vector (r nreq));
              called = rw (parent_signature_eq, general_engine_node_spread, test, many) refl;
              sized = spread_size r agree;
              filled = spread_word r agree;
            }
        | inr few ↦
            let r : Words = λ i. get_or args i 0 in
            let agree : (j : ℕ) → j < nreq + 1 → r j ≡ p j =
              λ j below. c.spread_words (ground arith) j (omega arith) in
            record {
              vector = spread_optionals d h nreq r (h.vector (r nreq));
              called = rw (parent_signature_eq, general_engine_node_spread, test, few) refl;
              sized = spread_size r agree;
              filled = spread_word r agree;
            }
      ]

  -- The node of an inapplicable or ambiguous call gives its callback a vector of the required
  -- arguments and, if there is a #rest vector, of its elements after them, whether the
  -- implementation arguments come spread or in a vector.
  pub general_engine_node_spread-CallsBack :
      Carries h n p args
      → ((optional ≡ 0)
          × CallsBack e.callback nreq p s.function s.next_methods
              (general_engine_node_spread d h fuel args e s))
        ⊎ ((optional ≡ 1)
            × CallsBack e.callback
                (nreq + rest.size)
                (followed_by nreq p rest.elements)
                s.function
                s.next_methods
                (general_engine_node_spread d h fuel args e s))
  general_engine_node_spread-CallsBack c = elim (optional-cases g.signature) [
    | inl plain ↦ inl (plain, required_spread c plain)
    | inr takes ↦ inr (takes, optional_spread c takes)
  ]
