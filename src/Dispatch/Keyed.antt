-- ===== src/Dispatch/Keyed.antt =====
-- The engine nodes of one method with keywords: DEFINE_KEYED_SINGLE_METHOD_ENGINE and
-- DEFINE_KEYED_SINGLE_METHOD_ENGINE_UNSPREAD, of sources/lib/run-time/c-run-time.c.
pub mod Accept
use opendylan.Prelude.{ℕ, ◌+◌, ◌-◌, Option, none, some, List, leb, ◌==◌, if◌then◌else◌, get_or}
use opendylan.Values.{Value}
use opendylan.Calls.{Words, Vector}
use opendylan.Calls.Keywords.Check.{check_explicit_kwds, check_unrestricted_kwds}
use opendylan.Dispatch.{
  Code, Engine, MethodObject, Heap, State, Tail, Dispatcher, enters, odd_keyword_args_trap,
  invalid_keyword_trap, wanders, method, explicit_keyed_single_method_engine,
  implicit_keyed_single_method_engine, unrestricted_keyed_single_method_engine,
  explicit_keyed_single_method_engine_n, implicit_keyed_single_method_engine_n,
  unrestricted_keyed_single_method_engine_n, meth, method_data, keywords_word, stack_vector,
  mep_apply_with_optionals, parent_gf,
}

-- The parameter `_how` of the macros.
pub data How : Type 0 where
  explicit implicit unrestricted : How

-- The entry points of the nodes, numbered by the required arguments, and for vectors.
abbrev pub keyed_engine : How → (nreq : ℕ) → Code
keyed_engine explicit nreq = explicit_keyed_single_method_engine nreq
keyed_engine implicit nreq = implicit_keyed_single_method_engine nreq
keyed_engine unrestricted nreq = unrestricted_keyed_single_method_engine nreq

abbrev pub keyed_engine_n : How → Code
keyed_engine_n explicit = explicit_keyed_single_method_engine_n
keyed_engine_n implicit = implicit_keyed_single_method_engine_n
keyed_engine_n unrestricted = unrestricted_keyed_single_method_engine_n

module _ (d : Dispatcher) (h : Heap) where
  -- CHECK_KEYWORDS_explicit, _implicit and _unrestricted: a bad keyword, or none.
  unfoldable pub check_keywords : How → (optionals : Value) → MethodObject → Engine → Option Value
  unfolding check_explicit_kwds check_unrestricted_kwds
  check_keywords explicit optionals m e =
      check_explicit_kwds d.runtime.dfalse (h.vector optionals) (h.vector (keywords_word e)) 1
  check_keywords implicit optionals m e =
      check_explicit_kwds d.runtime.dfalse (h.vector optionals) (h.vector m.keyword_specifiers) 2
  check_keywords unrestricted optionals m e =
      check_unrestricted_kwds d.runtime.dfalse (h.vector optionals)

  -- The keywords that INVALID_KEYWORD_explicit and its kin report, and whether they are implicit.
  abbrev pub reported_keys : How → MethodObject → Engine → Value × Value
  reported_keys explicit m e = (keywords_word e, d.runtime.dfalse)
  reported_keys implicit m e = (m.keyword_specifiers, d.dtrue)
  reported_keys unrestricted m e = (d.runtime.dfalse, d.runtime.dfalse)

  -- INVALID_KEYWORD_explicit and its kin
  unfoldable pub invalid_keyword :
      (fuel : ℕ)
      → How
      → (bad_keyword : Value) → MethodObject
      → Engine
      → (args : Vector) → State
      → Tail
  unfolding parent_gf
  invalid_keyword fuel how bad_keyword m e args s = elim (parent_gf fuel h s.next_methods) [
    | none ↦ wanders
    | some gf ↦
        let keys = reported_keys how m e in
        if bad_keyword == d.runtime.dfalse
        then odd_keyword_args_trap args gf s.function
        else invalid_keyword_trap args gf s.function bad_keyword keys.0 keys.1
  ]

  -- The arguments are a1 to the number of the name, and then the vector of optionals.
  unfoldable pub keyed_engine_numbered :
      (fuel : ℕ) → How → (nparams : ℕ) → List Value → Engine → State → Tail
  unfolding check_keywords invalid_keyword stack_vector
  keyed_engine_numbered fuel how nparams args e s = elim (h.object (meth e)) [
    | method m ↦ elim (check_keywords how (get_or args nparams 0) m e) [
      | none ↦ enters m.mep args (record s { function = meth e; next_methods = method_data e })
      | some bad_keyword ↦
          invalid_keyword fuel how bad_keyword m e (stack_vector (nparams + 1) λ i. get_or args i 0)
            s
    ]
    | _ ↦ wanders
  ]

  unfoldable pub keyed_engine_vector :
      (fuel : ℕ) → How → (mepargvec : Value) → Engine → State → Tail
  unfolding check_keywords invalid_keyword mep_apply_with_optionals
  keyed_engine_vector fuel how mepargvec e s =
      let v = h.vector mepargvec in
      elim (h.object (meth e)) [
        | method m ↦ elim (check_keywords how (v.elements (v.size - 1)) m e) [
          | none ↦ mep_apply_with_optionals h (meth e) (method_data e) mepargvec s
          | some bad_keyword ↦ invalid_keyword fuel how bad_keyword m e v s
        ]
        | _ ↦ wanders
      ]
