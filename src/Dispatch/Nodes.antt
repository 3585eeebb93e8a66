-- ===== src/Dispatch/Nodes.antt =====
-- What the entry point of each kind of node does: discriminators, cache headers, single methods and
-- the general nodes, of sources/lib/run-time/c-run-time.c.
use opendylan.Prelude.{
  ◌++◌, not, ℕ, zero, suc, ◌+◌, ◌-◌, ◌%◌, ◌^◌, Option, none, some, List, [], ◌∷◌, ltb, ◌==◌,
  if◌then◌else◌, get_or,
}
use opendylan.Prelude.Loops.{fill}
use opendylan.Prelude.Store.{update}
use opendylan.Values.{Value}
use opendylan.Calls.{Words, Vector}
use opendylan.Dispatch.{
  Code, body, wild, general_engine_node_1_engine, general_engine_node_2_engine,
  general_engine_node_3_engine, general_engine_node_n_engine, general_engine_node_spread_engine,
  single_method_engine, single_method_engine_n, cache_header_engine, profiling_cache_header_engine,
  cache_header_engine_n, profiling_cache_header_engine_n, discriminate_engine,
  monomorphic_discriminator_engine, if_type_discriminator_engine, typecheck_discriminator_engine,
  discriminate_engine_n_n, monomorphic_discriminator_engine_n_n, if_type_discriminator_engine_n_n,
  typecheck_discriminator_engine_n_n, Engine, key, type_word, meth, header_nextnode, nextnode,
  thennode, method_data, elsenode, engine_node, method, generic, Heap, State, Tail, jumps, enters,
  calls_back, calls_back_vector, elsewhere, wanders, Dispatcher, function_p, entry_point_at,
  argnum_of, signature_number_required, implementation_args, mep_apply_with_optionals, parent_gf,
  stack_vector, explicit_keyed_single_method_engine, implicit_keyed_single_method_engine,
  unrestricted_keyed_single_method_engine, explicit_keyed_single_method_engine_n,
  implicit_keyed_single_method_engine_n, unrestricted_keyed_single_method_engine_n,
}
use opendylan.Dispatch.Keyed.{
  explicit, implicit, unrestricted, keyed_engine_numbered, keyed_engine_vector,
}

-- The next node becomes the thread's function and is entered, with the same arguments and parent.
unfoldable pub goto_node : Heap → (parent newengine : Value) → List Value → State → Tail
unfolding entry_point_at
goto_node h parent newengine args s =
    jumps (entry_point_at h newengine) args
      (record s { function = newengine; next_methods = parent })

-- The same where the arguments are in one vector: a next node that is a method gets them spread.
unfoldable pub goto_node_n : Heap → (parent newengine args : Value) → State → Tail
unfolding function_p mep_apply_with_optionals goto_node
goto_node_n h parent newengine args s =
    if function_p h newengine
    then mep_apply_with_optionals h newengine parent args s
    else goto_node h parent newengine (args ∷ []) s

module _ (d : Dispatcher) where
  -- FI(MONO_WRAPPER_KEY(x)): the wrapper's address with the tag of an integer.
  unfoldable pub wrapper_key : Value → ℕ
  wrapper_key x =
      let wrapper = if x % 4 == 0 then d.mm_wrapper x else d.direct_object_mm_wrappers (x % 4) in
      if wrapper % 2 == 0 then wrapper + 1 else wrapper

  -- The choice of each discriminator, for the argument that it tests.
  unfoldable pub monomorphic_next : Engine → Value → Value
  unfolding wrapper_key
  monomorphic_next e arg = if wrapper_key arg == key e then nextnode e else d.absent_engine_node

  unfoldable pub if_type_next : Engine → Value → Value
  if_type_next e arg = if d.runtime.instance_p arg (type_word e) then thennode e else elsenode e

  unfoldable pub typecheck_next : Engine → Value → Value
  typecheck_next e arg =
      if d.runtime.instance_p arg (type_word e) then nextnode e else d.inapplicable_engine_node

  unfoldable pub discriminate_next : (node parent : Value) → Engine → Value → Value
  discriminate_next node parent e arg = d.discriminate e.callback arg parent node

module _ (d : Dispatcher) (h : Heap) where
  -- The discriminators of the numbered families: the argument `argnum`, counted from 1, is tested.
  unfoldable pub discriminate_engine_numbered :
      (choose : Engine → Value → Value) → (argnum : ℕ) → List Value → Engine → State → Tail
  unfolding goto_node
  discriminate_engine_numbered choose argnum args e s =
      goto_node h s.next_methods (choose e (get_or args (argnum - 1) 0)) args s

  -- The n_n discriminators: the argument's number, counted from 0, is in the node's properties.
  unfoldable pub discriminate_engine_vector :
      (choose : Engine → Value → Value) → (args : Value) → Engine → State → Tail
  unfolding goto_node_n argnum_of
  discriminate_engine_vector choose args e s =
      goto_node_n h s.next_methods (choose e ((h.vector args).elements (argnum_of e.properties)))
        args s

  -- cache_header_engine_0 to 7: the header becomes the parent.
  unfoldable pub cache_header_engine_numbered : List Value → Engine → State → Tail
  unfolding goto_node
  cache_header_engine_numbered args e s = goto_node h s.function (header_nextnode e) args s

  -- cache_header_engine_n and profiling_cache_header_engine_n, which have the same body
  unfoldable pub cache_header_engine_vector : (args : Value) → Engine → State → Tail
  unfolding goto_node_n
  cache_header_engine_vector args e s = goto_node_n h s.function (header_nextnode e) args s

  -- A counter of a profiling cache header: a tagged integer of 64 bits, which `+= 4` adds one to.
  unfoldable pub count_call : (node : Value) → State → State
  count_call node s =
      let c = (s.count1 node + 4) % 2 ^ 64 in
      record s {
        count1 = update s.count1 node c;
        count2 = if c == 1 then update s.count2 node ((s.count2 node + 4) % 2 ^ 64) else s.count2;
      }

  unfoldable pub profiling_cache_header_engine_numbered : List Value → Engine → State → Tail
  unfolding goto_node count_call
  profiling_cache_header_engine_numbered args e s =
      goto_node h s.function (header_nextnode e) args (count_call s.function s)

  -- single_method_engine_0 to 7
  unfoldable pub single_method_engine_numbered : List Value → Engine → State → Tail
  single_method_engine_numbered args e s = elim (h.object (meth e)) [
    | method m ↦ enters m.mep args (record s { function = meth e; next_methods = method_data e })
    | _ ↦ wanders
  ]

  unfoldable pub single_method_engine_vector : (args : Value) → Engine → State → Tail
  unfolding mep_apply_with_optionals
  single_method_engine_vector args e s = mep_apply_with_optionals h (meth e) (method_data e) args s

  -- The properties of the signature of the generic function that a parent belongs to.
  unfoldable pub parent_signature : (fuel : ℕ) → (parent : Value) → Option ℕ
  unfolding parent_gf
  parent_signature fuel parent = elim (parent_gf fuel h parent) [
    | none ↦ none
    | some gf ↦ elim (h.object gf) [ generic g ↦ some g.signature | _ ↦ none ]
  ]

  -- general_engine_node_1_engine to 3: the node and its parent follow the arguments.
  unfoldable pub general_engine_node_k_engine : List Value → Engine → State → Tail
  general_engine_node_k_engine args e s =
      calls_back e.callback (args ++ s.function ∷ s.next_methods ∷ [])

  unfoldable pub general_engine_node_n : (fuel : ℕ) → List Value → Engine → State → Tail
  unfolding parent_signature implementation_args stack_vector
  general_engine_node_n fuel args e s = elim (parent_signature fuel s.next_methods) [
    | none ↦ wanders
    | some sig ↦
        let impargs = implementation_args sig in
        calls_back_vector e.callback
          (if ltb 7 impargs
            then h.vector (get_or args 0 0)
            else stack_vector impargs λ i. get_or args i 0)
          s.function s.next_methods
  ]

  -- The required arguments and then the optional ones, of the #rest vector, in one vector.
  unfoldable pub spread_optionals : (nreq : ℕ) → Words → Vector → Vector
  spread_optionals nreq required optionals = record {
    size = nreq + optionals.size;
    elements = fill nreq optionals.elements optionals.size 0 (fill 0 required nreq 0 λ _. 0);
  }

  unfoldable pub general_engine_node_spread : (fuel : ℕ) → List Value → Engine → State → Tail
  unfolding parent_signature implementation_args signature_number_required stack_vector
      spread_optionals
  general_engine_node_spread fuel args e s = elim (parent_signature fuel s.next_methods) [
    | none ↦ wanders
    | some sig ↦
        let nreq = signature_number_required sig in
        let impargs = implementation_args sig in
        let mepargvec = h.vector (get_or args 0 0) in
        let a : Words = λ i. get_or args i 0 in
        let v : Vector =
          if not (nreq == impargs)
          then (if ltb 7 impargs
              then spread_optionals nreq mepargvec.elements (h.vector (mepargvec.elements nreq))
              else spread_optionals nreq a (h.vector (a nreq)))
          else if ltb 7 impargs
          then mepargvec
          else stack_vector nreq a in
        calls_back_vector e.callback v s.function s.next_methods
  ]

  -- The function at the head of a call; `fuel` is for the parents of the thread's `next_methods`.
  unfoldable pub node_engine : (fuel : ℕ) → Code → List Value → Engine → State → Tail
  unfolding discriminate_engine_numbered discriminate_engine_vector monomorphic_next if_type_next
      typecheck_next discriminate_next cache_header_engine_numbered cache_header_engine_vector
      profiling_cache_header_engine_numbered single_method_engine_numbered
      single_method_engine_vector general_engine_node_k_engine general_engine_node_n
      general_engine_node_spread
  node_engine fuel (discriminate_engine i n) args e s =
      discriminate_engine_numbered (discriminate_next d s.function s.next_methods) i args e s
  node_engine fuel (monomorphic_discriminator_engine i n) args e s =
      discriminate_engine_numbered (monomorphic_next d) i args e s
  node_engine fuel (if_type_discriminator_engine i n) args e s =
      discriminate_engine_numbered (if_type_next d) i args e s
  node_engine fuel (typecheck_discriminator_engine i n) args e s =
      discriminate_engine_numbered (typecheck_next d) i args e s
  node_engine fuel discriminate_engine_n_n args e s =
      discriminate_engine_vector (discriminate_next d s.function s.next_methods) (get_or args 0 0) e
        s
  node_engine fuel monomorphic_discriminator_engine_n_n args e s =
      discriminate_engine_vector (monomorphic_next d) (get_or args 0 0) e s
  node_engine fuel if_type_discriminator_engine_n_n args e s =
      discriminate_engine_vector (if_type_next d) (get_or args 0 0) e s
  node_engine fuel typecheck_discriminator_engine_n_n args e s =
      discriminate_engine_vector (typecheck_next d) (get_or args 0 0) e s
  node_engine fuel (cache_header_engine n) args e s = cache_header_engine_numbered args e s
  node_engine fuel (profiling_cache_header_engine n) args e s =
      profiling_cache_header_engine_numbered args e s
  node_engine fuel cache_header_engine_n args e s = cache_header_engine_vector (get_or args 0 0) e s
  node_engine fuel profiling_cache_header_engine_n args e s =
      cache_header_engine_vector (get_or args 0 0) e s
  node_engine fuel (single_method_engine n) args e s = single_method_engine_numbered args e s
  node_engine fuel single_method_engine_n args e s =
      single_method_engine_vector (get_or args 0 0) e s
  node_engine fuel general_engine_node_1_engine args e s = general_engine_node_k_engine args e s
  node_engine fuel general_engine_node_2_engine args e s = general_engine_node_k_engine args e s
  node_engine fuel general_engine_node_3_engine args e s = general_engine_node_k_engine args e s
  node_engine fuel general_engine_node_n_engine args e s = general_engine_node_n fuel args e s
  node_engine fuel general_engine_node_spread_engine args e s =
      general_engine_node_spread fuel args e s
  node_engine fuel (explicit_keyed_single_method_engine k) args e s =
      keyed_engine_numbered d h fuel explicit k args e s
  node_engine fuel (implicit_keyed_single_method_engine k) args e s =
      keyed_engine_numbered d h fuel implicit k args e s
  node_engine fuel (unrestricted_keyed_single_method_engine k) args e s =
      keyed_engine_numbered d h fuel unrestricted k args e s
  node_engine fuel explicit_keyed_single_method_engine_n args e s =
      keyed_engine_vector d h fuel explicit (get_or args 0 0) e s
  node_engine fuel implicit_keyed_single_method_engine_n args e s =
      keyed_engine_vector d h fuel implicit (get_or args 0 0) e s
  node_engine fuel unrestricted_keyed_single_method_engine_n args e s =
      keyed_engine_vector d h fuel unrestricted (get_or args 0 0) e s
  node_engine fuel wild args e s = wanders
  node_engine fuel code args e s = elsewhere code args s

  -- The code of a method is entered, with the method as the thread's function.
  unfoldable pub method_code : Code → List Value → State → Tail
  method_code (body code) args s = enters (body code) args s
  method_code _ args s = wanders

  -- A call of code: that of a node reads the node from `teb->function`.
  unfoldable pub invoke : (fuel : ℕ) → Code → List Value → State → Tail
  unfolding node_engine method_code
  invoke fuel code args s = elim (h.object s.function) [
    | engine_node e ↦ node_engine fuel code args e s
    | method m ↦ method_code code args s
    | generic g ↦ wanders
  ]

  -- A call followed through at most `rounds` functions that end in calls of others.
  unfoldable pub run : (fuel rounds : ℕ) → Code → List Value → State → Tail
  run fuel zero code args s = jumps code args s
  run fuel (suc k) code args s = elim (invoke fuel code args s) [
    | jumps next args' s' ↦ run fuel k next args' s'
    | other ↦ other
  ]
