-- ===== src/Dispatch/Select.antt =====
-- The method that a call of a generic function enters is the one that the tree of nodes selects.
use opendylan.Prelude.{
  ℕ, ◌≤◌, ◌<◌, ◌≡◌, refl, sym, ap, subst, ◌∙◌, inl, inr, true, false, List, arith, leb, ltb,
  if◌then◌else◌, get_or, Bool-cases,
}
use opendylan.Values.{Value}
use opendylan.Calls.{Words}
use opendylan.Dispatch.{
  body, Engine, Object, Heap, State, Tail, Dispatcher, jumps, enters, engine_node, method,
  MethodObject, meth, method_data, function_p, entry_point_at, spread, single_method_engine,
  single_method_engine_n, mep_apply_with_optionals,
}
use opendylan.Dispatch.Nodes.{
  goto_node, goto_node_n, node_engine, invoke, run, method_code, single_method_engine_numbered,
  single_method_engine_vector,
}
use opendylan.Dispatch.Tree.{Tree, select, depth, Represents, Carries, advance}
use opendylan.Dispatch.Tree.Reach.{continue, reach, advance-node, run-continue, invoke-node}
use opendylan.Dispatch.Generic.Stack.{get_or-spread}

-- What the selected node calls: the method itself, or a node of one method, with the code and the
-- next methods that it is entered with.
pub data Finds (object : Value → Object) (n : ℕ) (parent leaf : Value)
    : (fn next_methods : Value) (code : ℕ) → Type 0 where
  direct :
      {m : MethodObject} {c : ℕ}
      → object leaf ≡ method m
      → m.mep ≡ body c
      → Finds object n parent leaf leaf parent c
  single :
      {e : Engine} {m : MethodObject} {c : ℕ}
      → object leaf ≡ engine_node e
      → e.entry_point ≡ (if leb n 7 then single_method_engine n else single_method_engine_n)
      → object (meth e) ≡ method m
      → m.mep ≡ body c
      → Finds object n parent leaf (meth e) (method_data e) c

-- A method's code is entered, with the parameters as its first arguments.
pub record Enters (n : ℕ) (p : Words) (fn next_methods : Value) (code : ℕ) (t : Tail) : Type 0 where
  pub arguments : List Value
  pub state : State
  pub entered : t ≡ enters (body code) arguments state
  pub function : state.function ≡ fn
  pub next : state.next_methods ≡ next_methods
  pub passed : (i : ℕ) → i < n → get_or arguments i 0 ≡ p i

module _ (h : Heap) (fn : Value) (m : MethodObject) (c : ℕ) (at : h.object fn ≡ method m)
    (code : m.mep ≡ body c) where
  entry_point_at-method : entry_point_at h fn ≡ body c
  unfolding entry_point_at
  entry_point_at-method = rw (at, entry_point_at) code

  function_p-method : function_p h fn ≡ true
  unfolding function_p
  function_p-method = rw (at, function_p) refl

  invoke-method :
      (d : Dispatcher) (fuel : ℕ) (args : List Value) (s : State)
      → h.object s.function ≡ method m
      → invoke d h fuel (body c) args s ≡ enters (body c) args s
  unfolding invoke method_code
  invoke-method d fuel args s here = rw (here, invoke) refl

  -- primitive_mep_apply_with_optionals passes the elements of the vector on, up to 64 of them.
  pub mep_apply_with_optionals-Enters :
      (n : ℕ) (p : Words) (next_methods args : Value) (s : State)
      → n ≤ 64
      → (h.vector args).size ≡ n
      → ((i : ℕ) → i < n → (h.vector args).elements i ≡ p i)
      → Enters n p fn next_methods c (mep_apply_with_optionals h fn next_methods args s)
  unfolding mep_apply_with_optionals
  mep_apply_with_optionals-Enters n p next_methods args s small size words =
      let v = h.vector args in
      let s' : State = record s {
        function = fn;
        next_methods = next_methods;
        argument_count = v.size;
      } in
      elim (Bool-cases (leb v.size 9)) [
        | inl near ↦ record {
          arguments = spread v.size v.elements;
          state = s';
          entered = rw (at, mep_apply_with_optionals, near, code) refl;
          function = refl;
          next = refl;
          passed = λ i range. get_or-spread v.size v.elements i (omega arith) ∙ words i range;
        }
        | inr far ↦
            let fits : ltb 64 v.size ≡ false = ground arith in
            record {
              arguments = spread 64 v.elements;
              state = s';
              entered = rw (at, mep_apply_with_optionals, far, fits, code) refl;
              function = refl;
              next = refl;
              passed = λ i range. get_or-spread 64 v.elements i (omega arith) ∙ words i range;
            }
      ]

-- The call ends where a method is found: directly or by the node of one method.
module _ (d : Dispatcher) (h : Heap) (fuel n : ℕ) (p : Words) (args : List Value)
    (carries : Carries h n p args) (small : n ≤ 64) where
  direct-Enters :
      (parent leaf : Value) (m : MethodObject) (c : ℕ) (s : State)
      → h.object leaf ≡ method m
      → m.mep ≡ body c
      → Enters n p leaf parent c (continue d h fuel 2 (advance h n parent leaf args s))
  unfolding advance goto_node goto_node_n function_p entry_point_at invoke method_code run continue
  direct-Enters parent leaf m c s at code =
      let s' : State = record s { function = leaf; next_methods = parent } in
      elim (Bool-cases (leb n 7)) [
        | inl near ↦
            let entry : advance h n parent leaf args s ≡ jumps (body c) args s' =
              rw near (ap (λ k. jumps k args s') (entry_point_at-method h leaf m c at code)) in
            record {
              arguments = args;
              state = s';
              entered =
                  ap (continue d h fuel 2) entry
                  ∙ run-continue d h fuel 1 (body c) args s'
                  ∙ ap (continue d h fuel 1) (invoke-method h leaf m c at code d fuel args s' at);
              function = refl;
              next = refl;
              passed = carries.spread_words (ground arith);
            }
        | inr far ↦
            let many : 7 < n = ground arith in
            let e =
              mep_apply_with_optionals-Enters h leaf m c at code n p parent (get_or args 0 0) s
                small (carries.boxed_size many) (carries.boxed_words many) in
            let entry : advance h n parent leaf args s
                ≡ mep_apply_with_optionals h leaf parent (get_or args 0 0) s =
              rw (far, function_p-method h leaf m c at code) refl in
            record {
              arguments = e.arguments;
              state = e.state;
              entered = ap (continue d h fuel 2) entry ∙ ap (continue d h fuel 2) e.entered;
              function = e.function;
              next = e.next;
              passed = e.passed;
            }
      ]

  single-Enters :
      (parent leaf : Value) (e : Engine) (m : MethodObject) (c : ℕ) (s : State)
      → h.object leaf ≡ engine_node e
      → e.entry_point ≡ (if leb n 7 then single_method_engine n else single_method_engine_n)
      → h.object (meth e) ≡ method m
      → m.mep ≡ body c
      → Enters n p (meth e) (method_data e) c (continue d h fuel 2 (advance h n parent leaf args s))
  unfolding node_engine single_method_engine_numbered single_method_engine_vector continue run
  single-Enters parent leaf e m c s at entry at' code =
      let s' : State = record s { function = leaf; next_methods = parent } in
      let way =
        ap (continue d h fuel 2) (advance-node d h fuel n p args carries parent leaf e s at)
        ∙ run-continue d h fuel 1 e.entry_point args s'
        ∙ ap (continue d h fuel 1) (invoke-node d h fuel e.entry_point args s' e at) in
      elim (Bool-cases (leb n 7)) [
        | inl near ↦
            let single : e.entry_point ≡ single_method_engine n = rw near at entry in
            let node : node_engine d h fuel e.entry_point args e s'
                ≡ enters (body c) args
                    (record s { function = meth e; next_methods = method_data e }) =
              ap (λ k. node_engine d h fuel k args e s') single
              ∙ rw (at', single_method_engine_numbered)
                  (ap
                    (λ k.
                      enters k args (record s { function = meth e; next_methods = method_data e }))
                    code) in
            record {
              arguments = args;
              state = record s { function = meth e; next_methods = method_data e };
              entered = way ∙ ap (continue d h fuel 1) node;
              function = refl;
              next = refl;
              passed = carries.spread_words (ground arith);
            }
        | inr far ↦
            let many : 7 < n = ground arith in
            let single : e.entry_point ≡ single_method_engine_n = rw far at entry in
            let node : node_engine d h fuel e.entry_point args e s'
                ≡ mep_apply_with_optionals h (meth e) (method_data e) (get_or args 0 0) s' =
              ap (λ k. node_engine d h fuel k args e s') single in
            let enter =
              mep_apply_with_optionals-Enters h (meth e) m c at' code n p (method_data e)
                (get_or args 0 0) s' small (carries.boxed_size many) (carries.boxed_words many) in
            record {
              arguments = enter.arguments;
              state = enter.state;
              entered = way ∙ ap (continue d h fuel 1) (node ∙ enter.entered);
              function = enter.function;
              next = enter.next;
              passed = enter.passed;
            }
      ]

  found-Enters :
      {parent leaf fn next_methods : Value} {c : ℕ} (s : State)
      → Finds h.object n parent leaf fn next_methods c
      → Enters n p fn next_methods c (continue d h fuel 2 (advance h n parent leaf args s))
  found-Enters s (direct at code) = direct-Enters _ _ _ _ s at code
  found-Enters s (single at entry at' code) = single-Enters _ _ _ _ _ s at entry at' code

  -- A call of the root of a tree enters the method that the tree selects for the parameters, with all
  -- the parameters as its first arguments.
  pub call_root-Enters :
      (t : Tree) (root parent : Value) (s : State) {fn next_methods : Value} {c : ℕ}
      → Represents d h.object n t root parent
      → Finds h.object n (select t p parent).0 (select t p parent).1 fn next_methods c
      → Enters n p fn next_methods c
          (continue d h fuel (depth t p 2) (advance h n parent root args s))
  call_root-Enters t root parent s tree found =
      let (s', way) = reach d h fuel n p args carries t root parent 2 s tree in
      subst (Enters n p _ _ _) (sym way) (found-Enters s' found)
