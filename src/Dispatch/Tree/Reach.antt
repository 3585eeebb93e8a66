-- ===== src/Dispatch/Tree/Reach.antt =====
-- A call's way through the nodes of a decision tree, from the generic function to what is found.
use opendylan.Prelude.{
  ℕ, suc, ◌≡◌, refl, sym, ap, ◌∙◌, inl, inr, false, List, [], ◌∷◌, arith, leb, get_or, Bool-cases,
}
use opendylan.Values.{Value}
use opendylan.Calls.{Words}
use opendylan.Dispatch.{
  Code, Engine, Heap, State, Tail, Dispatcher, jumps, engine_node, header_nextnode, function_p,
  entry_point_at,
}
use opendylan.Dispatch.Nodes.{
  goto_node, goto_node_n, cache_header_engine_numbered, cache_header_engine_vector, count_call,
  profiling_cache_header_engine_numbered, node_engine, invoke, run,
}
use opendylan.Dispatch.Tree.{
  Tree, leaf, branch, header, select, depth, IsHeader, Represents, Carries, advance,
}
use opendylan.Dispatch.Tree.Step.{discriminator-advance}

module _ (h : Heap) (node : Value) (e : Engine) (at : h.object node ≡ engine_node e) where
  entry_point_at-node : entry_point_at h node ≡ e.entry_point
  unfolding entry_point_at
  entry_point_at-node = rw (at, entry_point_at) refl

  function_p-node : function_p h node ≡ false
  unfolding function_p
  function_p-node = rw (at, function_p) refl

module _ (d : Dispatcher) (h : Heap) (fuel : ℕ) where
  -- A call that has ended as a tail, followed through as many functions as there are rounds.
  unfoldable pub continue : (rounds : ℕ) → Tail → Tail
  unfolding run
  continue rounds (jumps code args s) = run d h fuel rounds code args s
  continue rounds other = other

  pub run-continue :
      (k : ℕ) (code : Code) (args : List Value) (s : State)
      → run d h fuel (suc k) code args s ≡ continue k (invoke d h fuel code args s)
  unfolding run continue
  run-continue k code args s =
      elim (invoke d h fuel code args s)
        as (λ t.
          (elim t [ jumps next args' s' ↦ run d h fuel k next args' s' | other ↦ other ])
          ≡ continue k t) [ jumps next args' s' ↦ refl | other ↦ refl ]

  pub invoke-node :
      (code : Code) (args : List Value) (s : State) (e : Engine)
      → h.object s.function ≡ engine_node e
      → invoke d h fuel code args s ≡ node_engine d h fuel code args e s
  unfolding invoke
  invoke-node code args s e at = rw (at, invoke) refl

  module _ (n : ℕ) (p : Words) (args : List Value) (c : Carries h n p args) where
    -- A node that is not a function is entered by a jump, whatever the number of arguments.
    pub advance-node :
        (parent node : Value) (e : Engine) (s : State)
        → h.object node ≡ engine_node e
        → advance h n parent node args s
          ≡ jumps e.entry_point args (record s { function = node; next_methods = parent })
    unfolding advance goto_node goto_node_n
    advance-node parent node e s at =
        let s' : State = record s { function = node; next_methods = parent } in
        let entry = entry_point_at-node h node e at in
        elim (Bool-cases (leb n 7)) [
          | inl near ↦ rw (near) (ap (λ code. jumps code args s') entry)
          | inr far ↦
              let boxed : args ≡ get_or args 0 0 ∷ [] = c.boxed (ground arith) in
              rw (far, function_p-node h node e at)
                (ap (λ code. jumps code (get_or args 0 0 ∷ []) s') entry
                  ∙ ap (λ a. jumps e.entry_point a s') (sym boxed))
        ]

    header-advance :
        (e : Engine) (s : State)
        → IsHeader n e
        → (s' : State) × (node_engine d h fuel e.entry_point args e s
            ≡ advance h n s.function (header_nextnode e) args s')
    unfolding node_engine advance goto_node goto_node_n cache_header_engine_numbered
        cache_header_engine_vector profiling_cache_header_engine_numbered
    header-advance e s at = elim (Bool-cases (leb n 7)) [
      | inl near ↦ elim at [
        | inl same ↦ let same' = rw near at same in (s, rw (near, same') refl)
        | inr same ↦
            let same' = rw near at same in (count_call d h s.function s, rw (near, same') refl)
      ]
      | inr far ↦ elim at [
        | inl same ↦ let same' = rw far at same in (s, rw (far, same') refl)
        | inr same ↦ let same' = rw far at same in (s, rw (far, same') refl)
      ]
    ]

    -- Each node of the tree goes on to the one below it.
    pub reach :
        (t : Tree) (node parent : Value) (r : ℕ) (s : State)
        → Represents d h.object n t node parent
        → (s' : State) × (continue (depth t p r) (advance h n parent node args s)
            ≡ continue r (advance h n (select t p parent).0 (select t p parent).1 args s'))
    unfolding Represents select depth continue
    reach (leaf x) node parent r s at = (s, rw at refl)
    reach (branch i t) node parent r s (e, at, disc, below) =
        let s₁ : State = record s { function = node; next_methods = parent } in
        let (next, chosen, rest_at) = below (p i) in
        let (s', rest) = reach (t (p i)) next parent r s₁ rest_at in
        (
          s',
          ap (continue (suc (depth (t (p i)) p r))) (advance-node parent node e s at)
              ∙ run-continue (depth (t (p i)) p r) e.entry_point args s₁
              ∙ ap (continue _) (
                  invoke-node e.entry_point args s₁ e at
                  ∙ discriminator-advance d h n i p e args s₁ disc c fuel next chosen)
              ∙ rest,
        )
    reach (header x t) node parent r s (e, same, at, head, below) =
        let s₁ : State = record s { function = node; next_methods = parent } in
        let (s₂, next) = header-advance e s₁ head in
        let (s', rest) = reach t _ node r s₂ below in
        (
          s',
          ap (continue (suc (depth t p r))) (advance-node parent node e s at)
              ∙ run-continue (depth t p r) e.entry_point args s₁
              ∙ ap (continue _) (invoke-node e.entry_point args s₁ e at ∙ next)
              ∙ rest
              ∙ ap (λ y. continue r (advance h n (select t p y).0 (select t p y).1 args s')) same,
        )
