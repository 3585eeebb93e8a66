-- ===== src/Dispatch/Apply/Node.antt =====
-- Applying an engine node to a vector of implementation arguments is a call of it.
use opendylan.Prelude.{
  ℕ, ◌≤◌, ◌≡◌, refl, sym, subst, inl, inr, List, [], ◌∷◌, arith, leb, if◌then◌else◌, Bool-cases,
}
use opendylan.Values.{Value}
use opendylan.Dispatch.{Heap, State, Dispatcher, spread, mep_apply_with_optionals}
use opendylan.Dispatch.Nodes.{goto_node, goto_node_n}
use opendylan.Dispatch.Tree.{Tree, select, depth, Represents, Carries, advance}
use opendylan.Dispatch.Tree.Reach.{continue}
use opendylan.Dispatch.Select.{Finds, Enters, call_root-Enters}
use opendylan.Dispatch.Generic.Stack.{length-spread, get_or-spread, Carries-few, Carries-many}
use opendylan.Dispatch.Apply.{engine_node_apply_with_optionals}

module _ (h : Heap) (args : Value) where
  abbrev n : ℕ
  n = (h.vector args).size

  -- How the arguments of the vector are passed.
  abbrev passed : List Value
  passed = if leb n 7 then spread n (h.vector args).elements else args ∷ []

  passed-Carries : Carries h n (h.vector args).elements passed
  passed-Carries = elim (Bool-cases (leb n 7)) [
    | inl near ↦ rw near (
        Carries-few h n _ (spread n (h.vector args).elements) (ground arith) (length-spread n _)
          (get_or-spread n _))
    | inr far ↦ rw far (Carries-many h n _ args (ground arith) refl λ i range. refl)
  ]

  engine_node_apply-advance :
      (eng parent : Value) (s : State)
      → engine_node_apply_with_optionals h eng parent args s
        ≡ advance h n parent eng passed (record s { argument_count = n })
  unfolding engine_node_apply_with_optionals advance goto_node goto_node_n mep_apply_with_optionals
  engine_node_apply-advance eng parent s = elim (Bool-cases (leb n 7)) [
    | inl near ↦ rw near refl
    | inr far ↦ rw far refl
  ]

  -- Applying the root of a tree of nodes to a vector of at most 64 implementation arguments enters the
  -- method that the tree finds for them, as a call with them does.
  pub engine_node_apply_with_optionals-Enters :
      (d : Dispatcher) (fuel : ℕ) (t : Tree) (root parent : Value) (s : State)
      {fn next_methods : Value} {c : ℕ}
      → n ≤ 64
      → Represents d h.object n t root parent
      → Finds h.object n
          (select t (h.vector args).elements parent).0
          (select t (h.vector args).elements parent).1
          fn
          next_methods
          c
      → Enters n (h.vector args).elements fn next_methods c (
          continue d h fuel
            (depth t (h.vector args).elements 2)
            (engine_node_apply_with_optionals h root parent args s))
  engine_node_apply_with_optionals-Enters d fuel t root parent s {fn} {next_methods} {c} small tree
        found =
      subst
        (λ tail.
          Enters n (h.vector args).elements fn next_methods c
            (continue d h fuel (depth t (h.vector args).elements 2) tail))
        (sym (engine_node_apply-advance root parent s))
        (call_root-Enters d h fuel n (h.vector args).elements passed passed-Carries small t root
          parent (record s { argument_count = n }) tree found)
