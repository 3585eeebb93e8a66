-- ===== src/Dispatch/Invalidate.antt =====
-- Cache nodes that are invalidated.
use opendylan.Prelude.{ℕ, zero, suc, ◌≡◌, ◌≢◌, refl, sym, ap, subst, ◌∙◌, ◌⊎◌, inl, inr, some, List}
use native.Mathlib.Decide.{ℕ_discrete}
use opendylan.Prelude.Store.{update_self, update-ne}
use opendylan.Values.{Value}
use opendylan.Calls.{Words}
use opendylan.Dispatch.{
  Code, Engine, Object, MethodObject, Heap, State, Dispatcher, engine_node, method, generic,
  GenericFunction, general_engine_node_n_engine, implementation_args, parent_gf, parent_word,
  entry_point_at,
}
use opendylan.Dispatch.Nodes.{invoke, node_engine}
use opendylan.Dispatch.Tree.{Carries}
use opendylan.Dispatch.Tree.Reach.{invoke-node}
use opendylan.Dispatch.Install.{set_entry_point, primitive_invalidate_cache_engine_node}
use opendylan.Dispatch.Collect.{CallsBack, general_engine_node_n-CallsBack}

Object-cases :
    (o : Object)
    → ((e : Engine) × (o ≡ engine_node e))
      ⊎ ((m : MethodObject) × (o ≡ method m))
      ⊎ ((g : GenericFunction) × (o ≡ generic g))
Object-cases (engine_node e) = inl (e, refl)
Object-cases (method m) = inr (inl (m, refl))
Object-cases (generic g) = inr (inr (g, refl))

module _ (k : ℕ) (h : Heap) (y : Value) where
  parent_gf-node :
      (e : Engine)
      → h.object y ≡ engine_node e
      → parent_gf (suc k) h y ≡ parent_gf k h (parent_word e)
  unfolding parent_gf
  parent_gf-node e at = rw (at, parent_gf) refl

  parent_gf-method : (m : MethodObject) → h.object y ≡ method m → parent_gf (suc k) h y ≡ some y
  unfolding parent_gf
  parent_gf-method m at = rw (at, parent_gf) refl

  parent_gf-generic :
      (g : GenericFunction) → h.object y ≡ generic g → parent_gf (suc k) h y ≡ some y
  unfolding parent_gf
  parent_gf-generic g at = rw (at, parent_gf) refl

module _ (h : Heap) (x : Value) (e : Engine) (code : Code) (at : h.object x ≡ engine_node e) where
  abbrev h' : Heap
  h' = set_entry_point h x e code

  abbrev e' : Engine
  e' = record e { entry_point = code }

  set_self : h'.object x ≡ engine_node e'
  set_self = update_self h.object x _

  -- The parents of nodes are as before.
  parent_gf-set_entry_point : (k : ℕ) (y : Value) → parent_gf k h' y ≡ parent_gf k h y
  unfolding parent_gf
  parent_gf-set_entry_point zero y = refl
  parent_gf-set_entry_point (suc k) y = elim (ℕ_discrete y x) [
    | yes same ↦
        subst (λ z. parent_gf (suc k) h' z ≡ parent_gf (suc k) h z) (sym same)
          (parent_gf-node k h' x e' set_self
            ∙ parent_gf-set_entry_point k (parent_word e)
            ∙ sym (parent_gf-node k h x e at))
    | no ne ↦
        let other : h'.object y ≡ h.object y = update-ne h.object x _ y ne in
        elim (Object-cases (h.object y)) [
          | inl (n, o) ↦
              parent_gf-node k h' y n (other ∙ o)
              ∙ parent_gf-set_entry_point k (parent_word n)
              ∙ sym (parent_gf-node k h y n o)
          | inr (inl (m, o)) ↦
              parent_gf-method k h' y m (other ∙ o) ∙ sym (parent_gf-method k h y m o)
          | inr (inr (g, o)) ↦
              parent_gf-generic k h' y g (other ∙ o) ∙ sym (parent_gf-generic k h y g o)
        ]
  ]

-- The memory after an invalidation, and what the node's entry point then does.
pub record Invalidated (h : Heap) (x : Value) (d : Dispatcher) (fuel n : ℕ) (p : Words) (e : Engine)
    (args : List Value) (s : State) : Type 0 where
  pub heap : Heap
  pub returned : primitive_invalidate_cache_engine_node h x ≡ some heap
  pub calls_back :
      CallsBack e.callback n p s.function s.next_methods
        (invoke d heap fuel (entry_point_at heap x) args s)

-- A call of an invalidated cache node goes to its callback, with all the implementation arguments in a
-- vector, the node and its parent, whatever was cached.
pub primitive_invalidate_cache_engine_node-CallsBack :
    (d : Dispatcher) (h : Heap) (fuel : ℕ) (x : Value) (e : Engine) (p : Words) (args : List Value)
    (s : State) (gf : Value) (g : GenericFunction)
    → h.object x ≡ engine_node e
    → s.function ≡ x
    → parent_gf fuel h s.next_methods ≡ some gf
    → h.object gf ≡ generic g
    → gf ≢ x
    → Carries h (implementation_args g.signature) p args
    → Invalidated h x d fuel (implementation_args g.signature) p e args s
unfolding primitive_invalidate_cache_engine_node node_engine entry_point_at
primitive_invalidate_cache_engine_node-CallsBack d h fuel x e p args s gf g at here parent at_gf
      apart c =
    let code = general_engine_node_n_engine in
    let h₁ = set_entry_point h x e code in
    let e₁ : Engine = record e { entry_point = code } in
    let here' : h₁.object s.function ≡ engine_node e₁ =
      ap h₁.object here ∙ set_self h x e code at in
    let entry : entry_point_at h₁ x ≡ code = rw (set_self h x e code at, entry_point_at) refl in
    let node = invoke-node d h₁ fuel code args s e₁ here' in
    let b =
      general_engine_node_n-CallsBack d h₁ fuel p args e₁ s gf g
        (parent_gf-set_entry_point h x e code at fuel s.next_methods ∙ parent)
        (update-ne h.object x _ gf apart ∙ at_gf)
        (record {
          spread_length = c.spread_length;
          spread_words = c.spread_words;
          boxed = c.boxed;
          boxed_size = c.boxed_size;
          boxed_words = c.boxed_words;
        }) in
    record {
      heap = h₁;
      returned = rw (at, primitive_invalidate_cache_engine_node) refl;
      calls_back = record {
        vector = b.vector;
        called = ap (λ k. invoke d h₁ fuel k args s) entry ∙ node ∙ b.called;
        sized = b.sized;
        filled = b.filled;
      };
    }
