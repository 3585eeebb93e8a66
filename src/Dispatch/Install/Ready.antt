-- ===== src/Dispatch/Install/Ready.antt =====
-- Nodes after their initialization: what the decision trees ask of them.
use mathlib.Core.Bool.{false≢true}
use opendylan.Prelude.{
  sym, ◌∙◌, ==_iff, ℕ, ◌+◌, ◌≤◌, ◌<◌, ◌≡◌, ◌≢◌, refl, ap, ◌⊎◌, inl, inr, true, false, Option, some,
  arith, leb, ◌==◌, if◌then◌else◌, Bool-cases,
}
use opendylan.Prelude.Store.{update_self, update-ne}
use opendylan.Values.{Value}
use opendylan.Dispatch.{
  Code, Engine, Heap, engine_node, generic, method, GenericFunction, MethodObject, entry_type,
  argnum_of, nrequired_of, optionals_of, implementation_args, meth, single_method_engine,
  single_method_engine_n, discriminate_engine, monomorphic_discriminator_engine,
  if_type_discriminator_engine, typecheck_discriminator_engine, discriminate_engine_n_n,
  monomorphic_discriminator_engine_n_n, if_type_discriminator_engine_n_n,
  typecheck_discriminator_engine_n_n,
}
use opendylan.Dispatch.Install.{
  if_type_handler, typecheck_handler, monomorphic_handler, discriminate_handler,
  discriminator_handler, primitive_initialize_discriminator, set_entry_point, enabled_entry_point,
  primitive_enable_cache_header_engine_node, engine_cache_header, engine_profiling_cache_header,
  engine_if_type, engine_typecheck, engine_monomorphic, primitive_initialize_engine_node,
  single_method_entry_point, engine_unkeyed_single_method,
}
use opendylan.Dispatch.Tree.Step.{switch_all}
use opendylan.Dispatch.Tree.{
  IsDiscriminator, IsHeader, Installed, by_if_type, by_typecheck, by_class, by_callback,
}

-- A node gets an entry point; the rest of it, and the other objects, stay as they are.
pub record Becomes (h h' : Heap) (x : Value) (e : Engine) (code : Code) : Type 0 where
  pub node : h'.object x ≡ engine_node (record e { entry_point = code })
  pub others : (y : Value) → y ≢ x → h'.object y ≡ h.object y
  pub vectors : h'.vector ≡ h.vector

set_entry_point-Becomes :
    (h : Heap) (x : Value) (e : Engine) (code : Code)
    → Becomes h (set_entry_point h x e code) x e code
set_entry_point-Becomes h x e code = record {
  node = update_self h.object x _;
  others = λ y ne. update-ne h.object x _ y ne;
  vectors = refl;
}

module _ (e : Engine) where
  abbrev argnum : ℕ
  argnum = argnum_of e.properties

  abbrev arguments : ℕ
  arguments = nrequired_of e.properties + optionals_of e.properties

  abbrev kind : ℕ
  kind = entry_type e.properties

  -- A handler that is chosen, and is the one for the node's kind.
  abbrev Handles : Option Code → Type 0
  Handles chosen =
      (code : Code) × (chosen ≡ some code)
      × Installed arguments argnum (record e { entry_point = code })

  other_kind : (k : ℕ) → (kind == k) ≡ false → kind ≢ k
  other_kind k other same = false≢true (sym other ∙ (==_iff kind k).1 same)

  -- The argument that a discriminator tests is one of its arguments: a handler is set.
  discriminator_handler-Installed :
      argnum < arguments → Handles (discriminator_handler e.properties)
  unfolding discriminator_handler if_type_handler typecheck_handler monomorphic_handler
      discriminate_handler
  discriminator_handler-Installed range = elim (Bool-cases (kind == engine_if_type)) [
    | inl k ↦ (
      _,
      rw k (switch_all if_type_discriminator_engine if_type_discriminator_engine_n_n _ _ range),
      by_if_type ((==_iff _ _).0 k) refl,
    )
    | inr k ↦ elim (Bool-cases (kind == engine_typecheck)) [
      | inl l ↦ (
        _,
        rw (k, l)
            (switch_all typecheck_discriminator_engine typecheck_discriminator_engine_n_n _ _
              range),
        by_typecheck ((==_iff _ _).0 l) refl,
      )
      | inr l ↦ elim (Bool-cases (kind == engine_monomorphic)) [
        | inl m ↦ (
          _,
          rw (k, l, m)
              (switch_all monomorphic_discriminator_engine monomorphic_discriminator_engine_n_n _ _
                range),
          by_class ((==_iff _ _).0 m) refl,
        )
        | inr m ↦ (
          _,
          rw (k, l, m) (switch_all discriminate_engine discriminate_engine_n_n _ _ range),
          by_callback (other_kind _ k) (other_kind _ l) (other_kind _ m) refl,
        )
      ]
    ]
  ]

-- A node that has been initialized, in the memory that the initialization leaves.
pub record Initialized (h : Heap) (x : Value) (e : Engine) (IsReady : Engine → Type 0)
    (r : Option Heap) : Type 0 where
  pub heap : Heap
  pub code : Code
  pub returned : r ≡ some heap
  pub becomes : Becomes h heap x e code
  pub ready : IsReady (record e { entry_point = code })

-- A discriminator whose tested argument is one of its arguments has, when initialized, the entry point
-- for its kind, that argument and the number of arguments (Installed), so that a decision tree can
-- have it; nothing else changes.
pub primitive_initialize_discriminator-IsDiscriminator :
    (h : Heap) (x : Value) (e : Engine)
    → h.object x ≡ engine_node e
    → argnum_of e.properties < nrequired_of e.properties + optionals_of e.properties
    → Initialized h x e
        (IsDiscriminator
          (nrequired_of e.properties + optionals_of e.properties)
          (argnum_of e.properties))
        (primitive_initialize_discriminator h x)
unfolding primitive_initialize_discriminator
primitive_initialize_discriminator-IsDiscriminator h x e at range =
    let (code, set, installed) = discriminator_handler-Installed e range in
    record {
      heap = set_entry_point h x e code;
      code = code;
      returned = rw (at, primitive_initialize_discriminator, set) refl;
      becomes = set_entry_point-Becomes h x e code;
      ready = record { tested = refl; in_range = range; arguments = refl; installed = installed };
    }

abbrev IsCacheHeader : Engine → Type 0
IsCacheHeader e =
    (entry_type e.properties ≡ engine_cache_header)
    ⊎ (entry_type e.properties ≡ engine_profiling_cache_header)

module _ (h : Heap) (x genfun : Value) (e : Engine) (g : GenericFunction)
    (at : h.object x ≡ engine_node e) (parent : h.object genfun ≡ generic g) where
  abbrev n : ℕ
  n = implementation_args g.signature

  enable_eq :
      primitive_enable_cache_header_engine_node h x genfun
      ≡ some (set_entry_point h x e (enabled_entry_point g.signature e))
  unfolding primitive_enable_cache_header_engine_node
  enable_eq = rw (at, primitive_enable_cache_header_engine_node, parent) refl

  -- A cache header of a generic function of at most seven implementation arguments is, when enabled,
  -- one that a decision tree can have; nothing else changes.
  pub primitive_enable_cache_header_engine_node-IsHeader :
      IsCacheHeader e
      → n ≤ 7
      → Initialized h x e (IsHeader n) (primitive_enable_cache_header_engine_node h x genfun)
  unfolding enabled_entry_point
  primitive_enable_cache_header_engine_node-IsHeader kind few =
      let near : leb n 7 ≡ true = ground arith in
      record {
        heap = set_entry_point h x e (enabled_entry_point g.signature e);
        code = enabled_entry_point g.signature e;
        returned = enable_eq;
        becomes = set_entry_point-Becomes h x e _;
        ready = elim kind [ inl k ↦ inl (rw (k, near) refl) | inr k ↦ inr (rw (k, near) refl) ];
      }

  -- A cache header of a generic function of more than seven implementation arguments keeps, when
  -- enabled, the entry point that it has.
  pub primitive_enable_cache_header_engine_node-keeps :
      7 < n
      → primitive_enable_cache_header_engine_node h x genfun
        ≡ some (set_entry_point h x e e.entry_point)
  unfolding enabled_entry_point
  primitive_enable_cache_header_engine_node-keeps many =
      let far : leb n 7 ≡ false = ground arith in
      let kept : enabled_entry_point g.signature e ≡ e.entry_point = ground arith in
      rw (enable_eq, kept) refl

-- The node of an unkeyed single method, when initialized, has the entry point by which a decision
-- tree finds the method, for each number of implementation arguments.
pub primitive_initialize_engine_node-single_method :
    (fuel : ℕ) (h : Heap) (x : Value) (e : Engine) (m : MethodObject)
    → h.object x ≡ engine_node e
    → entry_type e.properties ≡ engine_unkeyed_single_method
    → h.object (meth e) ≡ method m
    → primitive_initialize_engine_node fuel h x
      ≡ some (
          set_entry_point h x e (
            if leb (implementation_args m.signature) 7
            then single_method_engine (implementation_args m.signature)
            else single_method_engine_n))
unfolding primitive_initialize_engine_node single_method_entry_point
primitive_initialize_engine_node-single_method fuel h x e m at kind meth_at =
    rw (at, primitive_initialize_engine_node, kind, meth_at)
      (ap (λ t. some (set_entry_point h x e (single_method_entry_point t m.signature))) kind)
