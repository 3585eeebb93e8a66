-- ===== src/Dispatch/Tree.antt =====
-- The nodes of a generic function as a decision tree, and the way of a call through them.
pub mod Step
pub mod Reach
use opendylan.Prelude.{
  ℕ, zero, suc, ◌+◌, ◌-◌, ◌≤◌, ◌<◌, ◌≡◌, ◌≢◌, refl, sym, ap, ◌∙◌, ◌⊎◌, inl, inr, Bool, true, false,
  Option, none, some, List, [], ◌∷◌, arith, leb, ltb, ◌==◌, if◌then◌else◌, length, get_or,
}
use opendylan.Values.{Value}
use opendylan.Calls.{Words, Vector}
use opendylan.Dispatch.{
  type_word, nextnode, thennode, elsenode, key, discriminate_engine,
  monomorphic_discriminator_engine, if_type_discriminator_engine, typecheck_discriminator_engine,
  discriminate_engine_n_n, monomorphic_discriminator_engine_n_n, if_type_discriminator_engine_n_n,
  typecheck_discriminator_engine_n_n, Code, Engine, Object, Heap, State, Tail, Dispatcher, jumps,
  engine_node, entry_type, argnum_of, nrequired_of, optionals_of, header_nextnode,
  cache_header_engine, cache_header_engine_n, profiling_cache_header_engine,
  profiling_cache_header_engine_n, function_p, entry_point_at,
}
use opendylan.Dispatch.Nodes.{
  wrapper_key, goto_node, goto_node_n, monomorphic_next, if_type_next, typecheck_next,
  discriminate_next, discriminate_engine_numbered, discriminate_engine_vector, invoke, run,
}
use opendylan.Dispatch.Install.{
  discriminator_handler, engine_if_type, engine_typecheck, engine_monomorphic,
}

-- A choice by an argument, counted from 0; a cache header, at its address; or the node or method that
-- is found.
pub data Tree : Type 0 where
  leaf : Value → Tree
  branch : (argnum : ℕ) → (Value → Tree) → Tree
  header : (node : Value) → Tree → Tree

-- The node that a tree gives for the parameters of a call, and its parent.
unfoldable pub select : Tree → (parameters : Words) → (parent : Value) → Value × Value
select (leaf x) p parent = (parent, x)
select (branch i t) p parent = select (t (p i)) p parent
select (header x t) p parent = select t p x

-- `r` and the number of nodes that are passed
unfoldable pub depth : Tree → (parameters : Words) → (r : ℕ) → ℕ
depth (leaf x) p r = r
depth (branch i t) p r = suc (depth (t (p i)) p r)
depth (header x t) p r = suc (depth t p r)

-- The entry point that a discriminator has to have, by its kind: the function of that kind for the
-- argument that is tested, in its name counted from 1, and the number of arguments; or for more than
-- seven the one for vectors.
pub data Installed (n argnum : ℕ) (e : Engine) : Type 0 where
  by_if_type :
      entry_type e.properties ≡ engine_if_type
      → e.entry_point ≡ (
          if leb n 7
          then if_type_discriminator_engine (argnum + 1) n
          else if_type_discriminator_engine_n_n)
      → Installed n argnum e
  by_typecheck :
      entry_type e.properties ≡ engine_typecheck
      → e.entry_point ≡ (
          if leb n 7
          then typecheck_discriminator_engine (argnum + 1) n
          else typecheck_discriminator_engine_n_n)
      → Installed n argnum e
  by_class :
      entry_type e.properties ≡ engine_monomorphic
      → e.entry_point ≡ (
          if leb n 7
          then monomorphic_discriminator_engine (argnum + 1) n
          else monomorphic_discriminator_engine_n_n)
      → Installed n argnum e
  by_callback :
      entry_type e.properties ≢ engine_if_type
      → entry_type e.properties ≢ engine_typecheck
      → entry_type e.properties ≢ engine_monomorphic
      → e.entry_point
        ≡ (if leb n 7 then discriminate_engine (argnum + 1) n else discriminate_engine_n_n)
      → Installed n argnum e

-- A discriminator for calls with `n` implementation arguments that has been initialized.
pub record IsDiscriminator (n argnum : ℕ) (e : Engine) : Type 0 where
  pub tested : argnum_of e.properties ≡ argnum
  pub in_range : argnum < n
  pub arguments : nrequired_of e.properties + optionals_of e.properties ≡ n
  pub installed : Installed n argnum e

-- A cache header for `n` implementation arguments that is enabled.
abbrev pub IsHeader : (n : ℕ) → Engine → Type 0
IsHeader n e =
    (e.entry_point ≡ (if leb n 7 then cache_header_engine n else cache_header_engine_n))
    ⊎ (e.entry_point
        ≡ (if leb n 7 then profiling_cache_header_engine n else profiling_cache_header_engine_n))

module _ (d : Dispatcher) where
  -- The node that a discriminator has to go on to for an argument: by the argument's type, one of
  -- two, or one unless the call is inapplicable; by its class, one unless the cache has none for it;
  -- or the one that the callback gives.
  pub data Chooses (node parent : Value) (e : Engine) (arg : Value) : Value → Type 0 where
    of_type :
        entry_type e.properties ≡ engine_if_type
        → d.runtime.instance_p arg (type_word e) ≡ true
        → Chooses node parent e arg (thennode e)
    of_other_type :
        entry_type e.properties ≡ engine_if_type
        → d.runtime.instance_p arg (type_word e) ≡ false
        → Chooses node parent e arg (elsenode e)
    of_checked_type :
        entry_type e.properties ≡ engine_typecheck
        → d.runtime.instance_p arg (type_word e) ≡ true
        → Chooses node parent e arg (nextnode e)
    of_refused_type :
        entry_type e.properties ≡ engine_typecheck
        → d.runtime.instance_p arg (type_word e) ≡ false
        → Chooses node parent e arg d.inapplicable_engine_node
    of_class :
        entry_type e.properties ≡ engine_monomorphic
        → wrapper_key d arg ≡ key e
        → Chooses node parent e arg (nextnode e)
    of_other_class :
        entry_type e.properties ≡ engine_monomorphic
        → wrapper_key d arg ≢ key e
        → Chooses node parent e arg d.absent_engine_node
    called_back :
        entry_type e.properties ≢ engine_if_type
        → entry_type e.properties ≢ engine_typecheck
        → entry_type e.properties ≢ engine_monomorphic
        → Chooses node parent e arg (d.discriminate e.callback arg parent node)

  -- The nodes from an address on, under a parent, are those of a tree.
  unfoldable pub Represents : (Value → Object) → (n : ℕ) → Tree → (node parent : Value) → Type 0
  Represents object n (leaf x) node parent = node ≡ x
  Represents object n (branch i t) node parent =
      (e : Engine) × (object node ≡ engine_node e)
      × IsDiscriminator n i e
      × ((v : Value)
          → (next : Value) × Chooses node parent e v next × Represents object n (t v) next parent)
  Represents object n (header x t) node parent =
      (e : Engine) × (node ≡ x)
      × (object node ≡ engine_node e)
      × IsHeader n e
      × Represents object n t (header_nextnode e) node

module _ (h : Heap) where
  -- The arguments of a call carry the parameters: up to seven are spread, more are in a vector.
  pub record Carries (n : ℕ) (p : Words) (args : List Value) : Type 0 where
    pub spread_length : n ≤ 7 → length args ≡ n
    pub spread_words : n ≤ 7 → (i : ℕ) → i < n → get_or args i 0 ≡ p i
    pub boxed : 7 < n → args ≡ get_or args 0 0 ∷ []
    pub boxed_size : 7 < n → (h.vector (get_or args 0 0)).size ≡ n
    pub boxed_words : 7 < n → (i : ℕ) → i < n → (h.vector (get_or args 0 0)).elements i ≡ p i

  -- The call of the next node by either of the two conventions.
  unfoldable pub advance : (n : ℕ) → (parent next : Value) → List Value → State → Tail
  advance n parent next args s =
      if leb n 7
      then goto_node h parent next args s
      else goto_node_n h parent next (get_or args 0 0) s
