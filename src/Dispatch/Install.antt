-- ===== src/Dispatch/Install.antt =====
-- The entry points that nodes and generic functions get: primitive_initialize_engine_node,
-- primitive_initialize_discriminator, primitive_enable_cache_header_engine_node,
-- primitive_invalidate_cache_engine_node and primitive_set_generic_function_entrypoints, of
-- sources/lib/run-time/c-run-time.c. A switch over 0, 1, 2 and so on that gives the function of
-- that number is written as a bound and a number.
pub mod Ready
use opendylan.Prelude.{
  ℕ, zero, suc, ◌+◌, ◌-◌, ◌*◌, ◌/◌, ◌%◌, Bool, true, false, ◌&&◌, ◌||◌, Option, none, some, ltb,
  leb, ◌==◌, if◌then◌else◌,
}
use opendylan.Prelude.Store.{update}
use opendylan.Values.{Value}
use opendylan.Dispatch.{
  Code, general_engine_node_1_engine, general_engine_node_2_engine, general_engine_node_3_engine,
  general_engine_node_n_engine, general_engine_node_spread_engine,
  boxed_instance_slot_getter_engine, boxed_instance_slot_setter_engine,
  boxed_repeated_instance_slot_getter_engine, boxed_repeated_instance_slot_setter_engine,
  raw_byte_repeated_instance_slot_getter_engine, raw_byte_repeated_instance_slot_setter_engine,
  single_method_engine, single_method_engine_n, explicit_keyed_single_method_engine,
  implicit_keyed_single_method_engine, unrestricted_keyed_single_method_engine,
  explicit_keyed_single_method_engine_n, implicit_keyed_single_method_engine_n,
  unrestricted_keyed_single_method_engine_n, cache_header_engine, profiling_cache_header_engine,
  discriminate_engine, monomorphic_discriminator_engine, if_type_discriminator_engine,
  typecheck_discriminator_engine, discriminate_engine_n_n, monomorphic_discriminator_engine_n_n,
  if_type_discriminator_engine_n_n, typecheck_discriminator_engine_n_n, Engine, meth, engine_node,
  method, generic, Heap, entry_type, argnum_of, nrequired_of, optionals_of,
  signature_number_required, signature_optionals_p, implementation_args, parent_gf,
}
use opendylan.Dispatch.Nodes.{parent_signature}

-- The switches of primitive_initialize_discriminator over the number of arguments and the argument
-- that is tested. `none` is a handler that is not set, and so not known.
module _ (numbered : (argnum nargs : ℕ) → Code) (n_n : Code) where
  unfoldable pub discriminator_switch : (impargs argnum : ℕ) → Option Code
  discriminator_switch impargs argnum =
      if impargs == 1
      then some (numbered 1 1)
      else if leb 2 impargs && leb impargs 7
      then (if ltb argnum impargs then some (numbered (argnum + 1) impargs) else none)
      else some n_n

unfoldable pub if_type_handler : (impargs argnum : ℕ) → Option Code
unfolding discriminator_switch
if_type_handler = discriminator_switch if_type_discriminator_engine if_type_discriminator_engine_n_n

unfoldable pub typecheck_handler : (impargs argnum : ℕ) → Option Code
unfolding discriminator_switch
typecheck_handler =
    discriminator_switch typecheck_discriminator_engine typecheck_discriminator_engine_n_n

unfoldable pub monomorphic_handler : (impargs argnum : ℕ) → Option Code
unfolding discriminator_switch
monomorphic_handler =
    discriminator_switch monomorphic_discriminator_engine monomorphic_discriminator_engine_n_n

unfoldable pub discriminate_handler : (impargs argnum : ℕ) → Option Code
unfolding discriminator_switch
discriminate_handler = discriminator_switch discriminate_engine discriminate_engine_n_n

-- The numbers of the kinds of node, of run-time.h.
abbrev pub engine_absent : ℕ
engine_absent = 0

abbrev pub engine_inapplicable : ℕ
engine_inapplicable = 1

abbrev pub engine_unkeyed_single_method : ℕ
engine_unkeyed_single_method = 2

abbrev pub engine_implicit_keyed_single_method : ℕ
engine_implicit_keyed_single_method = 3

abbrev pub engine_explicit_keyed_single_method : ℕ
engine_explicit_keyed_single_method = 4

abbrev pub engine_unrestricted_keyed_single_method : ℕ
engine_unrestricted_keyed_single_method = 5

abbrev pub engine_profiling_cache_header : ℕ
engine_profiling_cache_header = 13

abbrev pub engine_cache_header : ℕ
engine_cache_header = 14

abbrev pub engine_ambiguous_methods : ℕ
engine_ambiguous_methods = 15

abbrev pub engine_typecheck : ℕ
engine_typecheck = 32

abbrev pub engine_if_type : ℕ
engine_if_type = 33

abbrev pub engine_monomorphic : ℕ
engine_monomorphic = 42

-- The handler that primitive_initialize_discriminator chooses.
unfoldable pub discriminator_handler : (properties : ℕ) → Option Code
unfolding if_type_handler typecheck_handler monomorphic_handler discriminate_handler entry_type
    argnum_of nrequired_of optionals_of
discriminator_handler props =
    let argnum = argnum_of props in
    let impargs = nrequired_of props + optionals_of props in
    let etype = entry_type props in
    if etype == engine_if_type
    then if_type_handler impargs argnum
    else if etype == engine_typecheck
    then typecheck_handler impargs argnum
    else if etype == engine_monomorphic
    then monomorphic_handler impargs argnum
    else discriminate_handler impargs argnum

abbrev pub set_entry_point : Heap → Value → Engine → Code → Heap
set_entry_point h x e code = record h {
  object = update h.object x (engine_node (record e { entry_point = code }));
}

unfoldable pub primitive_initialize_discriminator : Heap → (discriminator : Value) → Option Heap
unfolding discriminator_handler
primitive_initialize_discriminator h x = elim (h.object x) [
  | engine_node e ↦ elim (discriminator_handler e.properties) [
    | none ↦ none
    | some handler ↦ some (set_entry_point h x e handler)
  ]
  | _ ↦ none
]

-- The entry point that primitive_enable_cache_header_engine_node gives a node, or leaves it: there
-- is no case for more than seven arguments.
unfoldable pub enabled_entry_point : (signature : ℕ) → Engine → Code
unfolding entry_type implementation_args
enabled_entry_point sig e =
    let impargs = implementation_args sig in
    if entry_type e.properties == engine_cache_header
    then (if leb impargs 7 then cache_header_engine impargs else e.entry_point)
    else if entry_type e.properties == engine_profiling_cache_header
    then (if leb impargs 7 then profiling_cache_header_engine impargs else e.entry_point)
    else e.entry_point

unfoldable pub primitive_enable_cache_header_engine_node :
    Heap → (engine genfun : Value) → Option Heap
unfolding enabled_entry_point
primitive_enable_cache_header_engine_node h x genfun = elim (h.object x) [
  | engine_node e ↦ elim (h.object genfun) [
    | generic g ↦ some (set_entry_point h x e (enabled_entry_point g.signature e))
    | _ ↦ none
  ]
  | _ ↦ none
]

unfoldable pub primitive_invalidate_cache_engine_node : Heap → (engine : Value) → Option Heap
primitive_invalidate_cache_engine_node h x = elim (h.object x) [
  | engine_node e ↦ some (set_entry_point h x e general_engine_node_n_engine)
  | _ ↦ none
]

-- The cases of the nodes that have one method, by the kind and the method's signature.
unfoldable pub single_method_entry_point : (etype signature : ℕ) → Code
unfolding implementation_args signature_number_required
single_method_entry_point etype sig =
    let nreq = signature_number_required sig in
    let impargs = implementation_args sig in
    if etype == engine_unkeyed_single_method
    then (if leb impargs 7 then single_method_engine impargs else single_method_engine_n)
    else if etype == engine_explicit_keyed_single_method
    then (if leb nreq 6
        then explicit_keyed_single_method_engine nreq
        else explicit_keyed_single_method_engine_n)
    else if etype == engine_implicit_keyed_single_method
    then (if leb nreq 6
        then implicit_keyed_single_method_engine nreq
        else implicit_keyed_single_method_engine_n)
    else if leb nreq 6
    then unrestricted_keyed_single_method_engine nreq
    else unrestricted_keyed_single_method_engine_n

-- The cases of the slot accessors' nodes; `old` is what a node of another kind keeps.
unfoldable pub slot_entry_point : (etype : ℕ) (old : Code) → Code
slot_entry_point etype old =
    if etype == 16
    then boxed_instance_slot_getter_engine
    else if etype == 17
    then boxed_instance_slot_setter_engine
    else if etype == 18
    then boxed_repeated_instance_slot_getter_engine
    else if etype == 19
    then boxed_repeated_instance_slot_setter_engine
    else if etype == 22
    then raw_byte_repeated_instance_slot_getter_engine
    else if etype == 23
    then raw_byte_repeated_instance_slot_setter_engine
    else if etype == 20 || etype == 24 || etype == 26
    then general_engine_node_1_engine
    else if etype == 25 || etype == 27 || etype == 21 || etype == 28 || etype == 30
    then general_engine_node_2_engine
    else if etype == 29 || etype == 31
    then general_engine_node_3_engine
    else old

-- primitive_initialize_engine_node; `fuel` is for the parents of a cache header.
unfoldable pub primitive_initialize_engine_node : (fuel : ℕ) → Heap → (engine : Value) → Option Heap
unfolding entry_type single_method_entry_point slot_entry_point parent_gf
    primitive_enable_cache_header_engine_node
primitive_initialize_engine_node fuel h x = elim (h.object x) [
  | engine_node e ↦
      let etype = entry_type e.properties in
      if etype == engine_absent
      then some (set_entry_point h x e general_engine_node_n_engine)
      else if etype == engine_ambiguous_methods || etype == engine_inapplicable
      then some (set_entry_point h x e general_engine_node_spread_engine)
      else if leb 2 etype && leb etype 5
      then elim (h.object (meth e)) [
        | method m ↦ some (set_entry_point h x e (single_method_entry_point etype m.signature))
        | _ ↦ none
      ]
      else if leb 6 etype && leb etype 14
      then elim (parent_gf fuel h x) [
        | none ↦ none
        | some gf ↦ primitive_enable_cache_header_engine_node h x gf
      ]
      else some (set_entry_point h x e (slot_entry_point etype e.entry_point))
  | _ ↦ none
]
