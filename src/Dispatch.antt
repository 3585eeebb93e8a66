-- ===== src/Dispatch.antt =====
-- Calls of generic functions: the engine nodes that choose a method, and how they are entered, of
-- sources/lib/run-time/c-run-time.c. A node or function is known by its address. A vector on the
-- stack is put at an address that the model is given.
pub mod Keyed
pub mod Nodes
pub mod Install
pub mod Generic
pub mod Tree
pub mod Select
pub mod Call
pub mod Collect
pub mod Invalidate
pub mod Apply
use opendylan.Prelude.{
  ℕ, zero, suc, ◌+◌, ◌-◌, ◌*◌, ◌/◌, ◌%◌, Bool, true, false, ◌||◌, Option, none, some, List, [], ◌∷◌,
  ltb, leb, ◌==◌, if◌then◌else◌,
}
use opendylan.Prelude.Loops.{fill}
use opendylan.Values.{Value}
use opendylan.Calls.{Words, Vector, Runtime}

-- The functions that an entry point or a callback can be. A macro's family of functions is one
-- constructor with the numbers of the name. `body` is code of a method or other compiled Dylan
-- code, and `wild` a word that is not the address of a function.
pub data Code : Type 0 where
  body : ℕ → Code
  wild : Code
  general_engine_node_1_engine general_engine_node_2_engine general_engine_node_3_engine : Code
  general_engine_node_n_engine general_engine_node_spread_engine : Code
  boxed_instance_slot_getter_engine boxed_instance_slot_setter_engine : Code
  boxed_repeated_instance_slot_getter_engine boxed_repeated_instance_slot_setter_engine : Code
  raw_byte_repeated_instance_slot_getter_engine : Code
  raw_byte_repeated_instance_slot_setter_engine : Code
  single_method_engine : (nparams : ℕ) → Code
  single_method_engine_n : Code
  explicit_keyed_single_method_engine : (nreq : ℕ) → Code
  implicit_keyed_single_method_engine : (nreq : ℕ) → Code
  unrestricted_keyed_single_method_engine : (nreq : ℕ) → Code
  explicit_keyed_single_method_engine_n implicit_keyed_single_method_engine_n : Code
  unrestricted_keyed_single_method_engine_n : Code
  cache_header_engine profiling_cache_header_engine : (nparams : ℕ) → Code
  cache_header_engine_n profiling_cache_header_engine_n : Code
  discriminate_engine : (argnum nargs : ℕ) → Code
  monomorphic_discriminator_engine : (argnum nargs : ℕ) → Code
  if_type_discriminator_engine : (argnum nargs : ℕ) → Code
  typecheck_discriminator_engine : (argnum nargs : ℕ) → Code
  discriminate_engine_n_n monomorphic_discriminator_engine_n_n : Code
  if_type_discriminator_engine_n_n typecheck_discriminator_engine_n_n : Code

-- ENGINE, and the words that the structures of the kinds of node have after it.
pub record Engine : Type 0 where
  pub properties : ℕ
  pub callback : Code
  pub entry_point : Code
  pub words : ℕ → Value

-- The words by their names in the structures.
abbrev pub key : Engine → Value
key d = d.words 0

abbrev pub type_word : Engine → Value
type_word d = d.words 0

abbrev pub meth : Engine → Value
meth e = e.words 0

-- `nextnode` of a cache header
abbrev pub header_nextnode : Engine → Value
header_nextnode e = e.words 0

-- `nextnode` of a monomorphic or a type-checking discriminator
abbrev pub nextnode : Engine → Value
nextnode d = d.words 1

abbrev pub thennode : Engine → Value
thennode d = d.words 1

-- `data` of a single-method node
abbrev pub method_data : Engine → Value
method_data e = e.words 1

-- `parent` of a cache header
abbrev pub parent_word : Engine → Value
parent_word e = e.words 1

abbrev pub elsenode : Engine → Value
elsenode d = d.words 2

-- `keywords` of a single-method node
abbrev pub keywords_word : Engine → Value
keywords_word e = e.words 2

-- A method, with the properties of its signature and, if it has keywords, the vector of them.
pub record MethodObject : Type 0 where
  pub mep : Code
  pub signature : ℕ
  pub keyword_specifiers : Value

pub record GenericFunction : Type 0 where
  pub signature : ℕ
  pub engine : Value

pub data Object : Type 0 where
  engine_node : Engine → Object
  method : MethodObject → Object
  generic : GenericFunction → Object

-- What the run-time reads: objects and vectors by their addresses.
pub record Heap : Type 0 where
  pub object : Value → Object
  pub vector : Value → Vector

-- Fields of `teb`, and the tagged counters of the profiling cache headers, by their nodes.
pub record State : Type 0 where
  pub function : Value
  pub next_methods : Value
  pub argument_count : ℕ
  pub count1 : Value → ℕ
  pub count2 : Value → ℕ

-- How a function of this part ends: it calls code in its own place; it calls a method's code or a
-- callback, which are Dylan code; it calls a trap for a wrong keyword, or an entry point of another part; it stops in `primitive_break`; it reads a structure from an object
-- of another kind, or calls a word that is no function.
pub data Tail : Type 0 where
  jumps : Code → List Value → State → Tail
  enters : Code → List Value → State → Tail
  calls_back : Code → List Value → Tail
  calls_back_vector : Code → Vector → (engine parent : Value) → Tail
  odd_keyword_args_trap : (args : Vector) (gf engine : Value) → Tail
  invalid_keyword_trap : (args : Vector) (gf engine bad_keyword keys implicit : Value) → Tail
  elsewhere : Code → List Value → State → Tail
  breaks wanders : Tail

-- What this part calls and does not define. `discriminate` is a discriminator's callback: the code,
-- then the argument, the parent and the node; it gives the next node. `mm_wrapper` is an object's
-- wrapper, and `direct_object_mm_wrappers` holds one for each tag.
pub record Dispatcher : Type 0 where
  pub runtime : Runtime
  pub dtrue : Value
  pub discriminate : Code → (argument parent node : Value) → Value
  pub mm_wrapper : Value → Value
  pub direct_object_mm_wrappers : ℕ → Value
  pub absent_engine_node : Value
  pub inapplicable_engine_node : Value

-- FUNCTIONP, of a wrapper's subtype mask: methods and generic functions have the bit.
unfoldable pub function_p : Heap → Value → Bool
function_p h x = elim (h.object x) [ engine_node e ↦ false | method m ↦ true | generic g ↦ true ]

-- `entry_point` of a node: a method has its `mep` in the same place.
unfoldable pub entry_point_at : Heap → Value → Code
entry_point_at h x = elim (h.object x) [
  | engine_node e ↦ e.entry_point
  | method m ↦ m.mep
  | generic g ↦ wild
]

-- The fields of the properties of an engine node, in the bits that run-time.h gives them.
unfoldable pub entry_type : (properties : ℕ) → ℕ
entry_type props = (props / 4) % 64

unfoldable pub argnum_of : (properties : ℕ) → ℕ
argnum_of props = (props / 256) % 256

unfoldable pub nrequired_of : (properties : ℕ) → ℕ
nrequired_of props = (props / 65536) % 256

unfoldable pub optionals_of : (properties : ℕ) → ℕ
optionals_of props = (props / 16777216) % 2

-- The fields of the properties of a signature: NUMBER_REQUIRED_MASK and OPTIONALS_P_MASK.
unfoldable pub signature_number_required : (properties : ℕ) → ℕ
signature_number_required props = props % 256

unfoldable pub signature_optionals_p : (properties : ℕ) → ℕ
signature_optionals_p props = if (props / 65536) % 2 == 1 || (props / 262144) % 2 == 1 then 1 else 0

unfoldable pub implementation_args : (signature : ℕ) → ℕ
unfolding signature_number_required signature_optionals_p
implementation_args sig = signature_number_required sig + signature_optionals_p sig

-- The first words of an array, as arguments of a call.
unfoldable pub spread : ℕ → Words → List Value
spread zero a = []
spread (suc n) a = a 0 ∷ spread n λ i. a (suc i)

-- The vector on the stack that general nodes make, of the first `n` words of an array.
unfoldable pub stack_vector : ℕ → Words → Vector
stack_vector n a = record { size = n; elements = fill 0 a n 0 λ _. 0 }

-- primitive_mep_apply_with_optionals. From ten arguments on, 64 words are passed.
unfoldable pub mep_apply_with_optionals : Heap → (fn next_methods args : Value) → State → Tail
unfolding spread
mep_apply_with_optionals h fn new_next_methods args s =
    let v = h.vector args in
    let s' : State = record s {
      function = fn;
      next_methods = new_next_methods;
      argument_count = v.size;
    } in
    elim (h.object fn) [
      | method m ↦
          if leb v.size 9
          then enters m.mep (spread v.size v.elements) s'
          else if ltb 64 v.size
          then breaks
          else enters m.mep (spread 64 v.elements) s'
      | _ ↦ wanders
    ]

-- parent_gf: the loop follows the parents of cache headers; `none` is fuel that does not suffice, or
-- an object that has no parent.
unfoldable pub parent_gf : (fuel : ℕ) → Heap → Value → Option Value
parent_gf zero h x = none
parent_gf (suc k) h x = elim (h.object x) [
  | engine_node e ↦ parent_gf k h (parent_word e)
  | method m ↦ some x
  | generic g ↦ some x
]
