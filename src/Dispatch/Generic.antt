-- ===== src/Dispatch/Generic.antt =====
-- The entry points of generic functions: gf_iep, gf_xep and gf_optional_xep, with their numbered kin,
-- and primitive_set_generic_function_entrypoints, of sources/lib/run-time/c-run-time.c.
pub mod Stack
pub mod Enter
use opendylan.Prelude.{
  ℕ, zero, suc, ◌+◌, ◌-◌, Bool, not, Option, none, some, List, [], ◌∷◌, ltb, leb, ◌==◌,
  if◌then◌else◌, length, get_or,
}
use opendylan.Prelude.Loops.{fill}
use opendylan.Prelude.Store.{update}
use opendylan.Values.{Value}
use opendylan.Calls.{
  Words, Vector, Result, ok, err, ◌>>=◌, ◌>>◌, check, call_check, argument_count_error, overrun,
  buffer_varargs,
}
use opendylan.Calls.Entry.{from}
use opendylan.Dispatch.{
  Heap, State, Tail, wanders, generic, GenericFunction, spread, signature_number_required,
  signature_optionals_p,
}
use opendylan.Dispatch.Nodes.{goto_node, goto_node_n}

-- The external entry points of generic functions.
pub data Xep : Type 0 where
  gf_xep_numbered gf_optional_xep_numbered : (number_required : ℕ) → Xep
  gf_xep gf_optional_xep : Xep

-- primitive_set_generic_function_entrypoints: the entry point for a signature.
unfoldable pub generic_function_xep : (signature : ℕ) → Xep
unfolding signature_number_required signature_optionals_p
generic_function_xep sig =
    let nreq = signature_number_required sig in
    if signature_optionals_p sig == 1
    then (if leb nreq 6 then gf_optional_xep_numbered nreq else gf_optional_xep)
    else if leb nreq 7
    then gf_xep_numbered nreq
    else gf_xep

-- BASIC_REQUIRED_CALL_CHECK
unfoldable pub basic_required_call_check : (number_required argument_count : ℕ) → Result (Unit {0})
unfolding call_check
basic_required_call_check nreq n = do call_check n; check (n == nreq) (argument_count_error n)

-- BASIC_OPTIONAL_CALL_CHECK
unfoldable pub basic_optional_call_check : (number_required argument_count : ℕ) → Result (Unit {0})
unfolding call_check
basic_optional_call_check nreq n = do
  call_check n
  check (not (ltb n nreq)) (argument_count_error n)

-- DEF_STACK_VECTOR_FROM_BUFFER_WITH_SIZE: a vector at an address of the stack, whose first words are
-- those of a buffer.
unfoldable pub def_stack_vector :
    (name : Value) (vector_size : ℕ) (buffer : Words) (buffer_size : ℕ) → Heap → Heap
def_stack_vector name vector_size buffer buffer_size h = record h {
  vector = update h.vector name record {
    size = vector_size;
    elements = fill 0 buffer buffer_size 0 (h.vector name).elements;
  };
}

-- vector_ref_setter(new_value, vector, offset)
unfoldable pub vector_ref_setter : (new_value vector : Value) (offset : ℕ) → Heap → Heap
vector_ref_setter new_value vector offset h =
    let v = h.vector vector in
    record h {
      vector = update h.vector vector (record v { elements = update v.elements offset new_value });
    }

-- gf_iep_0 to 7: the generic function, which the thread's function is, becomes the parent.
unfoldable pub gf_iep_numbered : Heap → GenericFunction → List Value → State → Tail
unfolding goto_node
gf_iep_numbered h gf args s = goto_node h s.function gf.engine args s

unfoldable pub gf_iep : Heap → GenericFunction → (new_arguments : Value) → State → Tail
unfolding goto_node_n
gf_iep h gf new_arguments s = goto_node_n h s.function gf.engine new_arguments s

-- A call of an external entry point: the memory and the call that it ends in.
pub record Started : Type 0 where
  pub heap : Heap
  pub tail : Tail

-- The calls of the external entry points of a generic function at an address. The vectors on the
-- stack are at the addresses `new_arguments` and `rest_arguments`.
module _ (fn : Value) (gf : GenericFunction) (new_arguments rest_arguments : Value)
    (arguments : Words) (h : Heap) (args : List Value) (s : State) where
  abbrev gf_state : State
  gf_state = record s { function = fn }

  -- gf_xep_0 to 7
  unfoldable pub call_gf_xep_numbered : (number_required : ℕ) → Result Started
  unfolding gf_iep_numbered basic_required_call_check
  call_gf_xep_numbered number_required = do
    basic_required_call_check number_required (length args)
    ok (record { heap = h; tail = gf_iep_numbered h gf args gf_state })

  unfoldable pub call_gf_xep : Result Started
  unfolding gf_iep basic_required_call_check
  call_gf_xep = do
    let number_required = signature_number_required gf.signature
    buffer ← buffer_varargs args arguments
    basic_required_call_check number_required (length args)
    let h' = def_stack_vector new_arguments number_required buffer number_required h
    ok (record { heap = h'; tail = gf_iep h' gf new_arguments gf_state })

  -- gf_optional_xep_0 to 6, whose buffer is `teb->a`
  unfoldable pub call_gf_optional_xep_numbered : (number_required : ℕ) → Result Started
  unfolding gf_iep_numbered basic_optional_call_check def_stack_vector
  call_gf_optional_xep_numbered number_required = do
    let n = length args
    basic_optional_call_check number_required n
    buffer ← buffer_varargs args arguments
    let h' =
        def_stack_vector rest_arguments (n - number_required) (from number_required buffer)
          (n - number_required) h
    let a = update buffer number_required rest_arguments
    ok (record {
      heap = h';
      tail = gf_iep_numbered h' gf (spread (number_required + 1) a) gf_state;
    })

  unfoldable pub call_gf_optional_xep : Result Started
  unfolding gf_iep basic_optional_call_check def_stack_vector vector_ref_setter
  call_gf_optional_xep = do
    let n = length args
    let number_required = signature_number_required gf.signature
    buffer ← buffer_varargs args arguments
    basic_optional_call_check number_required n
    let h₁ = def_stack_vector new_arguments (number_required + 1) buffer number_required h
    let h₂ =
        def_stack_vector rest_arguments (n - number_required) (from number_required buffer)
          (n - number_required) h₁
    let h₃ = vector_ref_setter rest_arguments new_arguments number_required h₂
    ok (record { heap = h₃; tail = gf_iep h₃ gf new_arguments gf_state })

  -- A call through the entry point that is installed.
  unfoldable pub call_generic_function : Xep → Result Started
  unfolding call_gf_xep_numbered call_gf_xep call_gf_optional_xep_numbered call_gf_optional_xep
  call_generic_function (gf_xep_numbered k) = call_gf_xep_numbered k
  call_generic_function (gf_optional_xep_numbered k) = call_gf_optional_xep_numbered k
  call_generic_function gf_xep = call_gf_xep
  call_generic_function gf_optional_xep = call_gf_optional_xep
