-- ===== src/Dispatch/Apply.antt =====
-- Applying functions and engine nodes to vectors of arguments: primitive_xep_apply, iep_apply,
-- primitive_mep_apply, primitive_engine_node_apply and the primitives that spread a last argument, of
-- sources/lib/run-time/c-run-time.c.
pub mod Node
pub mod Buffer
use opendylan.Prelude.{
  ℕ, zero, suc, ◌+◌, ◌-◌, Bool, Option, none, some, List, [], ◌∷◌, ltb, leb, ◌==◌, if◌then◌else◌,
  length, get_or,
}
use opendylan.Prelude.Loops.{fill}
use opendylan.Prelude.Store.{update}
use opendylan.Values.{Value}
use opendylan.Calls.{Words, Vector, Result, ok, err, ◌>>=◌, overrun, max_arguments, buffer_varargs}
use opendylan.Calls.Entry.{from}
use opendylan.Dispatch.{
  Code, Heap, State, Tail, jumps, wanders, generic, method, spread, function_p, entry_point_at,
  signature_number_required, signature_optionals_p, mep_apply_with_optionals, parent_gf,
}
use opendylan.Dispatch.Generic.{def_stack_vector, vector_ref_setter}

-- A call of C code with a function, its argument count and arguments, and the thread's state.
pub record Applied : Type 0 where
  pub callee : Value
  pub count : ℕ
  pub arguments : List Value
  pub state : State

-- primitive_xep_apply. From ten arguments on, 64 words are passed; none is `primitive_break`.
unfoldable pub xep_apply : (dfalse fn : Value) (n : ℕ) → Words → State → Option Applied
unfolding spread
xep_apply dfalse fn n a s =
    let call : List Value → Applied = λ arguments. record {
      callee = fn;
      count = n;
      arguments = arguments;
      state = record s { function = fn; next_methods = dfalse };
    } in
    if leb n 9
    then some (call (spread n a))
    else if ltb 64 n
    then none
    else some (call (spread 64 a))

-- iep_apply: the arguments that the code is called with.
unfoldable pub iep_apply : (n : ℕ) → Words → Option (List Value)
unfolding spread
iep_apply n a = if leb n 9 then some (spread n a) else if ltb 64 n then none else some (spread 64 a)

-- primitive_engine_node_apply_with_optionals
unfoldable pub engine_node_apply_with_optionals : Heap → (eng parent args : Value) → State → Tail
unfolding spread entry_point_at function_p mep_apply_with_optionals
engine_node_apply_with_optionals h eng parent args s =
    let v = h.vector args in
    let ep = entry_point_at h eng in
    let s' : State = record s { function = eng; next_methods = parent; argument_count = v.size } in
    if leb v.size 7
    then jumps ep (spread v.size v.elements) s'
    else if function_p h eng
    then mep_apply_with_optionals h eng parent args s'
    else jumps ep (args ∷ []) s'

-- The packing that primitive_engine_node_apply and primitive_mep_apply share: the vector `a` becomes
-- one of the required arguments and of a #rest vector of the others.
unfoldable pub pack_optionals :
    (new_arguments rest_arguments : Value) (number_required : ℕ) (a : Value) → Heap → Heap
unfolding def_stack_vector vector_ref_setter
pack_optionals new_arguments rest_arguments number_required a h =
    let v = h.vector a in
    let optionals_count = v.size - number_required in
    let h₁ = def_stack_vector new_arguments (number_required + 1) v.elements number_required h in
    let h₂ =
      def_stack_vector rest_arguments optionals_count (from number_required v.elements)
        optionals_count h₁ in
    vector_ref_setter rest_arguments new_arguments number_required h₂

-- primitive_engine_node_apply, with the memory that it leaves; `fuel` is for the parents.
unfoldable pub engine_node_apply :
    (fuel : ℕ) (new_arguments rest_arguments : Value)
    → Heap
    → (eng parent a : Value) → State
    → Option (Heap × Tail)
unfolding parent_gf signature_number_required signature_optionals_p pack_optionals
    engine_node_apply_with_optionals
engine_node_apply fuel new_arguments rest_arguments h eng parent a s =
    elim (parent_gf fuel h parent) [
      | none ↦ none
      | some gf ↦ elim (h.object gf) [
        | generic g ↦
            if signature_optionals_p g.signature == 1
            then (let h' =
                  pack_optionals new_arguments rest_arguments
                    (signature_number_required g.signature) a h in
                some (h', engine_node_apply_with_optionals h' eng parent new_arguments s))
            else some (h, engine_node_apply_with_optionals h eng parent a s)
        | _ ↦ none
      ]
    ]

-- primitive_mep_apply
unfoldable pub mep_apply :
    (new_arguments rest_arguments : Value)
    → Heap
    → (fn next_methods a : Value) → State
    → Option (Heap × Tail)
unfolding signature_number_required signature_optionals_p pack_optionals mep_apply_with_optionals
mep_apply new_arguments rest_arguments h fn next_methods a s = elim (h.object fn) [
  | method m ↦
      if signature_optionals_p m.signature == 1
      then (let h' =
            pack_optionals new_arguments rest_arguments (signature_number_required m.signature) a
              h in
          some (h', mep_apply_with_optionals h' fn next_methods new_arguments s))
      else some (h, mep_apply_with_optionals h fn next_methods a s)
  | _ ↦ none
]

-- The first `n - 1` words of a buffer and then the elements of the vector that is the last:
-- primitive_apply_using_buffer, into `teb->apply_buffer`, which has room for MAX_ARGUMENTS.
unfoldable pub apply_buffer : Heap → (n : ℕ) (a buffer : Words) → Result Words
apply_buffer h n a buffer =
    let optionals = h.vector (a (n - 1)) in
    let copied = fill 0 a (n - 1) 0 buffer in
    if ltb max_arguments (n + optionals.size - 1)
    then err overrun
    else ok (fill (n - 1) optionals.elements optionals.size 0 copied)

unfoldable pub apply_using_buffer :
    (dfalse : Value)
    → Heap
    → (fn : Value) (n : ℕ) (a buffer : Words) → State
    → Result (Option Applied)
unfolding apply_buffer xep_apply
apply_using_buffer dfalse h fn n a buffer s = do
  words ← apply_buffer h n a buffer
  ok (xep_apply dfalse fn (n + (h.vector (a (n - 1))).size - 1) words s)

-- primitive_apply, of a vector of arguments
unfoldable pub primitive_apply :
    (dfalse : Value) → Heap → (fn args : Value) (buffer : Words) → State → Result (Option Applied)
unfolding apply_using_buffer
primitive_apply dfalse h fn args buffer s =
    apply_using_buffer dfalse h fn (h.vector args).size (h.vector args).elements buffer s

-- primitive_apply_spread: the arguments are first copied to `teb->buffer`.
unfoldable pub primitive_apply_spread :
    (dfalse : Value)
    → Heap
    → (fn : Value) → List Value
    → (teb_buffer buffer : Words) → State
    → Result (Option Applied)
unfolding apply_using_buffer
primitive_apply_spread dfalse h fn args teb_buffer buffer s = do
  a ← buffer_varargs args teb_buffer
  apply_using_buffer dfalse h fn (length args) a buffer s

-- The vector that primitive_mep_apply_spread and primitive_engine_node_apply_spread make of their
-- arguments: all but the last, and then the elements of the last.
unfoldable pub spread_vector : (new_arguments : Value) (n : ℕ) (buffer : Words) → Heap → Heap
unfolding def_stack_vector
spread_vector new_arguments n buffer h =
    let v = h.vector (buffer (n - 1)) in
    let h₁ = def_stack_vector new_arguments (n + v.size - 1) buffer (n - 1) h in
    let made = h₁.vector new_arguments in
    record h₁ {
      vector =
          update h₁.vector new_arguments
            (record made { elements = fill (n - 1) v.elements v.size 0 made.elements });
    }

unfoldable pub mep_apply_spread :
    (vector new_arguments rest_arguments : Value)
    → Heap
    → (fn next_methods : Value) → List Value
    → (teb_buffer : Words) → State
    → Result (Option (Heap × Tail))
unfolding spread_vector mep_apply
mep_apply_spread vector new_arguments rest_arguments h fn next_methods args teb_buffer s = do
  buffer ← buffer_varargs args teb_buffer
  let h' = spread_vector vector (length args) buffer h
  ok (mep_apply new_arguments rest_arguments h' fn next_methods vector s)

unfoldable pub engine_node_apply_spread :
    (fuel : ℕ) (vector new_arguments rest_arguments : Value)
    → Heap
    → (e parent : Value) → List Value
    → (teb_buffer : Words) → State
    → Result (Option (Heap × Tail))
unfolding spread_vector engine_node_apply
engine_node_apply_spread fuel vector new_arguments rest_arguments h e parent args teb_buffer s = do
  buffer ← buffer_varargs args teb_buffer
  let h' = spread_vector vector (length args) buffer h
  ok (engine_node_apply fuel new_arguments rest_arguments h' e parent vector s)
