-- ===== src/Tests/DispatchTests.antt =====
-- Runs and witnesses for the dispatch of generic functions.
use opendylan.Prelude.{
  ◌+◌, ◌≡◌, ◌⊎◌, refl, inl, inr, [], ◌∷◌, arith, ◌==◌, if◌then◌else◌, Bool-cases, get_or,
}
use opendylan.Values.{Value}
use opendylan.Dispatch.{
  argnum_of, nrequired_of, optionals_of, signature_number_required, signature_optionals_p,
  implementation_args, parent_gf, body, wild, Engine, Object, GenericFunction, Heap, State,
  Dispatcher, engine_node, method, generic, if_type_discriminator_engine, single_method_engine,
}
use opendylan.Dispatch.Install.{primitive_enable_cache_header_engine_node}
use opendylan.Dispatch.Tree.{
  Tree, leaf, branch, Represents, Carries, by_if_type, of_type, of_other_type,
}
use opendylan.Dispatch.Nodes.{general_engine_node_spread}
use opendylan.Dispatch.Tree.{select, IsDiscriminator, IsHeader}
use opendylan.Dispatch.{entry_type}
use opendylan.Dispatch.Install.{primitive_initialize_discriminator}
use opendylan.Dispatch.Install.Ready.{
  Initialized, primitive_initialize_discriminator-IsDiscriminator,
  primitive_enable_cache_header_engine_node-IsHeader,
}
use opendylan.Dispatch.Collect.{CallsBack, followed_by, general_engine_node_spread-CallsBack}
use opendylan.Dispatch.Invalidate.{Invalidated, primitive_invalidate_cache_engine_node-CallsBack}
use opendylan.Dispatch.Select.{direct, single}
use opendylan.Dispatch.Call.{
  Dispatches, DispatchesOptional, call_generic_function-Dispatches,
  call_generic_function-DispatchesOptional,
}

-- Values with the address 5 are of the type that the node at 10 tests.
abbrev pub dispatcher : Dispatcher
dispatcher = record {
  runtime = record { dfalse = 1000; object_class = 1001; instance_p = λ x type. x == 5 };
  dtrue = 1002;
  discriminate = λ code argument parent node. 0;
  mm_wrapper = λ x. 0;
  direct_object_mm_wrappers = λ tag. 0;
  absent_engine_node = 2000;
  inapplicable_engine_node = 2001;
}

abbrev test_node : Engine
test_node = record {
  properties = 131205;
  callback = wild;
  entry_point = if_type_discriminator_engine 1 2;
  words = λ i. get_or (7 ∷ 11 ∷ 51 ∷ []) i 0;
}

abbrev single_node : Engine
single_node = record {
  properties = 9;
  callback = wild;
  entry_point = single_method_engine 2;
  words = λ i. get_or (50 ∷ 60 ∷ []) i 0;
}

abbrev header_node : Engine
header_node = record {
  properties = 57;
  callback = body 9;
  entry_point = wild;
  words = λ i. get_or (10 ∷ 100 ∷ []) i 0;
}

abbrev two_required : GenericFunction
two_required = record { signature = 2; engine = 10 }

abbrev one_and_rest : GenericFunction
one_and_rest = record { signature = 262145; engine = 52 }

abbrev pub objects : Value → Object
objects x =
    if x == 10
    then engine_node test_node
    else if x == 11
    then engine_node single_node
    else if x == 12
    then engine_node header_node
    else if x == 100
    then generic two_required
    else if x == 101
    then generic one_and_rest
    else method (record { mep = body x; signature = 2; keyword_specifiers = 80 })

abbrev memory : Heap
memory = record { object = objects; vector = λ a. record { size = 0; elements = λ i. 0 } }

abbrev pub idle : State
idle = record {
  function = 0;
  next_methods = 0;
  argument_count = 0;
  count1 = λ a. 1;
  count2 = λ a. 1;
}

abbrev pub test_tree : Tree
test_tree = branch 0 λ v. if v == 5 then leaf 11 else leaf 51

pub test_tree-Represents : Represents dispatcher objects 2 test_tree 10 100
unfolding Represents entry_type argnum_of nrequired_of optionals_of
test_tree-Represents = (
  test_node,
  refl,
  record {
    tested = refl;
    in_range = omega arith;
    arguments = refl;
    installed = by_if_type refl refl;
  },
  λ v. elim (Bool-cases (v == 5)) [
    | inl is ↦ (11, of_type refl is, rw is refl)
    | inr other ↦ (51, of_other_type refl other, rw other refl)
  ],
)

call_generic_function-Dispatches_example :
    Dispatches dispatcher memory 9 100 two_required test_tree 901 900
      (λ i. 0)
      (5 ∷ 6 ∷ [])
      idle
      2
      (λ i. get_or (5 ∷ 6 ∷ []) i 0)
      50
      60
      50
unfolding select signature_number_required signature_optionals_p
call_generic_function-Dispatches_example =
    call_generic_function-Dispatches dispatcher memory 9 100 two_required test_tree 901 900 (λ i. 0)
      (5 ∷ 6 ∷ []) idle refl refl (omega arith) test_tree-Represents (single refl refl refl refl)

call_generic_function-DispatchesOptional_example :
    DispatchesOptional dispatcher memory 9 101 one_and_rest
      (leaf 52)
      901
      900
      (λ i. 0)
      (5 ∷ 6 ∷ 7 ∷ [])
      idle
      52
      101
      52
unfolding select signature_number_required signature_optionals_p Represents
call_generic_function-DispatchesOptional_example =
    call_generic_function-DispatchesOptional dispatcher memory 9 101 one_and_rest (leaf 52) 901 900
      (λ i. 0) (5 ∷ 6 ∷ 7 ∷ []) idle refl (λ e. absurd (omega arith)) (omega arith) (omega arith)
      (omega arith) refl (direct refl refl)

primitive_initialize_discriminator-IsDiscriminator_example :
    Initialized memory 10 test_node
      (IsDiscriminator (nrequired_of 131205 + optionals_of 131205) (argnum_of 131205))
      (primitive_initialize_discriminator memory 10)
unfolding argnum_of nrequired_of optionals_of
primitive_initialize_discriminator-IsDiscriminator_example =
    primitive_initialize_discriminator-IsDiscriminator memory 10 test_node refl (omega arith)

primitive_enable_cache_header_engine_node-IsHeader_example :
    Initialized memory 12 header_node
      (IsHeader 2)
      (primitive_enable_cache_header_engine_node memory 12 100)
unfolding implementation_args signature_number_required signature_optionals_p entry_type
primitive_enable_cache_header_engine_node-IsHeader_example =
    primitive_enable_cache_header_engine_node-IsHeader memory 12 100 header_node two_required refl
      refl (inl refl) (omega arith)

spread_Carries : Carries memory 2 (λ i. get_or (5 ∷ 6 ∷ []) i 0) (5 ∷ 6 ∷ [])
spread_Carries = record {
  spread_length = λ few. refl;
  spread_words = λ few i range. refl;
  boxed = λ many. absurd (omega arith);
  boxed_size = λ many. absurd (omega arith);
  boxed_words = λ many. absurd (omega arith);
}

-- The thread when the node at 12 is called, of the generic function at 100.
abbrev at_header : State
at_header = record idle { function = 12; next_methods = 100 }

primitive_invalidate_cache_engine_node-CallsBack_example :
    Invalidated memory 12 dispatcher 9 2
      (λ i. get_or (5 ∷ 6 ∷ []) i 0)
      header_node
      (5 ∷ 6 ∷ [])
      at_header
unfolding implementation_args signature_number_required signature_optionals_p parent_gf
primitive_invalidate_cache_engine_node-CallsBack_example =
    primitive_invalidate_cache_engine_node-CallsBack dispatcher memory 9 12 header_node
      (λ i. get_or (5 ∷ 6 ∷ []) i 0) (5 ∷ 6 ∷ []) at_header 100 two_required refl refl refl refl
      (λ e. absurd (omega arith)) spread_Carries

general_engine_node_spread-CallsBack_example :
    ((signature_optionals_p 2 ≡ 0)
      × CallsBack
          (body 9)
          (signature_number_required 2)
          (λ i. get_or (5 ∷ 6 ∷ []) i 0)
          12
          100
          (general_engine_node_spread dispatcher memory 9 (5 ∷ 6 ∷ []) header_node at_header))
    ⊎ ((signature_optionals_p 2 ≡ 1)
        × CallsBack
            (body 9)
            (signature_number_required 2 + 0)
            (followed_by (signature_number_required 2) (λ i. get_or (5 ∷ 6 ∷ []) i 0) λ i. 0)
            12
            100
            (general_engine_node_spread dispatcher memory 9 (5 ∷ 6 ∷ []) header_node at_header))
unfolding implementation_args signature_number_required signature_optionals_p parent_gf
general_engine_node_spread-CallsBack_example =
    general_engine_node_spread-CallsBack dispatcher memory 9 (λ i. get_or (5 ∷ 6 ∷ []) i 0)
      (5 ∷ 6 ∷ []) header_node at_header 100 two_required refl refl spread_Carries
