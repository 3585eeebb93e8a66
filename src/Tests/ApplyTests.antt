-- ===== src/Tests/ApplyTests.antt =====
-- Witnesses for `apply` and for the nodes of methods with keywords.
use opendylan.Calls.{Words}
use opendylan.Calls.Keywords.Bind.{twice}
use opendylan.Prelude.{ℕ, suc, ◌<◌, ◌≡◌, refl, [], ◌∷◌, arith, ◌==◌, if◌then◌else◌, get_or}
use opendylan.Dispatch.{MethodObject, Tail, explicit_keyed_single_method_engine}
use opendylan.Dispatch.Tree.{advance}
use opendylan.Dispatch.Keyed.{explicit}
use opendylan.Dispatch.Keyed.Accept.{IsTaken, keyword, Traps, keyed_engine-Enters-Traps}
use opendylan.Dispatch.{parent_gf, body, wild, Engine, Heap, engine_node}
use opendylan.Dispatch.Tree.{Carries}
use opendylan.Dispatch.Tree.{select}
use opendylan.Dispatch.Collect.{followed_by}
use opendylan.Dispatch.Tree.{depth}
use opendylan.Dispatch.Tree.Reach.{continue}
use opendylan.Dispatch.Select.{Enters}
use opendylan.Dispatch.Apply.{engine_node_apply_with_optionals, apply_using_buffer}
use opendylan.Dispatch.Apply.Node.{engine_node_apply_with_optionals-Enters}
use opendylan.Dispatch.Apply.Buffer.{Applies, apply_using_buffer-Applies}
use opendylan.Dispatch.Select.{single}
use opendylan.Tests.DispatchTests.{dispatcher, objects, idle, test_tree, test_tree-Represents}

-- A vector at 70 of the arguments 5 and 6, and one at 71 of 8 and the vector at 70.
abbrev with_vectors : Heap
with_vectors = record {
  object = objects;
  vector = λ a.
      if a == 70
      then record { size = 2; elements = λ i. get_or (5 ∷ 6 ∷ []) i 0 }
      else record { size = 0; elements = λ i. 0 };
}

engine_node_apply_with_optionals-Enters_example :
    Enters 2
      (λ i. get_or (5 ∷ 6 ∷ []) i 0)
      50
      60
      50
      (continue dispatcher with_vectors 9
        (depth test_tree (λ i. get_or (5 ∷ 6 ∷ []) i 0) 2)
        (engine_node_apply_with_optionals with_vectors 10 100 70 idle))
unfolding select
engine_node_apply_with_optionals-Enters_example =
    engine_node_apply_with_optionals-Enters with_vectors 70 dispatcher 9 test_tree 10 100 idle
      (omega arith) test_tree-Represents (single refl refl refl refl)

apply_using_buffer-Applies_example :
    Applies 50 1000 3
      (followed_by 1 (λ i. get_or (8 ∷ 70 ∷ []) i 0) λ i. get_or (5 ∷ 6 ∷ []) i 0)
      (apply_using_buffer 1000 with_vectors 50 2 (λ i. get_or (8 ∷ 70 ∷ []) i 0) (λ i. 0) idle)
apply_using_buffer-Applies_example =
    apply_using_buffer-Applies 1000 with_vectors 50 2 (λ i. get_or (8 ∷ 70 ∷ []) i 0) (λ i. 0) idle
      (omega arith) (omega arith)

-- The node of a method with one required argument and the keyword 90, and its vectors.
abbrev keyed_node : Engine
keyed_node = record {
  properties = 17;
  callback = wild;
  entry_point = explicit_keyed_single_method_engine 1;
  words = λ i. get_or (50 ∷ 60 ∷ 82 ∷ []) i 0;
}

abbrev keyed_memory : Heap
keyed_memory = record {
  object = λ x. if x == 13 then engine_node keyed_node else objects x;
  vector = λ a.
      if a == 81
      then record { size = 2; elements = λ i. get_or (90 ∷ 7 ∷ []) i 0 }
      else record { size = 1; elements = λ i. 90 };
}

keyed_Carries : Carries keyed_memory 2 (λ i. get_or (5 ∷ 81 ∷ []) i 0) (5 ∷ 81 ∷ [])
keyed_Carries = record {
  spread_length = λ few. refl;
  spread_words = λ few i range. refl;
  boxed = λ many. absurd (omega arith);
  boxed_size = λ many. absurd (omega arith);
  boxed_words = λ many. absurd (omega arith);
}

abbrev keyed_method : MethodObject
keyed_method = record { mep = body 50; signature = 2; keyword_specifiers = 80 }

abbrev keyed_call : Tail
keyed_call = continue dispatcher keyed_memory 9 2 (advance keyed_memory 2 101 13 (5 ∷ 81 ∷ []) idle)

abbrev keyed_parameters : Words
keyed_parameters i = get_or (5 ∷ 81 ∷ []) i 0

-- The keyword 90 is given, which the node takes.
keyed_engine-Enters-Traps_example :
    let key = keyword dispatcher keyed_memory keyed_method keyed_node 81 1 in
    let IsGood =
      λ (q : ℕ). IsTaken dispatcher keyed_memory keyed_method keyed_node explicit (key q) in
    ((keyed_memory.vector 81).size ≡ twice 1
      → ((q : ℕ) → q < 1 → IsGood q)
      → Enters 2 keyed_parameters 50 60 50 keyed_call)
    × ((q : ℕ)
        → (keyed_memory.vector 81).size ≡ twice 1
        → q < 1
        → ¬ IsGood q
        → ((r : ℕ) → r < q → IsGood r)
        → Traps 1000 (key q) (82, 1000) 101 13 2 keyed_parameters keyed_call)
    × ((keyed_memory.vector 81).size ≡ suc (twice 1)
        → Traps 1000 1000 (82, 1000) 101 13 2 keyed_parameters keyed_call)
unfolding parent_gf
keyed_engine-Enters-Traps_example =
    keyed_engine-Enters-Traps dispatcher keyed_memory 9 explicit 1 keyed_parameters (5 ∷ 81 ∷ [])
      keyed_Carries 13 101 101 keyed_node keyed_method 50 idle refl refl refl refl refl 1
      (omega arith)
