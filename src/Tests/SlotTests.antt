-- ===== src/Tests/SlotTests.antt =====
-- An object of which the slot 0 is a size of 3, and the slots from 1 on are repeated.
use opendylan.Prelude.{◌≡◌, refl, [], ◌∷◌, arith, get_or}
use opendylan.Slots.{
  Memory, returns, repeated_getter_out_of_range, tagged_character, int_of, slot_index, in_range,
  repeated_instance_size, boxed_repeated_instance_slot_getter, boxed_repeated_instance_slot_setter,
  raw_byte_repeated_instance_slot_getter, raw_byte_repeated_instance_slot_setter,
}
use opendylan.Slots.Access.{Stores, repeated_instance_slot-Stores, repeated_slot_getter-wraps}

abbrev memory : Memory
memory = record {
  word = λ object position. get_or (13 ∷ 100 ∷ 101 ∷ 102 ∷ []) position 0;
  byte = λ object position. position;
}

-- The element 1, and the element 3, which there is not.
getter_in_range : boxed_repeated_instance_slot_getter 9 65536 40 5 memory ≡ returns 101
unfolding boxed_repeated_instance_slot_getter slot_index int_of in_range repeated_instance_size
getter_in_range = refl

getter_out_of_range :
    boxed_repeated_instance_slot_getter 9 65536 40 13 memory ≡ repeated_getter_out_of_range 40 13
unfolding boxed_repeated_instance_slot_getter slot_index int_of in_range repeated_instance_size
getter_out_of_range = refl

repeated_instance_slot-Stores_example :
    Stores 9 65536 memory 40 5
      (boxed_repeated_instance_slot_getter 9 65536)
      260
      260
      (boxed_repeated_instance_slot_setter 9 65536 260 40 5 memory)
    × Stores 9 65536 memory 40 5
        (raw_byte_repeated_instance_slot_getter 9 65536)
        (tagged_character 65)
        260
        (raw_byte_repeated_instance_slot_setter 9 65536 260 40 5 memory)
unfolding slot_index int_of in_range repeated_instance_size
repeated_instance_slot-Stores_example =
    repeated_instance_slot-Stores 9 65536 memory 40 5 260 (omega arith) refl
      λ e. absurd (omega arith)

repeated_slot_getter-wraps_example :
    (boxed_repeated_instance_slot_getter 9 65536 40 17179869189 memory ≡ returns 101)
    × (raw_byte_repeated_instance_slot_getter 9 65536 40 17179869189 memory
        ≡ returns (tagged_character 9))
unfolding slot_index int_of in_range repeated_instance_size
repeated_slot_getter-wraps_example = repeated_slot_getter-wraps 9 65536 memory 40 5 refl
