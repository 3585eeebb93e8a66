-- ===== src/Slots.antt =====
-- The engine nodes that read and write slots: boxed_instance_slot_getter_engine and its kin, and
-- primitive_slot_value, of sources/lib/run-time/c-run-time.c, with the slot macros of run-time.h.
pub mod Access
use opendylan.Prelude.{ℕ, ◌+◌, ◌-◌, ◌*◌, ◌/◌, ◌%◌, ◌^◌, Bool, not, ◌&&◌, ltb, ◌==◌, if◌then◌else◌}
use opendylan.Prelude.Int.{ℤ, pos, negsuc, pos_part, ltb_ℤ}
use opendylan.Prelude.Store.{update}
use opendylan.Values.{Value}

-- The slots of each object: words by their position, and the bytes of raw slots by their distance
-- from the first slot. No slot is used both ways.
pub record Memory : Type 0 where
  pub word : Value → ℕ → Value
  pub byte : Value → ℕ → ℕ

-- A result, or the Dylan function that is called in its place.
pub data Answer : Type 0 where
  returns : Value → Answer
  unbound_instance_slot : (object : Value) (offset : ℕ) → Answer
  unbound_repeated_slot : (object index : Value) → Answer
  repeated_getter_out_of_range : (object index : Value) → Answer
  repeated_setter_out_of_range : (new_value object index : Value) → Answer

-- R(n) of a word of 64 bits, stored in an `int` of 32.
unfoldable pub int_of : Value → ℤ
int_of n =
    let low = (n / 4) % 2 ^ 32 in if ltb low (2 ^ 31) then pos low else negsuc (2 ^ 32 - 1 - low)

-- C(n), of a byte
unfoldable pub tagged_character : ℕ → Value
tagged_character n = n * 4 + 2

-- The slot's index in the properties of a node, of SLOTENGINE_V_INDEX on. It is below 2 ^ 31.
unfoldable pub slot_index : (properties : ℕ) → ℕ
slot_index properties = properties / 65536

-- primitive_repeated_instance_size, as an `int`: the tagged word before the repeated slots.
unfoldable pub repeated_instance_size : Memory → (object : Value) (base : ℕ) → ℤ
unfolding int_of
repeated_instance_size m object base = int_of (m.word object (base - 1))

-- `ridx >= 0 && ridx < size`
unfoldable pub in_range : (ridx size : ℤ) → Bool
in_range ridx size = not (ltb_ℤ ridx (pos 0)) && ltb_ℤ ridx size

abbrev set_word : Memory → (object : Value) (position : ℕ) → Value → Memory
set_word m object position new_value = record m {
  word = update m.word object (update (m.word object) position new_value);
}

abbrev set_byte : Memory → (object : Value) (position index byte : ℕ) → Memory
set_byte m object position index byte = record m {
  byte = update m.byte object (update (m.byte object) (position * 8 + index) byte);
}

module _ (unbound : Value) (properties : ℕ) where
  unfoldable pub boxed_instance_slot_getter : (object : Value) → Memory → Answer
  unfolding slot_index
  boxed_instance_slot_getter object m =
      let idx = slot_index properties in
      let slot_value = m.word object idx in
      if slot_value == unbound then unbound_instance_slot object idx else returns slot_value

  unfoldable pub boxed_instance_slot_setter : (new_value object : Value) → Memory → Answer × Memory
  unfolding slot_index
  boxed_instance_slot_setter new_value object m =
      (returns new_value, set_word m object (slot_index properties) new_value)

  unfoldable pub boxed_repeated_instance_slot_getter : (object index : Value) → Memory → Answer
  unfolding slot_index repeated_instance_size in_range int_of
  boxed_repeated_instance_slot_getter object index m =
      let base = slot_index properties in
      let size = repeated_instance_size m object base in
      let ridx = int_of index in
      if in_range ridx size
      then (let slot_value = m.word object (base + pos_part ridx) in
          if slot_value == unbound then unbound_repeated_slot object index else returns slot_value)
      else repeated_getter_out_of_range object index

  unfoldable pub boxed_repeated_instance_slot_setter :
      (new_value object index : Value) → Memory → Answer × Memory
  unfolding slot_index repeated_instance_size in_range int_of
  boxed_repeated_instance_slot_setter new_value object index m =
      let base = slot_index properties in
      let size = repeated_instance_size m object base in
      let ridx = int_of index in
      if in_range ridx size
      then (returns new_value, set_word m object (base + pos_part ridx) new_value)
      else (repeated_setter_out_of_range new_value object index, m)

  unfoldable pub raw_byte_repeated_instance_slot_getter : (object index : Value) → Memory → Answer
  unfolding slot_index repeated_instance_size in_range int_of tagged_character
  raw_byte_repeated_instance_slot_getter object index m =
      let base = slot_index properties in
      let size = repeated_instance_size m object base in
      let ridx = int_of index in
      if in_range ridx size
      then returns (tagged_character (m.byte object (base * 8 + pos_part ridx)))
      else repeated_getter_out_of_range object index

  -- (DBCHR)R(newval) is the low byte of the untagged value.
  unfoldable pub raw_byte_repeated_instance_slot_setter :
      (new_value object index : Value) → Memory → Answer × Memory
  unfolding slot_index repeated_instance_size in_range int_of
  raw_byte_repeated_instance_slot_setter new_value object index m =
      let base = slot_index properties in
      let size = repeated_instance_size m object base in
      let ridx = int_of index in
      if in_range ridx size
      then (returns new_value, set_byte m object base (pos_part ridx) ((new_value / 4) % 256))
      else (repeated_setter_out_of_range new_value object index, m)

-- primitive_slot_value and SLOT_VALUE, which have the same body
unfoldable pub primitive_slot_value : (unbound object : Value) (position : ℕ) → Memory → Answer
primitive_slot_value unbound object position m =
    let slot_value = m.word object position in
    if slot_value == unbound then unbound_instance_slot object position else returns slot_value
