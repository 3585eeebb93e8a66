-- ===== src/Slots/Access.antt =====
-- Reading slots after writing them, and indices out of range.
use opendylan.Prelude.{
  ℕ, ◌+◌, ◌-◌, ◌*◌, ◌/◌, ◌%◌, ◌<◌, ◌≡◌, ◌≢◌, refl, sym, ap, subst, ◌∙◌, ◌⊎◌, inl, inr, true, false,
  arith, ltb, if◌then◌else◌, Bool-cases, ==_ne, ◌==◌,
}
use native.Mathlib.Decide.{ℕ_discrete}
use opendylan.Prelude.Int.{ℤ, pos, negsuc, pos_part}
use opendylan.Prelude.Store.{update, update_self, update-ne}
use opendylan.Values.{Value}
use opendylan.Slots.{
  Memory, Answer, returns, unbound_repeated_slot, repeated_getter_out_of_range,
  repeated_setter_out_of_range, int_of, tagged_character, slot_index, repeated_instance_size,
  in_range, set_word, set_byte, boxed_repeated_instance_slot_getter,
  boxed_repeated_instance_slot_setter, raw_byte_repeated_instance_slot_getter,
  raw_byte_repeated_instance_slot_setter,
}

-- A cell of one object's row in a memory of rows.
module _ (rows : Value → ℕ → ℕ) (object : Value) (position x : ℕ) where
  abbrev pub rows' : Value → ℕ → ℕ
  rows' = update rows object (update (rows object) position x)

  pub cell_self : rows' object position ≡ x
  cell_self =
      ap (λ (r : ℕ → ℕ). r position) (update_self rows object _)
      ∙ update_self (rows object) position x

  pub cell_other :
      (object' : Value) (position' : ℕ)
      → (object' ≢ object) ⊎ (position' ≢ position)
      → rows' object' position' ≡ rows object' position'
  cell_other object' position' apart = elim (ℕ_discrete object' object) [
    | no ne ↦ ap (λ (r : ℕ → ℕ). r position') (update-ne rows object _ object' ne)
    | yes same ↦
        let ne : position' ≢ position = λ e. elim apart [ inl f ↦ f same | inr f ↦ f e ] in
        subst (λ o. rows' o position' ≡ rows o position') (sym same)
          (ap (λ (r : ℕ → ℕ). r position') (update_self rows object _)
            ∙ update-ne (rows object) position x position' ne)
  ]

-- An index in range is no negative number.
in_range-pos : (r size : ℤ) → in_range r size ≡ true → r ≡ pos (pos_part r)
unfolding in_range
in_range-pos r size h = ground arith

place_apart :
    (base : ℕ) (r size r' size' : ℤ)
    → in_range r size ≡ true
    → in_range r' size' ≡ true
    → r' ≢ r
    → base + pos_part r' ≢ base + pos_part r
place_apart base r size r' size' h h' ne same =
    ne (in_range-pos r' size' h' ∙ ap pos (omega (arith, same)) ∙ sym (in_range-pos r size h))

module _ (unbound properties : ℕ) (m : Memory) (object index : Value) where
  abbrev base : ℕ
  base = slot_index properties

  abbrev size : ℤ
  size = repeated_instance_size m object base

  abbrev ridx : ℤ
  ridx = int_of index

  -- What a getter reads after a write of one element.
  pub record Stores (get : (object index : Value) → Memory → Answer) (result new_value : Value)
      (r : Answer × Memory) : Type 0 where
    pub answered : r.0 ≡ returns new_value
    pub read_back : get object index r.1 ≡ returns result
    pub others :
        (object' index' : Value)
        → (object' ≢ object) ⊎ (int_of index' ≢ ridx)
        → get object' index' r.1 ≡ get object' index' m
    pub sized :
        (object' : Value)
        → repeated_instance_size r.1 object' base ≡ repeated_instance_size m object' base

  -- An index out of range: neither accessor touches the memory, and each calls its trap.
  pub repeated_slot_out_of_range :
      (new_value : Value)
      → in_range ridx size ≡ false
      → (boxed_repeated_instance_slot_getter unbound properties object index m
          ≡ repeated_getter_out_of_range object index)
        × (boxed_repeated_instance_slot_setter unbound properties new_value object index m
            ≡ (repeated_setter_out_of_range new_value object index, m))
        × (raw_byte_repeated_instance_slot_getter unbound properties object index m
            ≡ repeated_getter_out_of_range object index)
        × (raw_byte_repeated_instance_slot_setter unbound properties new_value object index m
            ≡ (repeated_setter_out_of_range new_value object index, m))
  unfolding boxed_repeated_instance_slot_getter boxed_repeated_instance_slot_setter
      raw_byte_repeated_instance_slot_getter raw_byte_repeated_instance_slot_setter
  repeated_slot_out_of_range new_value out = (rw out refl, rw out refl, rw out refl, rw out refl)

  -- The memory after a write of the boxed element.
  abbrev boxed' : Value → Memory
  boxed' new_value = set_word m object (base + pos_part ridx) new_value

  boxed_sized :
      (new_value : Value)
      → 0 < base
      → (object' : Value)
      → repeated_instance_size (boxed' new_value) object' base
        ≡ repeated_instance_size m object' base
  unfolding repeated_instance_size
  boxed_sized new_value after object' = ap int_of (
      cell_other m.word object (base + pos_part ridx) new_value object' (base - 1)
        (inr (omega arith)))

  boxed_others :
      (new_value : Value)
      → 0 < base
      → in_range ridx size ≡ true
      → (object' index' : Value) → (object' ≢ object) ⊎ (int_of index' ≢ ridx)
      → boxed_repeated_instance_slot_getter unbound properties object' index' (boxed' new_value)
        ≡ boxed_repeated_instance_slot_getter unbound properties object' index' m
  unfolding boxed_repeated_instance_slot_getter
  boxed_others new_value after fits object' index' apart =
      let sized = boxed_sized new_value after object' in
      elim (Bool-cases (in_range (int_of index') (repeated_instance_size m object' base))) [
        | inr out ↦ rw (sized, out) refl
        | inl inside ↦
            let word =
              cell_other m.word object (base + pos_part ridx) new_value object'
                (base + pos_part (int_of index'))
                (elim apart [
                  | inl ne ↦ inl ne
                  | inr ne ↦ inr (place_apart base ridx size (int_of index') _ fits inside ne)
                ]) in
            rw (sized, inside, word) refl
      ]

  -- the boxed accessors
  boxed_slot-Stores :
      (new_value : Value)
      → 0 < base
      → in_range ridx size ≡ true
      → new_value ≢ unbound
      → Stores
          (boxed_repeated_instance_slot_getter unbound properties)
          new_value
          new_value
          (boxed_repeated_instance_slot_setter unbound properties new_value object index m)
  unfolding boxed_repeated_instance_slot_getter boxed_repeated_instance_slot_setter
  boxed_slot-Stores new_value after fits bound =
      let sized = boxed_sized new_value after object in
      let word = cell_self m.word object (base + pos_part ridx) new_value in
      rw fits record {
        answered = refl;
        read_back = rw (sized, fits, word, ==_ne new_value unbound bound) refl;
        others = boxed_others new_value after fits;
        sized = boxed_sized new_value after;
      }

  abbrev raw' : Value → Memory
  raw' new_value = set_byte m object base (pos_part ridx) ((new_value / 4) % 256)

  raw_others :
      (new_value : Value)
      → in_range ridx size ≡ true
      → (object' index' : Value) → (object' ≢ object) ⊎ (int_of index' ≢ ridx)
      → raw_byte_repeated_instance_slot_getter unbound properties object' index' (raw' new_value)
        ≡ raw_byte_repeated_instance_slot_getter unbound properties object' index' m
  unfolding raw_byte_repeated_instance_slot_getter repeated_instance_size
  raw_others new_value fits object' index' apart =
      elim (Bool-cases (in_range (int_of index') (repeated_instance_size m object' base))) [
        | inr out ↦ rw out refl
        | inl inside ↦
            let byte =
              cell_other m.byte object (base * 8 + pos_part ridx) ((new_value / 4) % 256) object'
                (base * 8 + pos_part (int_of index'))
                (elim apart [
                  | inl ne ↦ inl ne
                  | inr ne ↦ inr (place_apart (base * 8) ridx size (int_of index') _ fits inside ne)
                ]) in
            rw (inside, byte) refl
      ]

  -- the accessors of raw bytes
  raw_slot-Stores :
      (new_value : Value)
      → in_range ridx size ≡ true
      → Stores
          (raw_byte_repeated_instance_slot_getter unbound properties)
          (tagged_character ((new_value / 4) % 256))
          new_value
          (raw_byte_repeated_instance_slot_setter unbound properties new_value object index m)
  unfolding raw_byte_repeated_instance_slot_getter raw_byte_repeated_instance_slot_setter
      repeated_instance_size
  raw_slot-Stores new_value fits =
      let byte = cell_self m.byte object (base * 8 + pos_part ridx) ((new_value / 4) % 256) in
      rw fits record {
        answered = refl;
        read_back = rw (fits, byte) refl;
        others = raw_others new_value fits;
        sized = λ object'. refl;
      }

  -- An element that is written at an index in range is read back: a boxed one as it is, if it is not
  -- the unbound marker, and a raw byte as a character, the low eight bits of what was given. The
  -- elements of other indices and objects, and all sizes, are as before.
  pub repeated_instance_slot-Stores :
      (new_value : Value)
      → 0 < base
      → in_range ridx size ≡ true
      → new_value ≢ unbound
      → Stores
          (boxed_repeated_instance_slot_getter unbound properties)
          new_value
          new_value
          (boxed_repeated_instance_slot_setter unbound properties new_value object index m)
        × Stores
            (raw_byte_repeated_instance_slot_getter unbound properties)
            (tagged_character ((new_value / 4) % 256))
            new_value
            (raw_byte_repeated_instance_slot_setter unbound properties new_value object index m)
  repeated_instance_slot-Stores new_value after fits bound =
      (boxed_slot-Stores new_value after fits bound, raw_slot-Stores new_value fits)

  int_of-wraps : (n : Value) → int_of (n + 17179869184) ≡ int_of n
  unfolding int_of
  int_of-wraps n =
      ap (λ low. if ltb low 2147483648 then pos low else negsuc (4294967295 - low)) (omega arith)

  -- An index that is greater by 2 ^ 32 names the same element, for both getters: where the index is in
  -- range, no error of range is signalled for the greater one, but the element is read; the boxed
  -- getter then signals that it is unbound, if it is, as it does for any index.
  pub repeated_slot_getter-wraps :
      in_range ridx size ≡ true
      → (boxed_repeated_instance_slot_getter unbound properties object (index + 17179869184) m ≡ (
          if m.word object (base + pos_part ridx) == unbound
          then unbound_repeated_slot object (index + 17179869184)
          else returns (m.word object (base + pos_part ridx))))
        × (raw_byte_repeated_instance_slot_getter unbound properties object (index + 17179869184) m
            ≡ returns (tagged_character (m.byte object (base * 8 + pos_part ridx))))
  unfolding boxed_repeated_instance_slot_getter raw_byte_repeated_instance_slot_getter
  repeated_slot_getter-wraps fits =
      (rw (int_of-wraps index, fits) refl, rw (int_of-wraps index, fits) refl)
