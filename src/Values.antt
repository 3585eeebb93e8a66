-- ===== src/Values.antt =====
-- The multiple values of a thread: `MV` of sources/lib/run-time/run-time.h, and the functions
-- MV_SPILL, MV_UNSPILL, MV_GET_REST_AT, MV_SET_REST_AT, MV2_ and MV3_ of
-- sources/lib/run-time/c-run-time.c.
pub mod Spill
use opendylan.Prelude.{ℕ, ◌+◌, ◌-◌, Option, none, some, ltb, ◌==◌, if◌then◌else◌}
use opendylan.Prelude.Loops.{fill}
use opendylan.Prelude.Store.{update}

-- A `dylan_value`, by its address.
abbrev pub Value : Type 0
Value = ℕ

-- `count` is not negative, and at most VALUES_MAX.
pub record Mv : Type 0 where
  pub count : ℕ
  pub value : ℕ → Value

abbrev pub values_max : ℕ
values_max = 64

-- MV_SPILL_into: the values of the thread are copied to `dest`. MV_SPILL does so for a new `dest`.
-- The results are `dest` and the values of the thread.
unfoldable pub mv_spill_into : (first_value : Value) (dest values : Mv) → Mv × Mv
mv_spill_into first_value dest values =
    let value = update values.value 0 first_value in
    (
      record { count = values.count; value = fill 0 value values.count 0 dest.value },
      record values { value = value },
    )

-- MV_UNSPILL, with the value that it returns.
unfoldable pub mv_unspill : (dfalse : Value) (src values : Mv) → Value × Mv
mv_unspill dfalse src values =
    let value = fill 0 src.value src.count 0 values.value in
    (if src.count == 0 then dfalse else value 0, record { count = src.count; value = value })

-- MV_GET_REST_AT: the size and the elements of the vector that is made, and the values of the
-- thread.
unfoldable pub mv_get_rest_at : (first_value : Value) → (first : ℕ) → Mv → (ℕ × (ℕ → Value)) × Mv
mv_get_rest_at first_value first values =
    let value = update values.value 0 first_value in
    ((values.count - first, λ i. value (first + i)), record values { value = value })

-- MV_SET_REST_AT, of a vector of `size` elements; none where it writes outside the values.
unfoldable pub mv_set_rest_at :
    (dfalse : Value) (size : ℕ) → (ℕ → Value) → (first : ℕ) → Mv → Option (Value × Mv)
mv_set_rest_at dfalse size elements first values =
    let value = fill first elements size 0 values.value in
    if ltb values_max (first + size)
    then none
    else some (
      if first + size == 0 then dfalse else value 0,
      record { count = first + size; value = value },
    )

-- MV2_ and MV3_
unfoldable pub mv2 : (x y : Value) → Mv → Value × Mv
mv2 x y values = (x, record { count = 2; value = update (update values.value 0 x) 1 y })

unfoldable pub mv3 : (x y z : Value) → Mv → Value × Mv
mv3 x y z values =
    (x, record { count = 3; value = update (update (update values.value 0 x) 1 y) 2 z })
