-- ===== src/Calls/Returns.antt =====
-- The check of the values that a function returns: MV_CHECK_TYPE_REST of
-- sources/lib/run-time/c-run-time.c.
use opendylan.Prelude.{
  ℕ, lt→ltb, ◌==◌, ap, subst, ◌∙◌, ◌-◌, ◌≤◌, ◌<◌, ◌≡◌, refl, true, List, arith, length, get_or, ltb,
  if◌then◌else◌,
}
use opendylan.Calls.{Runtime, Result, ok, ◌>>◌, type_check_loop}
use opendylan.Calls.TypeCheck.{accepts, loop-ok}
use opendylan.Values.{Value, Mv, mv_spill_into, mv_unspill}
use opendylan.Values.Spill.{Restores, mv_spill_into-at, mv_unspill-mv_spill_into}

-- The values are put aside in `spill`, which is not initialized, since the tests are Dylan code;
-- they leave the values `later`.
unfoldable pub mv_check_type_rest :
    Runtime
    → (first_value rest_type : Value) (types : List Value) → (spill values later : Mv)
    → Result (Value × Mv)
unfolding type_check_loop mv_spill_into mv_unspill
mv_check_type_rest rt first_value rest_type types spill values later = do
  let n = length types
  let spilled = (mv_spill_into first_value spill values).0
  type_check_loop rt (λ i. get_or types i 0) spilled.value n 0
  type_check_loop rt (λ i. rest_type) spilled.value (values.count - n) n
  ok (first_value, (mv_unspill rt.dfalse spilled later).1)

-- Where there are as many values as types, or more, and each fits its type, or the type of the
-- rest, MV_CHECK_TYPE_REST returns the first value and leaves the thread's values as they were,
-- whatever the tests leave.
pub mv_check_type_rest-Restores :
    (rt : Runtime) (first_value rest_type : Value) (types : List Value) (spill values later : Mv)
    → length types ≤ values.count
    → ((i : ℕ)
        → i < values.count
        → accepts rt
            (if ltb i (length types) then get_or types i 0 else rest_type)
            (if i == 0 then first_value else values.value i)
          ≡ true)
    → (v : Mv) × (mv_check_type_rest rt first_value rest_type types spill values later
        ≡ ok (first_value, v))
      × Restores rt.dfalse first_value values
          ((mv_unspill rt.dfalse (mv_spill_into first_value spill values).0 later).0, v)
unfolding mv_check_type_rest
mv_check_type_rest-Restores rt first_value rest_type types spill values later enough fit =
    let n = length types in
    let spilled = (mv_spill_into first_value spill values).0 in
    let good : (j : ℕ) (type : Value)
        → j < values.count
        → (if ltb j n then get_or types j 0 else rest_type) ≡ type
        → accepts rt type (if j == 0 then first_value else values.value j) ≡ true =
      λ j type lt e.
        subst (λ (x : Value). accepts rt x (if j == 0 then first_value else values.value j) ≡ true)
          e (fit j lt) in
    let typed =
      loop-ok rt (λ i. get_or types i 0) spilled.value n 0
        (λ j lo hi.
          ap (accepts rt (get_or types j 0))
            (mv_spill_into-at first_value spill values j (omega arith))
          ∙ good j (get_or types j 0) (omega arith) (rw (lt→ltb j n (omega arith)) refl)) in
    let rest =
      loop-ok rt (λ i. rest_type) spilled.value (values.count - n) n
        (λ j lo hi.
          ap (accepts rt rest_type) (mv_spill_into-at first_value spill values j (omega arith))
          ∙ good j rest_type (omega arith) (ground (arith, lo))) in
    (
      (mv_unspill rt.dfalse spilled later).1,
      rw (typed, rest) refl,
      mv_unspill-mv_spill_into rt.dfalse first_value values spill later,
    )
