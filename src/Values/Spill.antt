-- ===== src/Values/Spill.antt =====
-- Values that are put aside and brought back.
use opendylan.Prelude.{
  ℕ, ◌+◌, ◌-◌, ◌≤◌, ◌<◌, ◌≡◌, refl, ◌∙◌, ap, some, arith, inl, inr, Bool-cases, ltb→lt, ltb, ◌==◌,
  if◌then◌else◌,
}
use opendylan.Prelude.Loops.{fill, fill-inside, fill-outside}
use opendylan.Prelude.Store.{update}
use opendylan.Values.{
  Value, Mv, values_max, mv_spill_into, mv_unspill, mv_get_rest_at, mv_set_rest_at,
}

-- `v` has the values of `values`, with `first_value` for the first.
pub record Restores (dfalse first_value : Value) (values : Mv) (r : Value × Mv) : Type 0 where
  pub result : r.0 ≡ (if values.count == 0 then dfalse else first_value)
  pub count : r.1.count ≡ values.count
  pub same :
      (i : ℕ) → i < values.count → r.1.value i ≡ (if i == 0 then first_value else values.value i)

fill-at : (f to : ℕ → Value) (rounds i : ℕ) → i < rounds → fill 0 f rounds 0 to i ≡ f i
fill-at f to rounds i lt =
    ap (fill 0 f rounds 0 to) (omega arith)
    ∙ fill-inside 0 f rounds 0 to i (omega arith) (omega arith)

pub mv_spill_into-at :
    (first_value : Value) (dest values : Mv) (i : ℕ)
    → i < values.count
    → (mv_spill_into first_value dest values).0.value i
      ≡ (if i == 0 then first_value else values.value i)
unfolding mv_spill_into
mv_spill_into-at first_value dest values i lt =
    fill-at (update values.value 0 first_value) dest.value values.count i lt ∙ ground arith

-- The values that MV_SPILL puts aside come back by MV_UNSPILL, whatever values the thread has in
-- between.
pub mv_unspill-mv_spill_into :
    (dfalse first_value : Value) (values dest later : Mv)
    → Restores dfalse first_value values
        (mv_unspill dfalse (mv_spill_into first_value dest values).0 later)
unfolding mv_spill_into mv_unspill
mv_unspill-mv_spill_into dfalse first_value values dest later =
    let value = update values.value 0 first_value in
    let spilled = fill 0 value values.count 0 dest.value in
    let twice : (i : ℕ) → i < values.count → fill 0 spilled values.count 0 later.value i ≡ value i =
      λ i lt.
        fill-at spilled later.value values.count i lt
        ∙ fill-at value dest.value values.count i lt in
    record {
      result = ground (arith, twice 0);
      count = refl;
      same = λ i lt. twice i lt ∙ ground arith;
    }

-- What MV_GET_REST_AT takes out from index `first` on, MV_SET_REST_AT puts back, into values that
-- agree below `first` with those of the thread; `first` is at most the count of values.
pub mv_set_rest_at-mv_get_rest_at :
    (dfalse first_value : Value) (first : ℕ) (values later : Mv)
    → first ≤ values.count
    → values.count ≤ values_max
    → ((i : ℕ) → i < first → later.value i ≡ (mv_get_rest_at first_value first values).1.value i)
    → let (size, elements) = (mv_get_rest_at first_value first values).0 in
      (r : Value × Mv) × (mv_set_rest_at dfalse size elements first later ≡ some r)
      × Restores dfalse first_value values r
unfolding mv_get_rest_at mv_set_rest_at
mv_set_rest_at-mv_get_rest_at dfalse first_value first values later le small agree =
    let value = update values.value 0 first_value in
    let size = values.count - first in
    let back = fill first (λ i. value (first + i)) size 0 later.value in
    let all : (i : ℕ) → i < values.count → back i ≡ value i = λ i lt.
      elim (Bool-cases (ltb i first)) [
        | inl below ↦
            fill-outside first (λ j. value (first + j)) size 0 later.value i
              (λ j lo hi. let under = ltb→lt i first below in omega arith)
            ∙ agree i (ltb→lt i first below)
        | inr above ↦
            let e : i ≡ i - first + first = ground (arith, above) in
            ap back e
            ∙ fill-inside first (λ j. value (first + j)) size 0 later.value (i - first)
                (omega arith) (omega arith)
            ∙ ap value (omega arith)
      ] in
    (
      (if first + size == 0 then dfalse else back 0, record { count = first + size; value = back }),
      ground arith,
      record {
        result = ground (arith, all 0);
        count = omega arith;
        same = λ i lt. all i lt ∙ ground arith;
      },
    )
