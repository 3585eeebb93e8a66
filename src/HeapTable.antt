-- ===== src/HeapTable.antt =====
-- The table from addresses to addresses of the heap statistics:
-- sources/lib/run-time/heap-table.c. All its users make tables whose length is a power of two, so
-- `x & (length - 1)` is `x % length` here. An assertion that fails, and a search that does not
-- come to an end within its fuel, give none.
pub mod Probe
pub mod Map
pub mod Update
pub mod Change
pub mod Cover
pub mod Grow
pub mod Define
use opendylan.Prelude.{
  ℕ, zero, suc, ◌+◌, ◌-◌, ◌*◌, ◌%◌, ◌<◌, Bool, true, false, not, Option, none, some, ltb, ◌==◌,
  if◌then◌else◌, List, [], ◌∷◌, ◌>>=◌,
}
use opendylan.Prelude.Loops.{for_up}
use opendylan.Prelude.Store.{update}

-- TABLE_UNUSED, TABLE_ACTIVE and TABLE_DELETED.
pub data Status : Type 0 where
  unused : Status
  active : Status
  deleted : Status

-- `table_entry_s`
pub record TableEntry : Type 0 where
  pub status : Status
  pub key : ℕ
  pub value : ℕ

-- `table_s`
pub record Table : Type 0 where
  pub length : ℕ
  pub count : ℕ
  pub array : ℕ → TableEntry

abbrev pub empty_entry : TableEntry
empty_entry = record { status = unused; key = 0; value = 0 }

abbrev pub is_active : Status → Bool
is_active active = true
is_active unused = false
is_active deleted = false

-- The `switch` of table_find: whether the search ends at an entry.
abbrev pub stops : (entry : TableEntry) → (key : ℕ) → (skip_deleted : Bool) → Bool
stops entry key skip_deleted = elim entry.status [
  | active ↦ entry.key == key
  | deleted ↦ not skip_deleted
  | unused ↦ true
]

-- `hash | 1`
abbrev pub step : ℕ → ℕ
step hash = if hash % 2 == 0 then hash + 1 else hash

-- The loop of table_find from index `i`, with the test as a parameter. NULL is `some none`.
unfoldable pub probe : (fuel length : ℕ) → (ℕ → Bool) → (hash i : ℕ) → Option (Option ℕ)
probe zero length stop hash i = none
probe (suc fuel) length stop hash i =
    let next = (i + step hash) % length in
    let rest = probe fuel length stop hash next in
    if stop i then some (some i) else if next == hash then some none else rest

-- The index of the entry found.
unfoldable pub table_find : Table → (key : ℕ) → (skip_deleted : Bool) → Option (Option ℕ)
unfolding probe
table_find t key skip_deleted =
    let hash = key % t.length in
    probe t.length t.length (λ i. stops (t.array i) key skip_deleted) hash hash

-- The entry at an index that table_find gave, if it is active.
abbrev pub active_at : Table → Option ℕ → Option ℕ
active_at t none = none
active_at t (some i) = if is_active (t.array i).status then some i else none

-- table_create; the memory is there.
unfoldable pub table_create : ℕ → Table
table_create length = record { length = length; count = 0; array = λ i. empty_entry }

-- The value, or none within the result where the C function returns FALSE.
unfoldable pub table_lookup : Table → ℕ → Option (Option ℕ)
unfolding table_find
table_lookup t key = do
  found ← table_find t key true
  some (elim (active_at t found) [ none ↦ none | some i ↦ some (t.array i).value ])

-- An entry is made active: the loop body of table_grow, and the end of table_define.
abbrev pub write : (i key value : ℕ) → Table → Table
write i key value t = record t {
  array = update t.array i (record { status = active; key = key; value = value });
}

-- One round of the loop of table_grow, with its two assertions.
abbrev pub rehash : (old : TableEntry) → Option Table → Option Table
unfolding table_find
rehash old grown = do
  t ← grown
  elim old.status [
    | active ↦ do
      found ← table_find t old.key false
      elim found [
        | none ↦ none
        | some i ↦ elim (t.array i).status [
          | unused ↦ some (write i old.key old.value t)
          | active ↦ none
          | deleted ↦ none
        ]
      ]
    | unused ↦ none
    | deleted ↦ none
  ]

-- table_grow; the memory is there.
unfoldable pub table_grow : Table → Option Table
unfolding table_find
table_grow t =
    let empty = record t { length = t.length * 2; array = λ i. empty_entry } in
    for_up t.length 0 (λ i. rehash (t.array i)) (some empty)

-- The end of table_define, at the entry that was found.
abbrev pub define_at : Table → (key value : ℕ) → Option ℕ → Option (Bool × Table)
define_at t key value none = none
define_at t key value (some i) =
    if is_active (t.array i).status
    then none
    else some (true, record (write i key value t) { count = t.count + 1 })

-- table_define, with its Boolean result and the table afterwards.
unfoldable pub table_define : Table → (key value : ℕ) → Option (Bool × Table)
unfolding table_find table_grow
table_define t key value = do
  found ← table_find t key true
  elim found [
    | none ↦ do
      reused ← table_find t key false
      elim reused [
        | some i ↦ define_at t key value (some i)
        | none ↦ do
          grown ← table_grow t
          entry ← table_find grown key false
          define_at grown key value entry
      ]
    | some i ↦
        if is_active (t.array i).status then some (false, t) else define_at t key value (some i)
  ]

-- table_redefine, with the assertion on the key.
unfoldable pub table_redefine : Table → (key value : ℕ) → Option (Bool × Table)
unfolding table_find
table_redefine t key value = do
  found ← table_find t key true
  elim (active_at t found) [
    | none ↦ some (false, t)
    | some i ↦
        if (t.array i).key == key
        then some
            (true, record t { array = update t.array i (record (t.array i) { value = value }) })
        else none
  ]

unfoldable pub table_remove : Table → (key : ℕ) → Option (Bool × Table)
unfolding table_find
table_remove t key = do
  found ← table_find t key true
  elim (active_at t found) [
    | none ↦ some (false, t)
    | some i ↦ some (
      true,
      record t {
        array = update t.array i (record (t.array i) { status = deleted });
        count = if t.count == 0 then 18446744073709551615 else t.count - 1;
      },
    )
  ]

-- table_map, as the list of the calls of its argument.
entries_from : (rounds i : ℕ) → Table → List (ℕ × ℕ)
entries_from zero i t = []
entries_from (suc n) i t =
    let rest = entries_from n (suc i) t in
    if is_active (t.array i).status then ((t.array i).key, (t.array i).value) ∷ rest else rest

unfoldable pub table_map : Table → List (ℕ × ℕ)
unfolding entries_from
table_map t = entries_from t.length 0 t

abbrev pub table_count : Table → ℕ
table_count t = t.count
