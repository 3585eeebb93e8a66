-- ===== src/HeapTable/Change.antt =====
-- table_redefine, table_remove, and table_define of a key that the table has.
use opendylan.Prelude.{
  ℕ, ◌-◌, ◌<◌, ◌≡◌, ◌≢◌, refl, sym, ◌∙◌, ap, subst, Bool, true, false, Option, none, some, arith,
  inl, inr, Bool-cases, ==_iff, ==_ne, ◌==◌, if◌then◌else◌,
}
use native.Mathlib.Decide.{ℕ_discrete}
use opendylan.Prelude.Store.{update, update-ne, update_self}
use opendylan.HeapTable.{
  unused, active, deleted, TableEntry, Table, table_find, table_create, table_lookup, table_define,
  table_redefine, table_remove, is_active, active_at, ◌>>=◌,
}
use opendylan.HeapTable.Map.{
  IsTable, table_find-same, table_lookup-at, table_lookup-absent, holds_or_lacks, find-Idle,
  find-active,
}
use opendylan.HeapTable.Update.{Maps}

-- What an entry stands for.
abbrev pub meaning : TableEntry → Option ℕ
meaning entry = if is_active entry.status then some entry.value else none

-- A table whose active entry at `b`, of `key`, is replaced by one that is not unused.
module _ (t : Table) (is : IsTable t) (key count b : ℕ) (lt : b < t.length)
    (found : table_find t key true ≡ some (some b)) (act : (t.array b).status ≡ active)
    (at : (t.array b).key ≡ key) (entry : TableEntry) (same_key : entry.key ≡ key)
    (used : entry.status ≢ unused) where
  abbrev array : ℕ → TableEntry
  array = update t.array b entry

  abbrev changed : Table
  changed = record { length = t.length; count = count; array = array }

  alone : (a : ℕ) → a < t.length → a ≢ b → (t.array a).status ≡ active → (t.array a).key ≢ key
  alone a la ne aa same =
      let f : table_find t key true ≡ some (some a) =
        subst (λ (k : ℕ). table_find t k true ≡ some (some a)) same (is.found a la aa) in
      ground (arith, f, found, ne)

  at_other :
      (a : ℕ)
      → a < t.length
      → a ≢ b
      → (t.array a).status ≡ active
      → table_find changed (t.array a).key true ≡ some (some a)
  at_other a la ne aa =
      let other = alone a la ne aa in
      table_find-same t array count (t.array a).key true true a
        (λ c nc s. ground (arith, s, nc, other, used, same_key)) (ground (arith, ne, aa))
        (is.found a la aa)

  at_key : entry.status ≡ active → table_find changed key true ≡ some (some b)
  at_key live =
      table_find-same t array count key true true b (λ c nc s. ground (arith, s, nc))
        (ground (arith, live, same_key)) found

  changed-IsTable : IsTable changed
  changed-IsTable = record {
    nonempty = is.nonempty;
    found = λ a la aa. elim (ℕ_discrete a b) [
      | yes p ↦
          let live : entry.status ≡ active = ground (arith, aa, p) in
          subst (λ (x : ℕ). table_find changed (array x).key true ≡ some (some x)) (sym p)
            (subst (λ (k : ℕ). table_find changed k true ≡ some (some b))
              (sym (ap TableEntry.key (update_self t.array b entry) ∙ same_key)) (at_key live))
      | no ne ↦ rw (update-ne t.array b entry a ne) (at_other a la ne (ground (arith, aa, ne)))
    ];
  }

  table_lookup-changed :
      (k : ℕ)
      → table_lookup changed k ≡ (if k == key then some (meaning entry) else table_lookup t k)
  table_lookup-changed k = elim (ℕ_discrete k key) [
    | yes p ↦ ap (table_lookup changed) p ∙ at_meaning ∙ rw ((==_iff k key).1 p) refl
    | no ne ↦ rw (==_ne k key ne) (elim (holds_or_lacks t is k) [
      | inl (a, la, aa, e) ↦
          let same : t.array a ≡ record { status = active; key = k; value = (t.array a).value } =
            ground (arith, aa, e) in
          let other : a ≢ b = ground (arith, at, ne, e) in
          table_lookup-at changed changed-IsTable k (t.array a).value a la
            (update-ne t.array b entry a other ∙ same)
          ∙ sym (table_lookup-at t is k (t.array a).value a la same)
      | inr lacks ↦
          table_lookup-absent changed changed-IsTable k
            (λ a la aa. ground (arith, aa, ne, same_key, lacks a la))
          ∙ sym (table_lookup-absent t is k lacks)
    ])
  ]
    where
      at_meaning : table_lookup changed key ≡ some (meaning entry)
      at_meaning = elim (Bool-cases (is_active entry.status)) [
        | inl e ↦ rw e (
            table_lookup-at changed changed-IsTable key entry.value b lt
              (update_self t.array b entry ∙ ground (arith, same_key, e)))
        | inr e ↦ rw e (
            table_lookup-absent changed changed-IsTable key
              (λ a la aa. ground (arith, aa, e, alone a la)))
      ]

  pub changed-Maps : Maps t key (meaning entry) changed
  changed-Maps = record { is = changed-IsTable; lookup = table_lookup-changed; length = refl }

-- What an operation on a key that the table has or lacks, as `old` says, makes of it: the key is
-- mapped as `new` says and the count is `count`, or the operation fails and changes nothing.
abbrev pub Changes :
    Table → (key : ℕ) → (old new : Option ℕ) → (count : ℕ) → Option (Bool × Table) → Type 0
Changes t key none new count r = r ≡ some (false, t)
Changes t key (some old) new count r =
    (t' : Table) × (r ≡ some (true, t')) × Maps t key new t' × (t'.count ≡ count)

module _ (t : Table) (is : IsTable t) (key : ℕ) where
  -- In a well-formed table table_redefine gives a key that the table has the new value and leaves
  -- every other key and the count as they were; the table stays well formed. Where the table lacks
  -- the key, it fails and changes nothing.
  pub table_redefine-Changes :
      (value : ℕ) (old : Option ℕ)
      → table_lookup t key ≡ some old
      → Changes t key old (some value) t.count (table_redefine t key value)
  unfolding table_redefine
  table_redefine-Changes value none h = elim (find-Idle t is key h) [
    | inl e ↦ rw e refl
    | inr (b, e, idle) ↦ rw (e, ◌>>=◌, active_at, idle) refl
  ]
  table_redefine-Changes value (some old) h =
      let (b, e, lt, at) = find-active t is key old h in
      let act = ap TableEntry.status at in
      let same = ap TableEntry.key at in
      let entry = record (t.array b) { value = value } in
      let maps = changed-Maps t is key t.count b lt e act same entry same (ground (arith, act)) in
      (
        changed t is key t.count b lt e act same entry same (ground (arith, act)),
        rw (e, ◌>>=◌, active_at, act, (==_iff (t.array b).key key).1 same, act) refl,
        subst (λ (m : Option ℕ). Maps t key m (record t { array = update t.array b entry }))
            (rw act refl) maps,
        refl,
      )

  -- In a well-formed table with a count above 0 table_remove makes the table lack a key that it has,
  -- leaves every other key as it was and counts one less; the table stays well formed. Where the
  -- table lacks the key, it fails and changes nothing.
  pub table_remove-Changes :
      (old : Option ℕ)
      → table_lookup t key ≡ some old
      → 0 < t.count
      → Changes t key old none (t.count - 1) (table_remove t key)
  unfolding table_remove
  table_remove-Changes none h pos = elim (find-Idle t is key h) [
    | inl e ↦ rw e refl
    | inr (b, e, idle) ↦ rw (e, ◌>>=◌, active_at, idle) refl
  ]
  table_remove-Changes (some old) h pos =
      let (b, e, lt, at) = find-active t is key old h in
      let act = ap TableEntry.status at in
      let same = ap TableEntry.key at in
      let entry = record (t.array b) { status = deleted } in
      let maps = changed-Maps t is key (t.count - 1) b lt e act same entry same (ground arith) in
      (
        changed t is key (t.count - 1) b lt e act same entry same (ground arith),
        rw (e, ◌>>=◌, active_at, act, ==_ne t.count 0 (omega arith)) refl,
        maps,
        refl,
      )

  -- In a well-formed table table_define of a key that the table has fails and changes nothing.
  pub table_define_present :
      (value old : ℕ)
      → table_lookup t key ≡ some (some old)
      → table_define t key value ≡ some (false, t)
  unfolding table_define
  table_define_present value old h =
      let (b, e, lt, at) = find-active t is key old h in
      let act = ap TableEntry.status at in rw (e, act) refl

-- A new table of a length above 0 is well formed, counts nothing and has no key.
pub table_create-lookup :
    (length : ℕ)
    → 0 < length
    → IsTable (table_create length)
      × ((table_create length).count ≡ 0)
      × ((key : ℕ) → table_lookup (table_create length) key ≡ some none)
unfolding table_create
table_create-lookup length pos =
    let t = table_create length in
    let is : IsTable t = record { nonempty = pos; found = λ b lt act. absurd (ground arith) } in
    (is, refl, λ key. table_lookup-absent t is key (λ b lt act. absurd (ground arith)))
