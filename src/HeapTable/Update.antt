-- ===== src/HeapTable/Update.antt =====
-- The operations that change a table, as operations on the map that table_lookup reads.
use opendylan.Prelude.{
  ℕ, ◌+◌, ◌<◌, ◌≡◌, ◌≢◌, refl, sym, ◌∙◌, ap, subst, Bool, true, false, Option, none, some, arith,
  inl, inr, ==_iff, ==_ne, ◌==◌, if◌then◌else◌,
}
use native.Mathlib.Decide.{ℕ_discrete}
use opendylan.Prelude.Store.{update, update-ne, update_self}
use opendylan.HeapTable.{
  active, TableEntry, Table, table_find, table_lookup, table_define, is_active, define_at,
}
use opendylan.HeapTable.Map.{
  IsTable, table_find_total, table_find-lt, table_find-stops, table_find-same, table_lookup-at,
  table_lookup-absent, table_lookup-none, holds_or_lacks,
}

-- A table with the entry of `key` written at `b`, which a search for `key` found inactive.
module _ (t : Table) (is : IsTable t) (key value count : ℕ) (skip : Bool) (b : ℕ)
    (found : table_find t key skip ≡ some (some b)) (free : is_active (t.array b).status ≡ false)
    (absent : (a : ℕ) → a < t.length → (t.array a).status ≡ active → (t.array a).key ≢ key) where
  abbrev pub entry : TableEntry
  entry = record { status = active; key = key; value = value }

  abbrev pub array : ℕ → TableEntry
  array = update t.array b entry

  abbrev pub written : Table
  written = record { length = t.length; count = count; array = array }

  at_key : table_find written key true ≡ some (some b)
  at_key =
      table_find-same t array count key skip true b (λ a ne s. ground (arith, s, ne)) (ground arith)
        found

  at_other :
      (a : ℕ)
      → a < t.length
      → a ≢ b
      → (t.array a).status ≡ active
      → table_find written (t.array a).key true ≡ some (some a)
  at_other a lt ne act =
      let other = absent a lt act in
      table_find-same t array count (t.array a).key true true a
        (λ c nc s. ground (arith, s, nc, other, free)) (ground (arith, ne, act)) (is.found a lt act)

  pub written-IsTable : IsTable written
  written-IsTable = record {
    nonempty = is.nonempty;
    found = λ a lt act. elim (ℕ_discrete a b) [
      | yes p ↦
          subst (λ (x : ℕ). table_find written (array x).key true ≡ some (some x)) (sym p)
            (rw (update_self t.array b entry) at_key)
      | no ne ↦ rw (update-ne t.array b entry a ne) (at_other a lt ne (ground (arith, act, ne)))
    ];
  }

  pub table_lookup-written :
      (k : ℕ) → table_lookup written k ≡ (if k == key then some (some value) else table_lookup t k)
  table_lookup-written k = elim (ℕ_discrete k key) [
    | yes p ↦
        ap (table_lookup written) p
        ∙ table_lookup-at written written-IsTable key value b
            (table_find-lt t is.nonempty key skip b found) (update_self t.array b entry)
        ∙ rw ((==_iff k key).1 p) refl
    | no ne ↦ rw (==_ne k key ne) (elim (holds_or_lacks t is k) [
      | inl (a, lt, act, e) ↦
          let same : t.array a ≡ record { status = active; key = k; value = (t.array a).value } =
            ground (arith, act, e) in
          let other : a ≢ b = ground (arith, act, free) in
          table_lookup-at written written-IsTable k (t.array a).value a lt
            (update-ne t.array b entry a other ∙ same)
          ∙ sym (table_lookup-at t is k (t.array a).value a lt same)
      | inr lacks ↦
          table_lookup-absent written written-IsTable k
            (λ a lt act. ground (arith, act, ne, lacks a lt))
          ∙ sym (table_lookup-absent t is k lacks)
    ])
  ]

-- `t'` is `t` with `key` mapped as `entry` says.
pub record Maps (t : Table) (key : ℕ) (entry : Option ℕ) (t' : Table) : Type 0 where
  pub is : IsTable t'
  pub lookup : (k : ℕ) → table_lookup t' k ≡ (if k == key then some entry else table_lookup t k)
  pub length : t'.length ≡ t.length

module _ (t : Table) (is : IsTable t) (key value : ℕ) where
  -- An entry that the search gives for an absent key is free, and the key is written there.
  pub define_at-Maps :
      (skip : Bool) (b : ℕ)
      → table_find t key skip ≡ some (some b)
      → table_lookup t key ≡ some none
      → (is_active (t.array b).status ≡ false)
        × (t' : Table) × (define_at t key value (some b) ≡ some (true, t'))
        × Maps t key (some value) t'
        × (t'.count ≡ t.count + 1)
  define_at-Maps skip b found missing =
      let lt = table_find-lt t is.nonempty key skip b found in
      let absent = table_lookup-none t is key missing in
      let free : is_active (t.array b).status ≡ false =
        ground (arith, absent b lt, table_find-stops t is.nonempty key skip b found) in
      let t' = written t is key value (t.count + 1) skip b found free absent in
      (
        free,
        t',
        rw free refl,
        record {
          is = written-IsTable t is key value (t.count + 1) skip b found free absent;
          lookup = table_lookup-written t is key value (t.count + 1) skip b found free absent;
          length = refl;
        },
        refl,
      )

  -- In a well-formed table table_define of a key that the table lacks, where the search that does
  -- not skip deleted entries finds an entry, maps the key to the value and leaves every other key
  -- as it was; the table stays well formed and counts one more.
  pub table_define-Maps :
      table_lookup t key ≡ some none
      → table_find t key false ≢ some none
      → (t' : Table) × (table_define t key value ≡ some (true, t'))
        × Maps t key (some value) t'
        × (t'.count ≡ t.count + 1)
  unfolding table_define
  table_define-Maps missing room =
      let (r, e) = table_find_total t is.nonempty key true in
      let (r', e') = table_find_total t is.nonempty key false in go r r' e e'
    where
      go :
          (r r' : Option ℕ)
          → table_find t key true ≡ some r
          → table_find t key false ≡ some r'
          → (t' : Table) × (table_define t key value ≡ some (true, t'))
            × Maps t key (some value) t'
            × (t'.count ≡ t.count + 1)
      go (some b) r' e e' =
          let (free, t', run, maps, count) = define_at-Maps true b e missing in
          (t', rw (e, free) (rw free at run), maps, count)
      go none none e e' = absurd (room e')
      go none (some b) e e' =
          let (free, t', run, maps, count) = define_at-Maps false b e' missing in
          (t', rw (e, e') run, maps, count)
