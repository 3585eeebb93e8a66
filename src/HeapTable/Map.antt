-- ===== src/HeapTable/Map.antt =====
-- The table as a map: when it is well formed, and what table_find gives then.
use opendylan.Prelude.{
  ℕ, ◌%◌, ◌<◌, ◌≡◌, ◌≢◌, refl, sym, ◌∙◌, ap, subst, Bool, true, false, Option, none, some, arith,
  inl, inr, ◌⊎◌, Bool-cases,
}
use native.Mathlib.Nat.{mod-lt}
use opendylan.HeapTable.{
  active, TableEntry, Table, stops, table_find, table_lookup, is_active, active_at,
}
use opendylan.HeapTable.Probe.{probe-stop, probe-same, probe-lt, probe_total}

-- There are entries, and the search for the key of an active entry finds that entry.
pub record IsTable (t : Table) : Type 0 where
  pub nonempty : 0 < t.length
  pub found :
      (b : ℕ)
      → b < t.length
      → (t.array b).status ≡ active
      → table_find t (t.array b).key true ≡ some (some b)

module _ (t : Table) (nonempty : 0 < t.length) (key : ℕ) (skip : Bool) where
  -- In a table of a length above 0 the search of table_find comes to an end within as many rounds as
  -- there are entries.
  pub table_find_total : (r : Option ℕ) × (table_find t key skip ≡ some r)
  unfolding table_find
  table_find_total =
      probe_total t.length (λ i. stops (t.array i) key skip) (key % t.length)
        (mod-lt key {m = t.length} nonempty)

  pub table_find-lt : (b : ℕ) → table_find t key skip ≡ some (some b) → b < t.length
  unfolding table_find
  table_find-lt b h =
      probe-lt t.length t.length (λ i. stops (t.array i) key skip) (key % t.length) (key % t.length)
        b (mod-lt key {m = t.length} nonempty) h

  pub table_find-stops :
      (b : ℕ) → table_find t key skip ≡ some (some b) → stops (t.array b) key skip ≡ true
  unfolding table_find
  table_find-stops b h =
      probe-stop t.length t.length (λ i. stops (t.array i) key skip) (key % t.length)
        (key % t.length) b h

-- A search in another array.
pub table_find-same :
    (t : Table) (array : ℕ → TableEntry) (count key : ℕ) (skip skip' : Bool) (b : ℕ)
    → ((a : ℕ) → a ≢ b → stops (t.array a) key skip ≡ false → stops (array a) key skip' ≡ false)
    → stops (array b) key skip' ≡ true
    → table_find t key skip ≡ some (some b)
    → table_find (record { length = t.length; count = count; array = array }) key skip'
      ≡ some (some b)
unfolding table_find
table_find-same t array count key skip skip' b other here h =
    probe-same t.length t.length (λ i. stops (t.array i) key skip) (λ i. stops (array i) key skip')
      (key % t.length) (key % t.length) b other here h

-- The value at an active entry is what lookup gives, and without an active entry it gives nothing.
table_lookup-active :
    (t : Table)
    → IsTable t
    → (b : ℕ) → b < t.length
    → (t.array b).status ≡ active
    → table_lookup t (t.array b).key ≡ some (some (t.array b).value)
unfolding table_lookup
table_lookup-active t is b lt act = rw (is.found b lt act, act) refl

pub table_lookup-at :
    (t : Table)
    → IsTable t
    → (key value b : ℕ) → b < t.length
    → t.array b ≡ record { status = active; key = key; value = value }
    → table_lookup t key ≡ some (some value)
table_lookup-at t is key value b lt e =
    let f = table_lookup-active t is b lt (ap TableEntry.status e) in
    ap (table_lookup t) (sym (ap TableEntry.key e))
    ∙ f
    ∙ ap (λ (v : TableEntry). some (some v.value)) e

module _ (t : Table) (is : IsTable t) (key : ℕ) where
  pub table_lookup-absent :
      ((b : ℕ) → b < t.length → (t.array b).status ≡ active → (t.array b).key ≢ key)
      → table_lookup t key ≡ some none
  unfolding table_lookup
  table_lookup-absent absent = let (r, e) = table_find_total t is.nonempty key true in go r e
    where
      go : (r : Option ℕ) → table_find t key true ≡ some r → table_lookup t key ≡ some none
      go none e = rw e refl
      go (some b) e =
          let lt = table_find-lt t is.nonempty key true b e in
          let st = table_find-stops t is.nonempty key true b e in
          let no = absent b lt in rw e (ground (arith, no, st))

  abbrev pub Holds : Type 0
  Holds = (b : ℕ) × (b < t.length) × ((t.array b).status ≡ active) × ((t.array b).key ≡ key)

  abbrev pub Lacks : Type 0
  Lacks = (b : ℕ) → b < t.length → (t.array b).status ≡ active → (t.array b).key ≢ key

  -- The search decides whether there is an active entry with the key.
  find-Lacks : (r : Option ℕ) → table_find t key true ≡ some r → active_at t r ≡ none → Lacks
  find-Lacks r e idle b lt act same =
      let f : table_find t key true ≡ some (some b) =
        subst (λ (k : ℕ). table_find t k true ≡ some (some b)) same (is.found b lt act) in
      let g : r ≡ some b = ground (arith, e, f) in ground (arith, idle, g, act)

  find-Holds :
      (b : ℕ) → table_find t key true ≡ some (some b) → is_active (t.array b).status ≡ true → Holds
  find-Holds b e act = (
    b,
    table_find-lt t is.nonempty key true b e,
    ground (arith, act),
    ground (arith, act, table_find-stops t is.nonempty key true b e),
  )

  pub holds_or_lacks : Holds ⊎ Lacks
  holds_or_lacks = let (r, e) = table_find_total t is.nonempty key true in go r e
    where
      go : (r : Option ℕ) → table_find t key true ≡ some r → Holds ⊎ Lacks
      go none e = inr (find-Lacks none e refl)
      go (some b) e = elim (Bool-cases (is_active (t.array b).status)) [
        | inl act ↦ inl (find-Holds b e act)
        | inr idle ↦ inr (find-Lacks (some b) e (rw idle refl))
      ]

  pub table_lookup-none :
      table_lookup t key ≡ some none
      → (b : ℕ) → b < t.length
      → (t.array b).status ≡ active
      → (t.array b).key ≢ key
  table_lookup-none h b lt act same =
      let f = table_lookup-active t is b lt act in
      let g : table_lookup t key ≡ some (some (t.array b).value) =
        subst (λ (k : ℕ). table_lookup t k ≡ some (some (t.array b).value)) same f in
      ground (arith, h, g)

  -- What a search found, by the result of table_lookup.
  abbrev pub Idle : Type 0
  Idle =
      (table_find t key true ≡ some none)
      ⊎ ((b : ℕ) × (table_find t key true ≡ some (some b)) × (is_active (t.array b).status ≡ false))

  pub find-Idle : table_lookup t key ≡ some none → Idle
  unfolding table_lookup
  find-Idle h = let (r, e) = table_find_total t is.nonempty key true in go r e
    where
      go : (r : Option ℕ) → table_find t key true ≡ some r → Idle
      go none e = inl e
      go (some b) e = inr (b, e, ground (arith, e, h))

  pub find-active :
      (old : ℕ)
      → table_lookup t key ≡ some (some old)
      → (b : ℕ) × (table_find t key true ≡ some (some b))
        × (b < t.length)
        × (t.array b ≡ record { status = active; key = key; value = old })
  unfolding table_lookup
  find-active old h = let (r, e) = table_find_total t is.nonempty key true in go r e
    where
      go :
          (r : Option ℕ)
          → table_find t key true ≡ some r
          → (b : ℕ) × (table_find t key true ≡ some (some b))
            × (b < t.length)
            × (t.array b ≡ record { status = active; key = key; value = old })
      go none e = absurd (ground (arith, e, h))
      go (some b) e =
          let st = table_find-stops t is.nonempty key true b e in
          (b, e, table_find-lt t is.nonempty key true b e, ground (arith, e, h, st))
