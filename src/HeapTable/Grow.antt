-- ===== src/HeapTable/Grow.antt =====
-- table_grow: a full table moves to one of twice the length, and nothing is lost.
use opendylan.Prelude.{
  ℕ, zero, suc, ◌+◌, ◌*◌, ◌%◌, ◌^◌, ◌<◌, ◌≡◌, ◌≢◌, refl, sym, ◌∙◌, ap, subst, Bool, true, false,
  Option, none, some, arith, inl, inr, ==_iff, ==_ne, if◌then◌else◌, ltb,
}
use native.Mathlib.Decide.{ℕ_discrete}
use native.Mathlib.Nat.{mod-lt}
use opendylan.Prelude.Loops.{for_up}
use opendylan.Prelude.Store.{update}
use opendylan.HeapTable.{
  unused, active, deleted, TableEntry, Table, empty_entry, stops, table_find, table_lookup,
  table_grow, rehash, is_active, ◌>>=◌,
}
use opendylan.HeapTable.Cover.{probe-none_at, pow_suc}
use opendylan.HeapTable.Map.{
  IsTable, table_find_total, table_find-lt, table_find-stops, table_lookup-at, table_lookup-absent,
  table_lookup-none, holds_or_lacks,
}
use opendylan.HeapTable.Update.{written, written-IsTable, table_lookup-written}

-- A search that finds nothing in a table whose length is a power of two.
pub find-none :
    (t : Table) (n : ℕ)
    → t.length ≡ 2 ^ n
    → 0 < t.length
    → (key : ℕ) (skip : Bool) → table_find t key skip ≡ some none
    → (b : ℕ) → b < t.length
    → stops (t.array b) key skip ≡ false
unfolding table_find
find-none t n e pos key skip r b lt =
    probe-none_at t.length n (key % t.length) (λ i. stops (t.array i) key skip) b e
      (mod-lt key {m = t.length} pos) r lt

-- The number of active entries among the first `n`.
abbrev pub actives : ℕ → (ℕ → TableEntry) → ℕ
actives zero array = 0
actives (suc n) array = actives n array + (if is_active (array n).status then 1 else 0)

actives-full :
    (n : ℕ) (array : ℕ → TableEntry)
    → ((b : ℕ) → b < n → (array b).status ≡ active)
    → actives n array ≡ n
actives-full zero array h = refl
actives-full (suc n) array h =
    let ih = actives-full n array (λ b lt. h b (omega arith)) in
    ground (arith, ih, h n (omega arith))

actives-empty : (n : ℕ) → actives n (λ i. empty_entry) ≡ 0
actives-empty zero = refl
actives-empty (suc n) = ground (arith, actives-empty n)

actives-update :
    (n b : ℕ) (array : ℕ → TableEntry) (entry : TableEntry)
    → is_active (array b).status ≡ false
    → entry.status ≡ active
    → actives n (update array b entry) ≡ actives n array + (if ltb b n then 1 else 0)
actives-update zero b array entry free live = ground arith
actives-update (suc n) b array entry free live =
    ground (arith, actives-update n b array entry free live, free, live)

-- The loop of table_grow, for a table `old` all of whose entries are active. `g` is the new table
-- after `i` rounds.
module _ (old : Table) (old_is : IsTable old) (n : ℕ) (power : old.length ≡ 2 ^ n)
    (full : (b : ℕ) → b < old.length → (old.array b).status ≡ active) where
  pub record Grown (i : ℕ) (g : Table) : Type 0 where
    pub is_table : IsTable g
    pub length : g.length ≡ old.length * 2
    pub count : g.count ≡ old.count
    pub number : actives g.length g.array ≡ i
    pub clean : (b : ℕ) → (g.array b).status ≢ deleted
    pub kept : (a : ℕ) → a < i → table_lookup g (old.array a).key ≡ some (some (old.array a).value)
    pub absent : (k : ℕ) → ((a : ℕ) → a < i → (old.array a).key ≢ k) → table_lookup g k ≡ some none

  unique :
      (a b : ℕ) → a < old.length → b < old.length → a ≢ b → (old.array a).key ≢ (old.array b).key
  unique a b la lb ne same =
      let f = old_is.found b lb (full b lb) in
      let g : table_find old (old.array b).key true ≡ some (some a) =
        subst (λ (k : ℕ). table_find old k true ≡ some (some a)) same
          (old_is.found a la (full a la)) in
      ground (arith, f, g, ne)

  -- There is room for a key that the new table lacks.
  pub room :
      (i : ℕ) (g : Table)
      → Grown i g
      → i < g.length
      → (key : ℕ) → table_lookup g key ≡ some none
      → table_find g key false ≢ some none
  room i g s lt key missing nothing =
      let live : (b : ℕ) → b < g.length → (g.array b).status ≡ active = λ b bl. ground (
        arith,
        find-none g (suc n) (s.length ∙ omega (arith, pow_suc n, power)) s.is_table.nonempty key
            false nothing b bl,
        s.clean b,
      ) in
      absurd (omega (arith, s.number, actives-full g.length g.array live))

  module _ (i : ℕ) (g : Table) (lt : i < old.length) (s : Grown i g) where
    missing : table_lookup g (old.array i).key ≡ some none
    missing = s.absent (old.array i).key (λ a la. unique a i (omega arith) lt (omega arith))

    -- The round that finds the entry `b`.
    grow-at :
        (b : ℕ)
        → table_find g (old.array i).key false ≡ some (some b)
        → (g' : Table) × (rehash (old.array i) (some g) ≡ some g') × Grown (suc i) g'
    unfolding rehash
    grow-at b e =
        let key = (old.array i).key in
        let value = (old.array i).value in
        let bl = table_find-lt g s.is_table.nonempty key false b e in
        let absent = table_lookup-none g s.is_table key missing in
        let free : is_active (g.array b).status ≡ false =
          ground (arith, absent b bl, table_find-stops g s.is_table.nonempty key false b e) in
        let blank : (g.array b).status ≡ unused = ground (arith, free, s.clean b) in
        let law = table_lookup-written g s.is_table key value g.count false b e free absent in
        (
          written g s.is_table key value g.count false b e free absent,
          rw (rehash, full i lt, ◌>>=◌, e, ◌>>=◌, blank) refl,
          record {
            is_table = written-IsTable g s.is_table key value g.count false b e free absent;
            length = s.length;
            count = s.count;
            number =
                actives-update g.length b g.array
                  (record { status = active; key = key; value = value }) free refl
                ∙ ground (arith, s.number, bl);
            clean = λ c. ground (arith, s.clean c);
            kept = λ a la. elim (ℕ_discrete a i) [
              | yes p ↦
                  law (old.array a).key
                  ∙ rw ((==_iff (old.array a).key key).1 (ap (λ (x : ℕ). (old.array x).key) p))
                      (ap (λ (x : ℕ). some (some (old.array x).value)) (sym p))
              | no ne ↦
                  law (old.array a).key
                  ∙ rw (==_ne (old.array a).key key (unique a i (omega arith) lt ne))
                      (s.kept a (omega arith))
            ];
            absent = λ k no_key.
                law k
                ∙ rw (==_ne k key (λ h. no_key i (omega arith) (sym h)))
                    (s.absent k (λ a la. no_key a (omega arith)));
          },
        )

    grow-round : (g' : Table) × (rehash (old.array i) (some g) ≡ some g') × Grown (suc i) g'
    grow-round =
        let (r, e) = table_find_total g s.is_table.nonempty (old.array i).key false in go r e
      where
        go :
            (r : Option ℕ)
            → table_find g (old.array i).key false ≡ some r
            → (g' : Table) × (rehash (old.array i) (some g) ≡ some g') × Grown (suc i) g'
        go none e = absurd (room i g s (omega (arith, s.length)) (old.array i).key missing e)
        go (some b) e = grow-at b e

  grow-loop :
      (k i : ℕ) (g : Table)
      → i + k ≡ old.length
      → Grown i g
      → (g' : Table) × (for_up k i (λ j. rehash (old.array j)) (some g) ≡ some g')
        × Grown old.length g'
  grow-loop zero i g e s = (g, refl, subst (λ (x : ℕ). Grown x g) (omega (arith, e)) s)
  grow-loop (suc k) i g e s =
      let (g1, run, s1) = grow-round i g (omega (arith, e)) s in
      let (g2, rest, s2) = grow-loop k (suc i) g1 (omega (arith, e)) s1 in
      (g2, ap (for_up k (suc i) (λ j. rehash (old.array j))) run ∙ rest, s2)

  abbrev empty_table : Table
  empty_table = record old { length = old.length * 2; array = λ i. empty_entry }

  empty_table-IsTable : IsTable empty_table
  empty_table-IsTable =
      let pos = old_is.nonempty in
      record { nonempty = omega (arith, pos); found = λ b lt act. absurd (ground arith) }

  -- table_grow of a full table.
  pub grow-Grown : (g : Table) × (table_grow old ≡ some g) × Grown old.length g
  unfolding table_grow
  grow-Grown = grow-loop old.length 0 empty_table (omega arith) (record {
    is_table = empty_table-IsTable;
    length = refl;
    count = refl;
    number = actives-empty (old.length * 2);
    clean = λ b. ground arith;
    kept = λ a la. absurd (omega arith);
    absent = λ k no_key.
        table_lookup-absent empty_table empty_table-IsTable k (λ b lt act. absurd (ground arith));
  })

  -- The map is the same.
  pub same_lookup :
      (g : Table) → Grown old.length g → (k : ℕ) → table_lookup g k ≡ table_lookup old k
  same_lookup g s k = elim (holds_or_lacks old old_is k) [
    | inl (a, la, act, e) ↦
        let same : old.array a ≡ record { status = active; key = k; value = (old.array a).value } =
          ground (arith, act, e) in
        ap (table_lookup g) (sym e)
        ∙ s.kept a la
        ∙ sym (table_lookup-at old old_is k (old.array a).value a la same)
    | inr lacks ↦
        s.absent k (λ a la. lacks a la (full a la)) ∙ sym (table_lookup-absent old old_is k lacks)
  ]
