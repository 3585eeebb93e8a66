-- ===== src/HeapTable/Define.antt =====
-- table_define of a key that the table lacks.
use opendylan.Prelude.{
  ◌>>=◌, ℕ, ◌+◌, ◌^◌, ◌<◌, ◌≡◌, ◌≢◌, refl, ◌∙◌, ap, Bool, true, false, Option, none, some, arith,
  ◌==◌, if◌then◌else◌,
}
use opendylan.HeapTable.{active, Table, table_find, table_lookup, table_define, table_grow}
use opendylan.HeapTable.Map.{IsTable, table_find_total}
use opendylan.HeapTable.Update.{Maps, define_at-Maps, table_define-Maps}
use opendylan.HeapTable.Grow.{find-none, Grown, room, grow-Grown, same_lookup}

-- The outcome of defining a new key.
pub record Defines (t : Table) (key value : ℕ) (r : Option (Bool × Table)) : Type 0 where
  pub after : Table
  pub run : r ≡ some (true, after)
  pub is : IsTable after
  pub lookup :
      (k : ℕ) → table_lookup after k ≡ (if k == key then some (some value) else table_lookup t k)
  pub count : after.count ≡ t.count + 1

module _ (t : Table) (is : IsTable t) (n : ℕ) (power : t.length ≡ 2 ^ n) (key value : ℕ) where
  define-grown :
      table_lookup t key ≡ some none
      → table_find t key true ≡ some none
      → table_find t key false ≡ some none
      → Defines t key value (table_define t key value)
  unfolding table_define
  define-grown missing e e' =
      let full : (b : ℕ) → b < t.length → (t.array b).status ≡ active =
        λ b lt. ground (arith, find-none t n power is.nonempty key false e' b lt) in
      let (g, run, s) = grow-Grown t is n power full in
      let missing' = same_lookup t is n power full g s key ∙ missing in
      let (r, f) = table_find_total g s.is_table.nonempty key false in go full g run s missing' r f
    where
      go :
          (full : (b : ℕ) → b < t.length → (t.array b).status ≡ active) (g : Table)
          → table_grow t ≡ some g
          → Grown t is n power full t.length g
          → table_lookup g key ≡ some none
          → (r : Option ℕ) → table_find g key false ≡ some r
          → Defines t key value (table_define t key value)
      go full g run s missing' none f = absurd (
          room t is n power full t.length g s (omega (arith, s.length, is.nonempty)) key missing' f)
      go full g run s missing' (some b) f =
          let (free, t', ends, maps, count) =
            define_at-Maps g s.is_table key value false b f missing' in
          record {
            after = t';
            run = rw (e, ◌>>=◌, e', ◌>>=◌, run, ◌>>=◌, f, ◌>>=◌) ends;
            is = maps.is;
            lookup = λ k. maps.lookup k ∙ rw (same_lookup t is n power full g s k) refl;
            count = count ∙ ap (λ (c : ℕ). c + 1) s.count;
          }

  -- In a well-formed table whose length is a power of two table_define of a key that the table
  -- lacks maps the key to the value and leaves every other key as it was, also where the table is
  -- full and grows; the table stays well formed and counts one more.
  pub table_define-Defines :
      table_lookup t key ≡ some none → Defines t key value (table_define t key value)
  unfolding table_define
  table_define-Defines missing =
      let (r, e) = table_find_total t is.nonempty key true in
      let (r', e') = table_find_total t is.nonempty key false in go r r' e e'
    where
      maps-Defines :
          (t' : Table)
          → table_define t key value ≡ some (true, t')
          → Maps t key (some value) t'
          → t'.count ≡ t.count + 1
          → Defines t key value (table_define t key value)
      maps-Defines t' run maps count = record {
        after = t';
        run = run;
        is = maps.is;
        lookup = maps.lookup;
        count = count;
      }

      go :
          (r r' : Option ℕ)
          → table_find t key true ≡ some r
          → table_find t key false ≡ some r'
          → Defines t key value (table_define t key value)
      go r (some b) e e' =
          let room : table_find t key false ≢ some none = λ h. ground (arith, h, e') in
          let (t', run, maps, count) = table_define-Maps t is key value missing room in
          maps-Defines t' run maps count
      go none none e e' = define-grown missing e e'
      go (some b) none e e' =
          let (free, t', run, maps, count) = define_at-Maps t is key value true b e missing in
          maps-Defines t' (rw (e, free) (rw free at run)) maps count
