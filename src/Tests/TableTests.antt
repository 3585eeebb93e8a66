-- ===== src/Tests/TableTests.antt =====
-- Tests of the heap statistics' table, and the theorems applied.
use opendylan.Prelude.{
  ℕ, ◌-◌, ◌≡◌, refl, sym, subst, Bool, true, Option, none, some, arith, List, [], ◌∷◌, ◌==◌,
  if◌then◌else◌, ◌>>=◌,
}
use native.Mathlib.Decide.{ℕ_discrete}
use opendylan.HeapTable.{
  Table, active, empty_entry, table_find, table_create, table_lookup, table_define, table_remove,
  table_map,
}
use opendylan.HeapTable.Define.{Defines, table_define-Defines}
use opendylan.HeapTable.Map.{IsTable, table_find_total}
use opendylan.HeapTable.Update.{Maps}
use opendylan.HeapTable.Change.{table_remove-Changes}

-- Keys 1, 5 and 9 meet in a table of length 4, which grows for the fifth key.
abbrev after : Option (Bool × Table) → Option Table
after none = none
after (some (b, t)) = some t

abbrev five_keys : Option Table
unfolding table_define
five_keys = do
  t1 ← after (table_define (table_create 4) 1 10)
  t2 ← after (table_define t1 5 50)
  t3 ← after (table_define t2 9 90)
  t4 ← after (table_define t3 4 40)
  after (table_define t4 8 80)

abbrev calls_of : Option Table → List (ℕ × ℕ)
unfolding table_map
calls_of none = []
calls_of (some t) = table_map t

all_kept : calls_of five_keys ≡ (8, 80) ∷ (1, 10) ∷ (9, 90) ∷ (4, 40) ∷ (5, 50) ∷ []
unfolding five_keys calls_of table_create table_define table_map
all_kept = refl

abbrev one_key : Table
one_key = record {
  length = 4;
  count = 1;
  array = λ i. if i == 1 then record { status = active; key = 5; value = 7 } else empty_entry;
}

one_key-IsTable : IsTable one_key
one_key-IsTable = record {
  nonempty = omega arith;
  found = λ b lt act. elim (ℕ_discrete b 1) [
    | yes p ↦
        subst (λ (x : ℕ). table_find one_key (one_key.array x).key true ≡ some (some x)) (sym p)
          at_one
    | no ne ↦ absurd (ground (arith, act, ne))
  ];
}
  where
    at_one : table_find one_key 5 true ≡ some (some 1)
    at_one = unfold table_find in refl

five : table_lookup one_key 5 ≡ some (some 7)
unfolding table_lookup
five = refl

table_remove-Changes_example :
    (t' : Table) × (table_remove one_key 5 ≡ some (true, t'))
    × Maps one_key 5 none t'
    × (t'.count ≡ 1 - 1)
table_remove-Changes_example =
    table_remove-Changes one_key one_key-IsTable 5 (some 7) five (omega arith)

-- A table of length 1 whose only entry is taken grows.
abbrev full_table : Table
full_table = record {
  length = 1;
  count = 1;
  array = λ i. record { status = active; key = 5; value = 7 };
}

full_table-IsTable : IsTable full_table
full_table-IsTable = record {
  nonempty = omega arith;
  found = λ b lt act.
      let first : b ≡ 0 = omega arith in
      subst (λ (x : ℕ). table_find full_table 5 true ≡ some (some x)) (sym first) at_zero;
}
  where
    at_zero : table_find full_table 5 true ≡ some (some 0)
    at_zero = unfold table_find in refl

table_define-Defines_example : Defines full_table 9 8 (table_define full_table 9 8)
table_define-Defines_example =
    table_define-Defines full_table full_table-IsTable 0 (omega arith) 9 8 missing
  where
    missing : table_lookup full_table 9 ≡ some none
    missing = unfold table_lookup in refl

table_find_total_example : (r : Option ℕ) × (table_find full_table 9 true ≡ some r)
table_find_total_example = table_find_total full_table (omega arith) 9 true
