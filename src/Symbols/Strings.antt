-- ===== src/Symbols/Strings.antt =====
-- Two strings have the same symbol if and only if they are equal but for case.
use opendylan.Prelude.{ℕ, ◌<◌, ◌≢◌, Option, none, some}
use opendylan.Values.{Value}
use opendylan.Symbols.{Characters, Same, SameIgnoringCase, IgnoresCase, Symbols}

module _ (same : SameIgnoringCase) (law : IgnoresCase same) where
  -- The symbol that a call offers: a new one, at an address that is in no place of the table, or one
  -- that is named by the input.
  abbrev pub Offers :
      (allocated : Value) (input : Characters) (symbol : Option Value) (s : Symbols) → Type 0
  Offers allocated input none s = (j : ℕ) → j < s.oblist_cursor → s.oblist j ≢ allocated
  Offers allocated input (some given) s = Same (s.name given) input
