-- ===== src/Symbols.antt =====
-- The table of symbols: primitive_string_as_symbol, primitive_resolve_symbol and
-- primitive_make_symbol, of sources/lib/run-time/c-run-time.c.
pub mod Intern
pub mod Strings
use opendylan.Prelude.{
  ℕ, zero, suc, ◌+◌, ◌≡◌, Bool, true, false, ◌&&◌, Option, none, some, List, ltb, ◌==◌,
  if◌then◌else◌, length, map, leb, ◌↔◌,
}
use opendylan.Prelude.Store.{update}
use opendylan.Values.{Value}

-- The characters of a byte string.
abbrev pub Characters : Type 0
Characters = List ℕ

-- `strncasecmp(a, b, n) == 0`, of the C library.
abbrev pub SameIgnoringCase : Type 0
SameIgnoringCase = (a b : Characters) (n : ℕ) → Bool

-- `tolower`, of the C library in its POSIX locale.
abbrev pub lower : ℕ → ℕ
lower c = if leb 65 c && leb c 90 then c + 32 else c

-- Strings that are equal but for the case of letters.
abbrev pub Same : (a b : Characters) → Type 0
Same a b = map lower a ≡ map lower b

-- What the C library says of it, of the strings of the length that is compared: it is true of those
-- that are equal but for the case of letters, and of no others.
pub record IgnoresCase (same : SameIgnoringCase) : Type 0 where
  pub same_iff : (a b : Characters) → length a ≡ length b → (same a b (length b) ≡ true) ↔ Same a b

-- `oblist`, of which `oblist_cursor` places are used and `oblist_size` there are, and the names of
-- symbols.
pub record Symbols : Type 0 where
  pub oblist_size : ℕ
  pub oblist_cursor : ℕ
  pub oblist : ℕ → Value
  pub name : Value → Characters

abbrev pub initial_oblist_size : ℕ
initial_oblist_size = 64

module _ (same : SameIgnoringCase) where
  -- The test of one entry: the lengths, and then the characters.
  unfoldable pub matches : (entry input : Characters) → Bool
  matches entry input = (length entry == length input) && same entry input (length input)

  unfoldable pub find_symbol : (rounds i : ℕ) (input : Characters) → Symbols → Option Value
  unfolding matches
  find_symbol zero i input s = none
  find_symbol (suc k) i input s =
      let rest = find_symbol k (suc i) input s in
      if matches (s.name (s.oblist i)) input then some (s.oblist i) else rest

  -- primitive_make_symbol, of which the class's allocator gives the address.
  unfoldable pub make_symbol : (allocated : Value) (input : Characters) → Symbols → Value × Symbols
  make_symbol allocated input s = (allocated, record s { name = update s.name allocated input })

  -- The table is full: there is room for INITIAL_OBLIST_SIZE more.
  unfoldable pub grow_oblist : Symbols → Symbols
  grow_oblist s =
      if ltb s.oblist_cursor s.oblist_size
      then s
      else record s { oblist_size = s.oblist_size + initial_oblist_size }

  -- oblist[oblist_cursor++] = symbol
  unfoldable pub add_symbol : Value → Symbols → Symbols
  add_symbol symbol s = record s {
    oblist_cursor = s.oblist_cursor + 1;
    oblist = update s.oblist s.oblist_cursor symbol;
  }

  -- primitive_string_as_symbol_using_symbol; `symbol` is none where it is NULL.
  unfoldable pub string_as_symbol_using_symbol :
      (allocated : Value) (input : Characters) (symbol : Option Value) → Symbols → Value × Symbols
  unfolding find_symbol make_symbol grow_oblist add_symbol
  string_as_symbol_using_symbol allocated input symbol s =
      elim (find_symbol s.oblist_cursor 0 input s) [
        | some found ↦ (found, s)
        | none ↦
            let grown = grow_oblist s in
            let made : Value × Symbols = elim symbol [
              | some given ↦ (given, grown)
              | none ↦ make_symbol allocated input grown
            ] in
            (made.0, add_symbol made.0 made.1)
      ]

  unfoldable pub string_as_symbol :
      (allocated : Value) (input : Characters) → Symbols → Value × Symbols
  unfolding string_as_symbol_using_symbol
  string_as_symbol allocated input s = string_as_symbol_using_symbol allocated input none s

  unfoldable pub resolve_symbol : (symbol : Value) → Symbols → Value × Symbols
  unfolding string_as_symbol_using_symbol
  resolve_symbol symbol s = string_as_symbol_using_symbol symbol (s.name symbol) (some symbol) s
