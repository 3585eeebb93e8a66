-- ===== src/Tests/SymbolTests.antt =====
-- A table of symbols for strings that are compared but for the case of letters.
use opendylan.Prelude.{ℕ, zero, suc, true, false, ◌&&◌, [], ◌∷◌, ◌==◌}
use opendylan.Symbols.{Characters, SameIgnoringCase, lower, Symbols, string_as_symbol}

-- The first `n` characters are the same, but for case.
same_characters : SameIgnoringCase
same_characters a b zero = true
same_characters [] [] (suc n) = true
same_characters (x ∷ a) (y ∷ b) (suc n) = (lower x == lower y) && same_characters a b n
same_characters _ _ (suc n) = false

abbrev empty : Symbols
empty = record { oblist_size = 0; oblist_cursor = 0; oblist = λ i. 0; name = λ x. [] }

tail_of : Characters → Characters
tail_of [] = []
tail_of (x ∷ a) = a

head_of : Characters → ℕ
head_of [] = 0
head_of (x ∷ a) = x

-- The strings "if" and "do" are made symbols, at the addresses 50 and 60.
abbrev first : Symbols
first = (string_as_symbol same_characters 50 (105 ∷ 102 ∷ []) empty).1
