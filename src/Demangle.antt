-- ===== src/Demangle.antt =====
-- The demangling of names for stack traces: dylan_demangle of sources/lib/run-time/demangle.c.
-- Characters are numbers, and `src` is what stands before its NUL.
pub mod Bounds
pub mod Names
use opendylan.Prelude.{
  ℕ, zero, suc, ◌+◌, ◌-◌, ◌*◌, ◌%◌, ◌^◌, Bool, true, false, not, ◌&&◌, ◌||◌, List, [], ◌∷◌, ◌++◌,
  Option, none, some, length, leb, ltb, ◌==◌, if◌then◌else◌,
}

abbrev pub Char : Type 0
Char = ℕ

abbrev pub Chars : Type 0
Chars = List Char

-- 'K' (both), 'Y', 'V', 'Z', 'M', 'I', ':' and '#'
abbrev pub constant_prefix : Char
constant_prefix = 75

abbrev pub dylan_module_sep : Char
dylan_module_sep = 75

abbrev pub module_sep : Char
module_sep = 89

abbrev pub library_sep : Char
library_sep = 86

abbrev pub escape_sep : Char
escape_sep = 90

abbrev pub method_mark : Char
method_mark = 77

abbrev pub iep_mark : Char
iep_mark = 73

abbrev pub colon : Char
colon = 58

abbrev pub number_sign : Char
number_sign = 35

abbrev pub is_digit : Char → Bool
is_digit c = leb 48 c && leb c 57

-- "-_!X$D%P*T/S<L>G?Q+A&B^C_U@O=E~N", as pairs of a character and what it stands for.
abbrev pub mapping : List (Char × Char)
mapping =
    (95, 45)
    ∷ (88, 33)
    ∷ (68, 36)
    ∷ (80, 37)
    ∷ (84, 42)
    ∷ (83, 47)
    ∷ (76, 60)
    ∷ (71, 62)
    ∷ (81, 63)
    ∷ (65, 43)
    ∷ (66, 38)
    ∷ (67, 94)
    ∷ (85, 95)
    ∷ (79, 64)
    ∷ (69, 61)
    ∷ (78, 126)
    ∷ []

unfoldable pub look_up : List (Char × Char) → Char → Char
look_up [] c = 0
look_up (p ∷ ps) c = let rest = look_up ps c in if p.0 == c then p.1 else rest

-- 0 for characters that stand for none.
unfoldable pub demangle_map : Char → Char
demangle_map c = if (leb 97 c && leb c 122) || is_digit c then c else look_up mapping c

-- "dylan", "internal", "dylan-primitives", "dylan-extensions", "dylan-c-ffi", "dylan-incremental",
-- "dylan-threads", "dispatch-engine" and "machine-word-lowlevel"; and ":dylan"
abbrev pub dylan_name : Chars
dylan_name = 100 ∷ 121 ∷ 108 ∷ 97 ∷ 110 ∷ []

abbrev pub dylan_abbrev_map : List (Char × Chars)
dylan_abbrev_map =
    (100, dylan_name)
    ∷ (105, 105 ∷ 110 ∷ 116 ∷ 101 ∷ 114 ∷ 110 ∷ 97 ∷ 108 ∷ [])
    ∷ (112, dylan_name ++ (45 ∷ 112 ∷ 114 ∷ 105 ∷ 109 ∷ 105 ∷ 116 ∷ 105 ∷ 118 ∷ 101 ∷ 115 ∷ []))
    ∷ (101, dylan_name ++ (45 ∷ 101 ∷ 120 ∷ 116 ∷ 101 ∷ 110 ∷ 115 ∷ 105 ∷ 111 ∷ 110 ∷ 115 ∷ []))
    ∷ (99, dylan_name ++ (45 ∷ 99 ∷ 45 ∷ 102 ∷ 102 ∷ 105 ∷ []))
    ∷ (110, dylan_name ++ (45 ∷ 105 ∷ 110 ∷ 99 ∷ 114 ∷ 101 ∷ 109 ∷ 101 ∷ 110 ∷ 116 ∷ 97 ∷ 108 ∷ []))
    ∷ (116, dylan_name ++ (45 ∷ 116 ∷ 104 ∷ 114 ∷ 101 ∷ 97 ∷ 100 ∷ 115 ∷ []))
    ∷ (
      103,
      100 ∷ 105 ∷ 115 ∷ 112 ∷ 97 ∷ 116 ∷ 99 ∷ 104 ∷ 45 ∷ 101 ∷ 110 ∷ 103 ∷ 105 ∷ 110 ∷ 101 ∷ [],
    )
    ∷ (
      109,
      109 ∷ 97 ∷ 99 ∷ 104 ∷ 105 ∷ 110 ∷ 101 ∷ 45 ∷ 119 ∷ 111 ∷ 114 ∷ 100 ∷ 45 ∷ 108 ∷ 111 ∷ 119
          ∷ 108 ∷ 101 ∷ 118 ∷ 101 ∷ 108 ∷ [],
    )
    ∷ []

unfoldable pub abbreviated : List (Char × Chars) → Char → Option Chars
abbreviated [] c = none
abbreviated (p ∷ ps) c = let rest = abbreviated ps c in if p.0 == c then some p.1 else rest

-- What has been written from `dest` on, and the two local variables of the loop.
pub record Output : Type 0 where
  pub written : Chars
  pub module_seen : Bool
  pub library : Option ℕ

-- `while (*from && dest < limit) *dest++ = *from++`
unfoldable pub copy_string : (limit : ℕ) (dest from : Chars) → Chars
copy_string limit dest [] = dest
copy_string limit dest (c ∷ cs) =
    let rest = copy_string limit (dest ++ (c ∷ [])) cs in
    if ltb (length dest) limit then rest else dest

unfoldable pub drop : ℕ → Chars → Chars
drop zero cs = cs
drop (suc n) [] = []
drop (suc n) (c ∷ cs) = drop n cs

-- The digits of an escape, as an `unsigned`, and what is left.
unfoldable pub read_digits : (value : ℕ) → Chars → ℕ × Chars
read_digits value [] = (value, [])
read_digits value (c ∷ cs) =
    let rest = read_digits ((value * 10 + (c - 48)) % 2 ^ 32) cs in
    if is_digit c then rest else (value, c ∷ cs)

-- One round: it goes on with the rest of `src`, fails, or reads outside: behind the NUL of `src`, or
-- before the table for a character that is negative. The last two are with what has been written.
pub data Round : Type 0 where
  goes_on : Chars → Output → Round
  fails : Output → Round
  outside : Output → Round

abbrev pub put : Char → Output → Output
put c o = record o { written = o.written ++ (c ∷ []) }

-- ESCAPE_SEP, after the digits
unfoldable pub escaped : ℕ × Chars → Output → Round
escaped (value, []) o = fails o
escaped (value, c ∷ cs) o = if c == escape_sep then goes_on cs (put (value % 2 ^ 8) o) else fails o

-- DYLAN_MODULE_SEP. The table has 117 entries, up to that of 't'. At the end of `src` the abbreviation
-- is its NUL, and the loop goes on behind it.
unfoldable pub module_named : (limit : ℕ) → Option Chars → Output → Output
module_named limit none o = record o { module_seen = true }
module_named limit (some name) o = record o {
  written = copy_string limit (copy_string limit o.written name) (colon ∷ dylan_name);
  module_seen = true;
}

unfoldable pub dylan_module : (limit : ℕ) → Chars → Output → Round
dylan_module limit [] o = outside o
dylan_module limit (c ∷ cs) o =
    if ltb c 117
    then goes_on cs (module_named limit (abbreviated dylan_abbrev_map c) o)
    else fails o

-- METHOD_MARK and IEP_MARK: the library's name is also the module's.
unfoldable pub library_again : (limit : ℕ) → Option ℕ → Output → Output
library_again limit none o = o
library_again limit (some library) o = if o.module_seen then o else record o {
  written = copy_string limit o.written (drop library o.written);
  module_seen = true;
}

unfoldable pub marked : (limit : ℕ) → Char → Output → Output
marked limit c o =
    let named = library_again limit o.library o in
    if c == method_mark then put number_sign named else named

-- The `switch`.
unfoldable pub special_char : (limit : ℕ) → Char → Chars → Output → Round
special_char limit c cs o =
    if c == escape_sep
    then escaped (read_digits 0 cs) o
    else if c == dylan_module_sep
    then dylan_module limit cs o
    else if c == module_sep
    then goes_on cs (put colon (record o { module_seen = true }))
    else if c == library_sep
    then goes_on cs (put colon (record o { library = some (length o.written) }))
    else if (c == method_mark) || (c == iep_mark)
    then goes_on cs (marked limit c o)
    else fails o

-- A character above 127 is negative, and outside `demangle_map`.
unfoldable pub demangle_char : (limit : ℕ) → Char → Chars → Output → Round
demangle_char limit c cs o =
    if ltb 127 c
    then outside o
    else if demangle_map c == 0
    then special_char limit c cs o
    else goes_on cs (put (demangle_map c) o)

-- The result: 0, the failure (-1), the read outside `src` or the table, after which nothing is said
-- of the program, and no more fuel; each of the first three with what is written till then, which
-- has a NUL at its end only for 0.
pub data Demangled : Type 0 where
  returns : Chars → Demangled
  failed : Chars → Demangled
  overrun : Chars → Demangled
  out_of_fuel : Demangled

abbrev pub after_round : (Chars → Output → Demangled) → Round → Demangled
after_round loop (goes_on cs o) = loop cs o
after_round loop (fails o) = failed o.written
after_round loop (outside o) = overrun o.written

unfoldable pub demangle_loop : (fuel limit : ℕ) → Chars → Output → Demangled
demangle_loop fuel limit [] o = returns (o.written ++ (0 ∷ []))
demangle_loop zero limit (c ∷ cs) o = out_of_fuel
demangle_loop (suc fuel) limit (c ∷ cs) o =
    if ltb (length o.written) limit
    then after_round (demangle_loop fuel limit) (demangle_char limit c cs o)
    else returns (o.written ++ (0 ∷ []))

abbrev pub without_prefix : Chars → Chars
without_prefix [] = []
without_prefix (c ∷ cs) = if c == constant_prefix then cs else c ∷ cs

-- With as many rounds as `src` has characters behind its prefix.
unfoldable pub dylan_demangle : (destsize : ℕ) → Chars → Demangled
dylan_demangle zero src = failed []
dylan_demangle (suc limit) src =
    demangle_loop (length (without_prefix src)) limit (without_prefix src)
      (record { written = []; module_seen = false; library = none })
