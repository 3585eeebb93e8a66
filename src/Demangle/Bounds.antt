-- ===== src/Demangle/Bounds.antt =====
-- What dylan_demangle writes fits, but for one character.
use opendylan.Prelude.{
  ℕ, zero, suc, ◌+◌, ◌-◌, ◌*◌, ◌%◌, ◌^◌, ◌≤◌, ◌<◌, ◌≡◌, refl, ap, subst, arith, has, true, false,
  ◌||◌, [], ◌∷◌, ◌++◌, Option, none, some, length, ltb, ◌==◌, if◌then◌else◌, inl, inr, Bool-cases,
}
use opendylan.Demangle.{
  Char, Chars, Output, Round, goes_on, fails, outside, Demangled, returns, failed, overrun,
  out_of_fuel, demangle_map, copy_string, drop, read_digits, put, escaped, module_named,
  dylan_module, abbreviated, dylan_abbrev_map, library_again, marked, special_char, demangle_char,
  demangle_loop, after_round, without_prefix, dylan_demangle, dylan_module_sep, module_sep,
  library_sep, escape_sep, method_mark, iep_mark, is_digit, colon, number_sign, dylan_name,
}

pub length-append_one : (cs : Chars) (c : Char) → length (cs ++ (c ∷ [])) ≡ suc (length cs)
length-append_one [] c = refl
length-append_one (d ∷ cs) c = ap (λ (n : ℕ). suc n) (length-append_one cs c)

-- A bounded copy stays within the limit, or writes nothing.
copy_string-bounded :
    (limit : ℕ) (dest from : Chars)
    → length dest ≤ limit
    → length (copy_string limit dest from) ≤ limit
unfolding copy_string
copy_string-bounded limit dest [] le = le
copy_string-bounded limit dest (c ∷ cs) le = elim (Bool-cases (ltb (length dest) limit)) [
  | inl room ↦
      let more = length-append_one dest c in
      rw room (copy_string-bounded limit (dest ++ (c ∷ [])) cs (ground (arith, room, more)))
  | inr full ↦ rw full le
]

-- What a round leaves: a part of `src`, and what is written, with `slack` characters more than the
-- limit allows.
abbrev Fits : (limit slack : ℕ) → Chars → Round → Type 0
Fits limit slack cs (goes_on rest o) =
    (length rest ≤ length cs)
    × (has method_mark cs ≡ false → has method_mark rest ≡ false)
    × (length o.written ≤ limit + slack)
Fits limit slack cs (fails o) = length o.written ≤ limit + slack
Fits limit slack cs (outside o) = length o.written ≤ limit + slack

read_digits-rest :
    (value : ℕ) (cs : Chars)
    → (length (read_digits value cs).1 ≤ length cs)
      × (has method_mark cs ≡ false → has method_mark (read_digits value cs).1 ≡ false)
unfolding read_digits
read_digits-rest value [] = (omega arith, λ e. e)
read_digits-rest value (c ∷ cs) = elim (Bool-cases (is_digit c)) [
  | inl digit ↦
      let (le, out) = read_digits-rest ((value * 10 + (c - 48)) % 2 ^ 32) cs in
      rw digit (omega (arith, le), λ e. out (ground (arith, e)))
  | inr other ↦ rw other (omega arith, λ e. e)
]

-- The characters that a mark may add.
abbrev slack_of : Char → ℕ
slack_of c = if c == method_mark then 1 else 0

module _ (limit : ℕ) (o : Output) (room : length o.written < limit) where
  put-Fits : (c : Char) (slack : ℕ) (cs : Chars) → Fits limit slack cs (goes_on cs (put c o))
  put-Fits c slack cs =
      let more = length-append_one o.written c in (omega arith, (λ e. e), omega (arith, more, room))

  escaped-Fits :
      (slack value : ℕ) (rest cs : Chars)
      → length rest ≤ length cs
      → (has method_mark cs ≡ false → has method_mark rest ≡ false)
      → Fits limit slack cs (escaped (value, rest) o)
  unfolding escaped
  escaped-Fits slack value [] cs le out = omega (arith, room)
  escaped-Fits slack value (c ∷ rest) cs le out = elim (Bool-cases (c == escape_sep)) [
    | inl closed ↦
        let more = length-append_one o.written (value % 2 ^ 8) in
        rw closed (omega (arith, le), (λ e. ground (arith, out e)), omega (arith, more, room))
    | inr open_end ↦ rw open_end (omega (arith, room))
  ]

  module_named-length : (name : Option Chars) → length (module_named limit name o).written ≤ limit
  unfolding module_named
  module_named-length none = omega (arith, room)
  module_named-length (some name) =
      copy_string-bounded limit (copy_string limit o.written name) (colon ∷ dylan_name)
        (copy_string-bounded limit o.written name (omega (arith, room)))

  dylan_module-Fits : (slack : ℕ) (cs : Chars) → Fits limit slack cs (dylan_module limit cs o)
  unfolding dylan_module
  dylan_module-Fits slack [] = omega (arith, room)
  dylan_module-Fits slack (c ∷ cs) = elim (Bool-cases (ltb c 117)) [
    | inl entry ↦ rw entry (
        let le = module_named-length (abbreviated dylan_abbrev_map c) in
        (omega arith, (λ e. ground (arith, e)), omega (arith, le)))
    | inr none_such ↦ rw none_such (omega (arith, room))
  ]

  library_again-length :
      (library : Option ℕ) → length (library_again limit library o).written ≤ limit
  unfolding library_again
  library_again-length none = omega (arith, room)
  library_again-length (some n) = elim (Bool-cases o.module_seen) [
    | inl seen ↦ rw seen (omega (arith, room))
    | inr unseen ↦
        rw unseen (copy_string-bounded limit o.written (drop n o.written) (omega (arith, room)))
  ]

  marked-Fits : (c : Char) (cs : Chars) → Fits limit (slack_of c) cs (goes_on cs (marked limit c o))
  unfolding marked
  marked-Fits c cs =
      let le = library_again-length o.library in
      let more = length-append_one (library_again limit o.library o).written number_sign in
      elim (Bool-cases (c == method_mark)) [
        | inl at_method ↦ rw at_method (omega arith, (λ e. e), omega (arith, le, more))
        | inr at_iep ↦ rw at_iep (omega arith, (λ e. e), omega (arith, le))
      ]

  -- The separators and the marks.
  special-Fits : (c : Char) (cs : Chars) → Fits limit (slack_of c) cs (special_char limit c cs o)
  unfolding special_char
  special-Fits c cs = elim (Bool-cases (c == escape_sep)) [
    | inl is ↦
        let (le, out) = read_digits-rest 0 cs in
        rw is (escaped-Fits (slack_of c) (read_digits 0 cs).0 (read_digits 0 cs).1 cs le out)
    | inr not_escape ↦ rw not_escape elim (Bool-cases (c == dylan_module_sep)) [
      | inl is ↦ rw is (dylan_module-Fits (slack_of c) cs)
      | inr not_dylan ↦ rw not_dylan elim (Bool-cases (c == module_sep)) [
        | inl is ↦ rw is (put-Fits colon (slack_of c) cs)
        | inr not_module ↦ rw not_module elim (Bool-cases (c == library_sep)) [
          | inl is ↦ rw is (put-Fits colon (slack_of c) cs)
          | inr not_library ↦
              rw not_library elim (Bool-cases ((c == method_mark) || (c == iep_mark))) [
                | inl is ↦ rw is (marked-Fits c cs)
                | inr other ↦ rw other (omega (arith, room))
              ]
        ]
      ]
    ]
  ]

  demangle_char-Fits :
      (c : Char) (cs : Chars) → Fits limit (slack_of c) cs (demangle_char limit c cs o)
  unfolding demangle_char
  demangle_char-Fits c cs = elim (Bool-cases (ltb 127 c)) [
    | inl large ↦ rw large (omega (arith, room))
    | inr small ↦ elim (Bool-cases (demangle_map c == 0)) [
      | inr plain ↦ rw (small, plain) (put-Fits (demangle_map c) (slack_of c) cs)
      | inl special ↦ rw (small, special) (special-Fits c cs)
    ]
  ]

-- The loop comes to an end, or reads outside, with at most `n` characters written till then.
abbrev pub Within : ℕ → Demangled → Type 0
Within n (returns cs) = length cs ≤ n
Within n (failed cs) = length cs ≤ n
Within n (overrun cs) = length cs ≤ n
Within n out_of_fuel = ⊥

stop-Within :
    (limit slack : ℕ) (o : Output)
    → length o.written ≤ limit + slack
    → Within (limit + slack + 1) (returns (o.written ++ (0 ∷ [])))
stop-Within limit slack o le = let more = length-append_one o.written 0 in omega (arith, more, le)

-- One round, given that the loop goes well after it.
round-Within :
    (fuel limit slack : ℕ) (c : Char) (cs : Chars)
    → ((rest : Chars) (p : Output)
        → length rest ≤ fuel
        → (has method_mark rest ≡ true → slack ≡ 1)
        → length p.written ≤ limit + slack
        → Within (limit + slack + 1) (demangle_loop fuel limit rest p))
    → suc (length cs) ≤ suc fuel
    → (has method_mark (c ∷ cs) ≡ true → slack ≡ 1)
    → (r : Round) → Fits limit (slack_of c) cs r
    → Within (limit + slack + 1) (after_round (demangle_loop fuel limit) r)
round-Within fuel limit slack c cs loop enough marks (fails o) fits = ground (arith, fits, marks)
round-Within fuel limit slack c cs loop enough marks (outside o) fits = ground (arith, fits, marks)
round-Within fuel limit slack c cs loop enough marks (goes_on rest p) (shorter, unmarked, fits) =
    loop rest p (omega (arith, shorter, enough)) (λ e. marks (ground (arith, e, unmarked)))
      (ground (arith, fits, marks))

loop-Within :
    (fuel limit slack : ℕ) (cs : Chars) (o : Output)
    → length cs ≤ fuel
    → (has method_mark cs ≡ true → slack ≡ 1)
    → length o.written ≤ limit + slack
    → Within (limit + slack + 1) (demangle_loop fuel limit cs o)
unfolding demangle_loop
loop-Within fuel limit slack [] o enough marks le = stop-Within limit slack o le
loop-Within zero limit slack (c ∷ cs) o enough marks le = absurd (omega (arith, enough))
loop-Within (suc fuel) limit slack (c ∷ cs) o enough marks le =
    elim (Bool-cases (ltb (length o.written) limit)) [
      | inl room ↦ rw room (
          round-Within fuel limit slack c cs (λ rest p. loop-Within fuel limit slack rest p) enough
            marks (demangle_char limit c cs o)
            (demangle_char-Fits limit o (ground (arith, room)) c cs))
      | inr full ↦ rw full (stop-Within limit slack o le)
    ]

abbrev pub marks_slack : Chars → ℕ
marks_slack src = if has method_mark src then 1 else 0

prefix-marks : (src : Chars) → has method_mark (without_prefix src) ≡ true → marks_slack src ≡ 1
prefix-marks [] e = ground (arith, e)
prefix-marks (c ∷ cs) e = ground (arith, e)

-- Within as many rounds as `src` has characters dylan_demangle returns, fails, or reads outside `src`
-- or its table. Till then it writes no more than `destsize` characters of `dest`, the NUL included
-- where it returns; but one more where `src` has a method mark. What it does after it has read outside
-- is not stated.
pub dylan_demangle-Within :
    (destsize : ℕ) (src : Chars) → Within (destsize + marks_slack src) (dylan_demangle destsize src)
unfolding dylan_demangle
dylan_demangle-Within zero src = omega arith
dylan_demangle-Within (suc limit) src =
    let slack : ℕ = marks_slack src in
    let fits =
      loop-Within (length (without_prefix src)) limit slack (without_prefix src)
        (record { written = []; module_seen = false; library = none }) (omega arith)
        (prefix-marks src) (omega arith) in
    subst (λ (n : ℕ). Within n (dylan_demangle (suc limit) src)) (omega arith) fits
