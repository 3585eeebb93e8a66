-- ===== src/Demangle/Names.antt =====
-- What dylan_demangle makes of the names of entry points.
use opendylan.Prelude.{
  subst, ==_iff, not, ◌==◌, ◌||◌, ◌&&◌, leb, if◌then◌else◌, List, Bool-cases, inl, inr, ℕ, zero,
  suc, ◌+◌, ◌≤◌, ◌<◌, ◌≡◌, ◌≢◌, refl, sym, ap, ◌∙◌, arith, Bool, true, false, [], ◌∷◌, ◌++◌, map,
  Option, none, some, length, ltb, ==_ne,
}
use mathlib.Core.List.{append_assoc, append-nil}
use opendylan.Demangle.{
  is_digit, Char, Chars, Output, goes_on, returns, demangle_map, put, marked, library_again,
  special_char, demangle_char, demangle_loop, dylan_demangle, module_sep, library_sep, iep_mark,
  colon, constant_prefix, look_up,
}
use opendylan.Demangle.Bounds.{length-append_one}

-- Characters that stand for another one.
abbrev pub IsPlain : Chars → Type 0
IsPlain [] = Unit {0}
IsPlain (c ∷ cs) = (c ≤ 127) × (demangle_map c ≢ 0) × IsPlain cs

abbrev pub plain : Chars → Chars
plain cs = map demangle_map cs

length-append : (xs ys : Chars) → length (xs ++ ys) ≡ length xs + length ys
length-append [] ys = omega arith
length-append (x ∷ xs) ys = let rest = length-append xs ys in omega (arith, rest)

length-plain : (cs : Chars) → length (plain cs) ≡ length cs
length-plain [] = refl
length-plain (c ∷ cs) = ap (λ (n : ℕ). suc n) (length-plain cs)

-- One more round for each character.
abbrev rounds : Chars → ℕ → ℕ
rounds [] fuel = fuel
rounds (c ∷ cs) fuel = suc (rounds cs fuel)

rounds-length : (cs rest : Chars) → rounds cs (length rest) ≡ length (cs ++ rest)
rounds-length [] rest = refl
rounds-length (c ∷ cs) rest = ap (λ (n : ℕ). suc n) (rounds-length cs rest)

module _ (limit : ℕ) where
  -- A round that only writes one character.
  loop-put :
      (c : Char) (cs : Chars) (fuel : ℕ) (o p : Output)
      → length o.written < limit
      → demangle_char limit c cs o ≡ goes_on cs p
      → demangle_loop (suc fuel) limit (c ∷ cs) o ≡ demangle_loop fuel limit cs p
  unfolding demangle_loop
  loop-put c cs fuel o p room e =
      let now : ltb (length o.written) limit ≡ true = ground (arith, room) in rw (now, e) refl

  -- The loop over plain characters.
  loop-plain :
      (cs rest : Chars) (fuel : ℕ) (o : Output)
      → IsPlain cs
      → length o.written + length cs ≤ limit
      → demangle_loop (rounds cs fuel) limit (cs ++ rest) o
        ≡ demangle_loop fuel limit rest (record o { written = o.written ++ plain cs })
  loop-plain [] rest fuel o is room = rw (append-nil o.written) refl
  loop-plain (c ∷ cs) rest fuel o is room =
      let d : Char = demangle_map c in
      let more = length-append_one o.written d in
      let small : ltb 127 c ≡ false = ground (arith, is.0) in
      loop-put c (cs ++ rest) (rounds cs fuel) o (put d o) (omega (arith, room))
        (unfold demangle_char in rw (small, ==_ne d 0 is.1) refl)
      ∙ loop-plain cs rest fuel (put d o) is.2 (omega (arith, more, room))
      ∙ ap (λ (w : Chars). demangle_loop fuel limit rest (record o { written = w }))
          (append_assoc o.written (d ∷ []) (plain cs))

module _ (limit : ℕ) (seen : Bool) (library : Option ℕ) where
  abbrev output : Chars → Output
  output w = record { written = w; module_seen = seen; library = library }

  -- A name, and the separator of modules behind it.
  loop-module :
      (w cs rest : Chars)
      → IsPlain cs
      → length w + length cs < limit
      → demangle_loop
          (length (cs ++ (module_sep ∷ rest)))
          limit
          (cs ++ (module_sep ∷ rest))
          (output w)
        ≡ demangle_loop (length rest) limit rest (record {
          written = w ++ plain cs ++ (colon ∷ []);
          module_seen = true;
          library = library;
        })
  loop-module w cs rest is room =
      let all = length-append w (plain cs) in
      let same = length-plain cs in
      ap (λ (f : ℕ). demangle_loop f limit (cs ++ (module_sep ∷ rest)) (output w))
        (sym (rounds-length cs (module_sep ∷ rest)))
      ∙ loop-plain limit cs (module_sep ∷ rest) (suc (length rest)) (output w) is
          (omega (arith, room))
      ∙ loop-put limit module_sep rest (length rest) (output (w ++ plain cs))
          (record {
            written = w ++ plain cs ++ (colon ∷ []);
            module_seen = true;
            library = library;
          })
          (omega (arith, all, same, room))
          (unfold demangle_char special_char demangle_map look_up in refl)

  -- A name, and the separator of libraries behind it.
  loop-library :
      (w cs rest : Chars)
      → IsPlain cs
      → length w + length cs < limit
      → demangle_loop
          (length (cs ++ (library_sep ∷ rest)))
          limit
          (cs ++ (library_sep ∷ rest))
          (output w)
        ≡ demangle_loop (length rest) limit rest (record {
          written = w ++ plain cs ++ (colon ∷ []);
          module_seen = seen;
          library = some (length (w ++ plain cs));
        })
  loop-library w cs rest is room =
      let all = length-append w (plain cs) in
      let same = length-plain cs in
      ap (λ (f : ℕ). demangle_loop f limit (cs ++ (library_sep ∷ rest)) (output w))
        (sym (rounds-length cs (library_sep ∷ rest)))
      ∙ loop-plain limit cs (library_sep ∷ rest) (suc (length rest)) (output w) is
          (omega (arith, room))
      ∙ loop-put limit library_sep rest (length rest) (output (w ++ plain cs))
          (record {
            written = w ++ plain cs ++ (colon ∷ []);
            module_seen = seen;
            library = some (length (w ++ plain cs));
          })
          (omega (arith, all, same, room))
          (unfold demangle_char special_char demangle_map look_up in refl)

-- A name, and the mark of an entry point behind it, where the module is known.
loop-iep :
    (limit : ℕ) (library : Option ℕ) (w cs : Chars)
    → IsPlain cs
    → length w + length cs ≤ limit
    → demangle_loop
        (length (cs ++ (iep_mark ∷ [])))
        limit
        (cs ++ (iep_mark ∷ []))
        (output limit true library w)
      ≡ returns (w ++ plain cs ++ (0 ∷ []))
unfolding demangle_loop
loop-iep limit library w cs is room =
    let all = length-append w (plain cs) in
    let same = length-plain cs in
    ap (λ (f : ℕ). demangle_loop f limit (cs ++ (iep_mark ∷ [])) (output limit true library w))
      (sym (rounds-length cs (iep_mark ∷ [])))
    ∙ loop-plain limit cs (iep_mark ∷ []) 1 (output limit true library w) is (omega (arith, room))
    ∙ elim (Bool-cases (ltb (length (w ++ plain cs)) limit)) [
      | inl more ↦
          loop-put limit iep_mark [] 0 (output limit true library (w ++ plain cs))
            (output limit true library (w ++ plain cs)) (ground (arith, more)) (known library)
      | inr full ↦ rw full refl
    ]
  where
    known :
        (library : Option ℕ)
        → demangle_char limit iep_mark [] (output limit true library (w ++ plain cs))
          ≡ goes_on [] (output limit true library (w ++ plain cs))
    known none = unfold demangle_char special_char demangle_map look_up marked library_again in refl
    known (some n) =
        unfold demangle_char special_char demangle_map look_up marked library_again in refl

-- The table of documentation/source/hacker-guide/runtime/mangling.rst, from a character of a name to
-- its new character: - _, ! X, $ D, % P, * T, / S, < L, > G, ? Q, + A, & B, ^ C, _ U, @ O, = E and
-- ~ N. Small letters and digits stay as they are.
abbrev documented : List (Char × Char)
documented =
    (45, 95)
    ∷ (33, 88)
    ∷ (36, 68)
    ∷ (37, 80)
    ∷ (42, 84)
    ∷ (47, 83)
    ∷ (60, 76)
    ∷ (62, 71)
    ∷ (63, 81)
    ∷ (43, 65)
    ∷ (38, 66)
    ∷ (94, 67)
    ∷ (95, 85)
    ∷ (64, 79)
    ∷ (61, 69)
    ∷ (126, 78)
    ∷ []

unfoldable new_character : List (Char × Char) → Char → Option Char
new_character [] c = none
new_character (p ∷ ps) c = let rest = new_character ps c in if p.0 == c then some p.1 else rest

unfoldable pub mangled : Char → Option Char
unfolding new_character
mangled c = if (leb 97 c && leb c 122) || is_digit c then some c else new_character documented c

-- `m` is the name `n` as it is mangled, of characters that the documentation gives a new one or that
-- stay as they are.
pub data Mangles : (n m : Chars) → Type 0 where
  ends : Mangles [] []
  mangles :
      {n m : Chars} {c d : Char}
      → c < 128
      → mangled c ≡ some d
      → Mangles n m
      → Mangles (c ∷ n) (d ∷ m)

-- Each of the 128 characters is one that the code gives back, if it has a mangled form.
unfoldable gives_back : Char → Bool
unfolding mangled demangle_map look_up
gives_back c = elim (mangled c) [
  | none ↦ true
  | some d ↦ leb d 127 && not (c == 0) && demangle_map d == c
]

-- A test of the characters from `c` on, `rounds` of them.
range_passes : (rounds c : ℕ) (test : Char → Bool) → Bool
range_passes zero c test = true
range_passes (suc r) c test = test c && range_passes r (c + 1) test

range_passes-at :
    (rounds c : ℕ) (test : Char → Bool)
    → range_passes rounds c test ≡ true
    → (k : ℕ) → k < rounds
    → test (c + k) ≡ true
unfolding range_passes
range_passes-at zero c test passes k less = absurd (omega (arith, less))
range_passes-at (suc r) c test passes zero less =
    let here : c + 0 ≡ c = omega arith in rw here (ground (arith, passes))
range_passes-at (suc r) c test passes (suc k) less =
    let there : c + suc k ≡ c + 1 + k = omega arith in
    rw there (range_passes-at r (c + 1) test (ground (arith, passes)) k (omega (arith, less)))

all_given_back : range_passes 128 0 gives_back ≡ true
unfolding range_passes gives_back
all_given_back = refl

mangled-demangle_map :
    (c d : Char)
    → c < 128
    → mangled c ≡ some d
    → (d ≤ 127) × (demangle_map d ≢ 0) × (demangle_map d ≡ c)
unfolding gives_back
mangled-demangle_map c d small e =
    let start : 0 + c ≡ c = omega arith in
    let test =
      subst (λ x. gives_back x ≡ true) start
        (range_passes-at 128 0 gives_back all_given_back c small) in
    let test' = rw (e, gives_back) at test in
    let same : demangle_map d ≡ c = (==_iff _ _).0 (ground (arith, test')) in
    (ground (arith, test'), (λ zero_map. ground (arith, test', sym same ∙ zero_map)), same)

Mangles-plain : (n m : Chars) → Mangles n m → IsPlain m × (plain m ≡ n)
Mangles-plain [] [] ends = (tt, refl)
Mangles-plain [] (d ∷ m) none_such = elim none_such [ ]
Mangles-plain (c ∷ n) [] none_such = elim none_such [ ]
Mangles-plain (c ∷ n) (d ∷ m) (mangles small e rest) =
    let (le, ne, same) = mangled-demangle_map c d small e in
    let (is, all) = Mangles-plain n m rest in ((le, ne, is), rw (same, all) refl)

-- The name of an entry point of a method in a module of a library, as the documentation has it
-- mangled: `K`, the name, `Y`, the module, `V`, the library and `I`. Where `dest` has room for them,
-- dylan_demangle gives back the three names with colons between them, and a NUL.
pub dylan_demangle-Mangles :
    (n n' m m' l l' : Chars) (destsize : ℕ)
    → Mangles n n'
    → Mangles m m'
    → Mangles l l'
    → length n + length m + length l + 3 ≤ destsize
    → dylan_demangle destsize
        (constant_prefix ∷ (n' ++ (module_sep ∷ (m' ++ (library_sep ∷ (l' ++ (iep_mark ∷ [])))))))
      ≡ returns (n ++ (colon ∷ []) ++ m ++ (colon ∷ []) ++ l ++ (0 ∷ []))
unfolding dylan_demangle
dylan_demangle-Mangles n n' m m' l l' zero rn rm rl room = absurd (omega (arith, room))
dylan_demangle-Mangles n n' m m' l l' (suc limit) rn rm rl room =
    let (pn, en) = Mangles-plain n n' rn in
    let (pm, em) = Mangles-plain m m' rm in
    let (pl, el) = Mangles-plain l l' rl in
    let src3 : Chars = l' ++ (iep_mark ∷ []) in
    let src2 : Chars = m' ++ (library_sep ∷ src3) in
    let w1 : Chars = plain n' ++ (colon ∷ []) in
    let w2 : Chars = w1 ++ plain m' ++ (colon ∷ []) in
    let sum1 = length-append (plain n') (colon ∷ []) in
    let sum2 = length-append (w1 ++ plain m') (colon ∷ []) in
    let sum3 = length-append w1 (plain m') in
    let same1 = length-plain n' in
    let same2 = length-plain m' in
    let same3 = length-plain l' in
    let size1 = ap (λ (t : Chars). length t) en in
    let size2 = ap (λ (t : Chars). length t) em in
    let size3 = ap (λ (t : Chars). length t) el in
    loop-module limit false none [] n' src2 pn (omega (arith, room, same1, size1))
    ∙ loop-library limit true none w1 m' src3 pm
        (omega (arith, room, sum1, same1, same2, size1, size2))
    ∙ loop-iep limit _ w2 l' pl
        (omega (arith, room, sum1, sum2, sum3, same1, same2, same3, size1, size2, size3))
    ∙ rw (en, em, el) refl
