-- ===== src/Symbols/Intern.antt =====
-- Symbols stand for strings up to case.
use opendylan.Prelude.{
  [], ◌∷◌, ℕ, zero, suc, ◌+◌, ◌≤◌, ◌<◌, ◌≡◌, refl, sym, ap, subst, ◌∙◌, ◌⊎◌, inl, inr, Bool, true,
  false, ◌&&◌, Option, none, some, arith, ltb, ◌==◌, length, map, ◌↔◌, Bool-cases, ==_iff,
}
use native.Mathlib.Decide.{ℕ_discrete}
use mathlib.Core.Bool.{false≢true}
use opendylan.Prelude.Store.{update, update_self, update-ne}
use opendylan.Values.{Value}
use opendylan.Symbols.{
  Characters, SameIgnoringCase, IgnoresCase, Same, lower, Symbols, matches, find_symbol,
  grow_oblist, add_symbol, string_as_symbol_using_symbol,
}

pub both : (b c : Bool) → (b && c) ≡ true → (b ≡ true) × (c ≡ true)
both true c h = (refl, h)
both false c h = absurd (false≢true h)

length-lower : (a : Characters) → length (map lower a) ≡ length a
length-lower [] = refl
length-lower (c ∷ a) = ap (λ (n : ℕ). suc n) (length-lower a)

Same-length : (a b : Characters) → Same a b → length a ≡ length b
Same-length a b h = sym (length-lower a) ∙ ap (λ (t : Characters). length t) h ∙ length-lower b

module _ (same : SameIgnoringCase) (law : IgnoresCase same) where
  -- The test of an entry is true of the names that are the input but for case.
  pub matches-Same : (a b : Characters) → (matches same a b ≡ true) ↔ Same a b
  unfolding matches
  matches-Same a b = (
    λ h.
        let (l, e) = both (length a == length b) (same a b (length b)) h in
        (law.same_iff a b ((==_iff (length a) (length b)).0 l)).0 e,
    λ h.
        let l = Same-length a b h in
        rw ((==_iff (length a) (length b)).1 l) ((law.same_iff a b l).1 h),
  )

  pub matches-other : (a b : Characters) → matches same a b ≡ false → ¬ Same a b
  matches-other a b e h = false≢true (sym e ∙ (matches-Same a b).1 h)

  -- The search: an entry whose name is the input, but for case; or none has it.
  pub find_symbol-cases :
      (k i : ℕ) (input : Characters) (s : Symbols)
      → ((j : ℕ) × (i ≤ j)
          × (j < i + k)
          × (find_symbol same k i input s ≡ some (s.oblist j))
          × Same (s.name (s.oblist j)) input)
        ⊎ ((find_symbol same k i input s ≡ none)
            × ((j : ℕ) → i ≤ j → j < i + k → ¬ Same (s.name (s.oblist j)) input))
  unfolding find_symbol
  find_symbol-cases zero i input s = inr (refl, λ j lo hi. absurd (omega arith))
  find_symbol-cases (suc k) i input s =
      elim (Bool-cases (matches same (s.name (s.oblist i)) input)) [
        | inl here ↦ inl (i, omega arith, omega arith, rw here refl, (matches-Same _ _).0 here)
        | inr away ↦ elim (find_symbol-cases k (suc i) input s) [
          | inl (j, lo, hi, e, found) ↦ inl (j, omega arith, omega arith, rw away e, found)
          | inr (e, all) ↦ inr (
            rw away e,
            λ j lo hi. elim (ℕ_discrete j i) [
              | yes at ↦
                  subst (λ x. ¬ Same (s.name (s.oblist x)) input) (sym at) (matches-other _ _ away)
              | no ne ↦ all j (omega arith) (omega arith)
            ],
          )
        ]
      ]

  -- The table: the entries in use have room, and names that differ in more than case.
  pub record IsTable (s : Symbols) : Type 0 where
    pub room : s.oblist_cursor ≤ s.oblist_size
    pub distinct :
        (i j : ℕ) → i < j → j < s.oblist_cursor → ¬ Same (s.name (s.oblist i)) (s.name (s.oblist j))

  -- A symbol of the table.
  abbrev pub IsIn : Symbols → Value → Type 0
  IsIn s x = (i : ℕ) × (i < s.oblist_cursor) × (s.oblist i ≡ x)

  -- What a call gives: the symbol is in the table, its name is the input but for case, and the symbols
  -- of the table before are in it with the names that they had.
  pub record Interns (input : Characters) (s : Symbols) (r : Value × Symbols) : Type 0 where
    pub table : IsTable r.1
    pub entered : IsIn r.1 r.0
    pub named : Same (r.1.name r.0) input
    pub kept : (x : Value) → IsIn s x → IsIn r.1 x × (r.1.name x ≡ s.name x)

  pub string_as_symbol-found :
      (allocated : Value) (input : Characters) (symbol : Option Value) (s : Symbols) (j : ℕ)
      → IsTable s
      → j < s.oblist_cursor
      → find_symbol same s.oblist_cursor 0 input s ≡ some (s.oblist j)
      → Same (s.name (s.oblist j)) input
      → Interns input s (string_as_symbol_using_symbol same allocated input symbol s)
  unfolding string_as_symbol_using_symbol
  string_as_symbol-found allocated input symbol s j t low e found =
      rw (e, string_as_symbol_using_symbol)
        record { table = t; entered = (j, low, refl); named = found; kept = λ x here. (here, refl) }

  pub grow_oblist-room :
      (s : Symbols)
      → s.oblist_cursor ≤ s.oblist_size
      → (grow_oblist same s).oblist_cursor < (grow_oblist same s).oblist_size
  unfolding grow_oblist
  grow_oblist-room s room = ground arith

  pub grow_oblist-same :
      (s : Symbols)
      → ((grow_oblist same s).oblist_cursor ≡ s.oblist_cursor)
        × ((grow_oblist same s).oblist ≡ s.oblist)
        × ((grow_oblist same s).name ≡ s.name)
  unfolding grow_oblist
  grow_oblist-same s = elim (Bool-cases (ltb s.oblist_cursor s.oblist_size)) [
    | inl fits ↦ rw fits (refl, refl, refl)
    | inr full ↦ rw full (refl, refl, refl)
  ]

  -- A symbol for the input is added to a table in which no entry has its name.
  module _ (input : Characters) (s s₁ : Symbols) (x : Value) (t : IsTable s)
      (fresh : (j : ℕ) → j < s.oblist_cursor → ¬ Same (s.name (s.oblist j)) input)
      (cursor : s₁.oblist_cursor ≡ s.oblist_cursor) (entries : s₁.oblist ≡ s.oblist)
      (room : s₁.oblist_cursor < s₁.oblist_size)
      (names : (j : ℕ) → j < s.oblist_cursor → s₁.name (s.oblist j) ≡ s.name (s.oblist j))
      (named : Same (s₁.name x) input) where
    abbrev s₂ : Symbols
    s₂ = add_symbol same x s₁

    size_after : (s₂.oblist_cursor ≡ s.oblist_cursor + 1) × (s₂.oblist_size ≡ s₁.oblist_size)
    unfolding add_symbol
    size_after = (omega (arith, cursor), refl)

    name_after : s₂.name ≡ s₁.name
    unfolding add_symbol
    name_after = refl

    entry_after : (j : ℕ) → j < s.oblist_cursor → s₂.oblist j ≡ s.oblist j
    unfolding add_symbol
    entry_after j low =
        update-ne s₁.oblist s₁.oblist_cursor x j (λ e. absurd (omega (arith, cursor, e)))
        ∙ ap (λ (f : ℕ → Value). f j) entries

    entry_last : s₂.oblist s.oblist_cursor ≡ x
    unfolding add_symbol
    entry_last =
        ap (update s₁.oblist s₁.oblist_cursor x) (sym cursor)
        ∙ update_self s₁.oblist s₁.oblist_cursor x

    entry_name : (j : ℕ) → j < s.oblist_cursor → s₂.name (s₂.oblist j) ≡ s.name (s.oblist j)
    entry_name j low =
        ap s₂.name (entry_after j low)
        ∙ ap (λ (f : Value → Characters). f (s.oblist j)) name_after
        ∙ names j low

    distinct_after :
        (i j : ℕ)
        → i < j
        → j < s.oblist_cursor + 1
        → ¬ Same (s₂.name (s₂.oblist i)) (s₂.name (s₂.oblist j))
    distinct_after i j less low = elim (ℕ_discrete j s.oblist_cursor) [
      | no ne ↦
          let lowj : j < s.oblist_cursor = omega (arith, ne) in
          let lowi : i < s.oblist_cursor = omega arith in
          rw (entry_name i lowi, entry_name j lowj) (t.distinct i j less lowj)
      | yes last ↦
          let lowi : i < s.oblist_cursor = omega (arith, last) in
          let name_j : s₂.name (s₂.oblist j) ≡ s₁.name x =
            ap (λ k. s₂.name (s₂.oblist k)) last
            ∙ ap s₂.name entry_last
            ∙ ap (λ (f : Value → Characters). f x) name_after in
          rw (entry_name i lowi, name_j) (λ both_named. fresh i lowi (both_named ∙ named))
    ]

    pub added : Interns input s (x, s₂)
    added = record {
      table = record {
        room = omega (arith, size_after.0, size_after.1, cursor, room);
        distinct = λ i j less low. distinct_after i j less (omega (arith, size_after.0));
      };
      entered = (s.oblist_cursor, omega (arith, size_after.0), entry_last);
      named = subst (λ (f : Value → Characters). Same (f x) input) (sym name_after) named;
      kept = λ y (j, low, e). (
        (j, omega (arith, size_after.0), entry_after j low ∙ e),
        subst (λ z. s₂.name z ≡ s.name z) e
            (ap s₂.name (sym (entry_after j low)) ∙ entry_name j low),
      );
    }
