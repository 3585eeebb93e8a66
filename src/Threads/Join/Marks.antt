-- ===== src/Threads/Join/Marks.antt =====
-- The loops of primitive_thread_join_multiple over the flags.
use opendylan.Prelude.{
  ◌≡◌, refl, sym, ◌∙◌, arith, has, true, false, not, List, [], ◌∷◌, some, inl, inr, Bool-cases,
  ◌==◌, ==_iff,
}
use opendylan.Prelude.Store.{Ptr, update}
use opendylan.Threads.Join.{Flags, some_taken, mark_all, first_completed, toggle_all}

-- Marking a thread, and toggling its mark.
abbrev mark_one : Ptr → (Ptr → Flags) → Ptr → Flags
mark_one t h = let f : Flags = h t in update h t (record f { marked = true })

abbrev toggle_one : Ptr → (Ptr → Flags) → Ptr → Flags
toggle_one t h = let f : Flags = h t in update h t (record f { marked = not f.marked })

pub mark_all-joined :
    (ts : List Ptr) (h : Ptr → Flags) (u : Ptr) → (mark_all ts h u).joined ≡ (h u).joined
unfolding mark_all
mark_all-joined [] h u = refl
mark_all-joined (t ∷ ts) h u = mark_all-joined ts (mark_one t h) u ∙ ground arith

pub mark_all-outside :
    (ts : List Ptr) (h : Ptr → Flags) (u : Ptr)
    → has u ts ≡ false
    → (mark_all ts h u).marked ≡ (h u).marked
unfolding mark_all
mark_all-outside [] h u out = refl
mark_all-outside (t ∷ ts) h u out =
    mark_all-outside ts (mark_one t h) u (ground (arith, out)) ∙ ground (arith, out)

mark_all-kept :
    (ts : List Ptr) (h : Ptr → Flags) (u : Ptr)
    → (h u).marked ≡ true
    → (mark_all ts h u).marked ≡ true
unfolding mark_all
mark_all-kept [] h u kept = kept
mark_all-kept (t ∷ ts) h u kept = mark_all-kept ts (mark_one t h) u (ground (arith, kept))

pub mark_all-inside :
    (ts : List Ptr) (h : Ptr → Flags) (u : Ptr) → has u ts ≡ true → (mark_all ts h u).marked ≡ true
unfolding mark_all
mark_all-inside [] h u on = absurd (ground (arith, on))
mark_all-inside (t ∷ ts) h u on = elim (Bool-cases (u == t)) [
  | inl same ↦ mark_all-kept ts (mark_one t h) u (ground (arith, same))
  | inr other ↦ mark_all-inside ts (mark_one t h) u (ground (arith, on, other))
]

pub toggle_all-joined :
    (ts : List Ptr) (h : Ptr → Flags) (u : Ptr) → (toggle_all ts h u).joined ≡ (h u).joined
unfolding toggle_all
toggle_all-joined [] h u = refl
toggle_all-joined (t ∷ ts) h u = toggle_all-joined ts (toggle_one t h) u ∙ ground arith

pub toggle_all-outside :
    (ts : List Ptr) (h : Ptr → Flags) (u : Ptr)
    → has u ts ≡ false
    → (toggle_all ts h u).marked ≡ (h u).marked
unfolding toggle_all
toggle_all-outside [] h u out = refl
toggle_all-outside (t ∷ ts) h u out =
    toggle_all-outside ts (toggle_one t h) u (ground (arith, out)) ∙ ground (arith, out)

pub some_taken-free :
    (ts : List Ptr) (h : Ptr → Flags) (u : Ptr)
    → some_taken ts h ≡ false
    → has u ts ≡ true
    → ((h u).marked ≡ false) × ((h u).joined ≡ false)
unfolding some_taken
some_taken-free [] h u free on = absurd (ground (arith, on))
some_taken-free (t ∷ ts) h u free on = elim (Bool-cases (u == t)) [
  | inl same ↦ rw ((==_iff u t).0 same) (ground (arith, free), ground (arith, free))
  | inr other ↦ some_taken-free ts h u (ground (arith, free)) (ground (arith, on, other))
]

pub first_completed-has :
    (ts : List Ptr) (h : Ptr → Flags) (t : Ptr)
    → first_completed ts h ≡ some t
    → (has t ts ≡ true) × ((h t).completed ≡ true)
unfolding first_completed
first_completed-has [] h t e = absurd (ground (arith, e))
first_completed-has (u ∷ ts) h t e = elim (Bool-cases (h u).completed) [
  | inl done ↦
      let same : u ≡ t = ground (arith, e, done) in (ground (arith, same), rw (sym same) done)
  | inr not_yet ↦
      let (on, c) = first_completed-has ts h t (ground (arith, e, not_yet)) in
      (ground (arith, on), c)
]
