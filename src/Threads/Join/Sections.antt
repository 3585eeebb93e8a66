-- ===== src/Threads/Join/Sections.antt =====
-- The sections of primitive_thread_join_single and primitive_thread_join_multiple keep what the flags
-- say of a thread.
use opendylan.Prelude.{
  ◌≡◌, refl, subst, ◌∙◌, arith, has, true, false, ◌||◌, List, Option, none, some, inl, inr,
  Bool-cases, ◌==◌, ==_iff,
}
use opendylan.Prelude.Int.{ℤ}
use opendylan.Prelude.Store.{Ptr, update}
use opendylan.Threads.Mutex.{general_error}
use opendylan.Threads.Join.{
  Flags, Joining, Progress, answers, join_single_rest, thread_join_single, join_single_woken,
  some_taken, mark_all, first_completed, join_multiple_found, join_multiple_rest,
  thread_join_multiple, join_multiple_woken, Pc, calls_single, calls_multiple, waits_single,
  waits_multiple, ended, after, Move, enters_single, wakes_single, enters_multiple, wakes_multiple,
}
use opendylan.Threads.Join.Marks.{
  mark_all-joined, mark_all-outside, mark_all-inside, toggle_all-joined, toggle_all-outside,
  some_taken-free, first_completed-has,
}
use opendylan.Threads.Join.Fair.{
  waits_for, won, Keeps, won-Fair, left-Fair, same-Fair, begun-Fair, Keeps-after,
}

-- The end of primitive_thread_join_single, of a call that waits.
rest_single-Keeps :
    (t u : Ptr) (h : Ptr → Flags)
    → (let r = join_single_rest u h in
        Keeps t h (waits_single u) r.1.handle1 (after (waits_single u) r.0))
unfolding join_single_rest
rest_single-Keeps t u h = elim (Bool-cases (h u).completed) [
  | inl done ↦ rw done (λ w j w' j' ew ej le fair. elim (Bool-cases (t == u)) [
    | inl same ↦
        won-Fair (h t) _ w j w' j' fair (ground (arith, le, same)) (ground (arith, ew, same))
          (ground (arith, ej, same)) (ground (arith, same))
    | inr other ↦
        same-Fair (h t) _ w j w' j' fair (ground (arith, ew, other)) (ground (arith, ej, other))
          (ground (arith, other)) (ground (arith, other))
  ])
  | inr not_yet ↦ rw not_yet (λ w j w' j' ew ej le fair.
      same-Fair (h t) (h t) w j w' j' fair (ground (arith, ew)) (ground (arith, ej)) refl refl)
]

-- A call that finds the thread free marks it.
mark_single-Keeps :
    (t u : Ptr) (h : Ptr → Flags)
    → (h u).marked ≡ false
    → (h u).joined ≡ false
    → Keeps t h
        (calls_single u)
        (let f : Flags = h u in update h u (record f { marked = true }))
        (waits_single u)
mark_single-Keeps t u h unmarked unjoined w j w' j' ew ej le fair = elim (Bool-cases (t == u)) [
  | inl same ↦
      let here : t ≡ u = (==_iff t u).0 same in
      begun-Fair (h t) _ w j w' j' fair (rw here unmarked) (rw here unjoined)
        (ground (arith, ew, same)) (ground (arith, ej)) (ground (arith, same, unjoined))
        (ground (arith, same))
  | inr other ↦
      same-Fair (h t) _ w j w' j' fair (ground (arith, ew, other)) (ground (arith, ej))
        (ground (arith, other)) (ground (arith, other))
]

rest_multiple-Keeps :
    (t : Ptr) (us : List Ptr) (h : Ptr → Flags)
    → (let r = join_multiple_rest us h in
        Keeps t h (waits_multiple us) r.1.handle1 (after (waits_multiple us) r.0))
unfolding join_multiple_rest join_multiple_found
rest_multiple-Keeps t us h = go (first_completed us h) refl
  where
    go :
        (found : Option Ptr)
        → first_completed us h ≡ found
        → (let r = join_multiple_found us h found in
            Keeps t h (waits_multiple us) r.1.handle1 (after (waits_multiple us) r.0))
    go none e w j w' j' ew ej le fair =
        same-Fair (h t) (h t) w j w' j' fair (ground (arith, ew)) (ground (arith, ej)) refl refl
    go (some u) e w j w' j' ew ej le fair =
        let f : Flags = h u in
        let g : Ptr → Flags = update h u (record f { joined = true }) in
        let on = (first_completed-has us h u e).0 in
        let joined = toggle_all-joined us g t in
        elim (Bool-cases (t == u)) [
          | inl same ↦
              let here : t ≡ u = (==_iff t u).0 same in
              let inside : has t us ≡ true = rw here on in
              won-Fair (h t) _ w j w' j' fair (ground (arith, le, inside))
                (ground (arith, ew, inside)) (ground (arith, ej, same))
                (λ _. joined ∙ ground (arith, same))
          | inr other ↦ elim (Bool-cases (has t us)) [
            | inl inside ↦
                left-Fair (h t) _ w j w' j' fair (ground (arith, le, inside))
                  (ground (arith, ew, inside)) (ground (arith, ej, other))
                  (joined ∙ ground (arith, other))
            | inr outside ↦
                same-Fair (h t) _ w j w' j' fair (ground (arith, ew, outside))
                  (ground (arith, ej, other)) (joined ∙ ground (arith, other))
                  (toggle_all-outside us g t outside ∙ ground (arith, other))
          ]
        ]

-- A call that finds its threads free marks them.
mark_multiple-Keeps :
    (t : Ptr) (us : List Ptr) (h : Ptr → Flags)
    → some_taken us h ≡ false
    → Keeps t h (calls_multiple us) (mark_all us h) (waits_multiple us)
mark_multiple-Keeps t us h free w j w' j' ew ej le fair =
    let joined = mark_all-joined us h t in
    elim (Bool-cases (has t us)) [
      | inl inside ↦
          let (unmarked, unjoined) = some_taken-free us h t free inside in
          begun-Fair (h t) _ w j w' j' fair unmarked unjoined (ground (arith, ew, inside))
            (ground (arith, ej)) (joined ∙ unjoined) (mark_all-inside us h t inside)
      | inr outside ↦
          same-Fair (h t) _ w j w' j' fair (ground (arith, ew, outside)) (ground (arith, ej)) joined
            (mark_all-outside us h t outside)
    ]

-- A call that gives up.
refused-Keeps :
    (t : Ptr) (h : Ptr → Flags) (p : Pc) (c : ℤ)
    → waits_for t p ≡ 0
    → won t p ≡ 0
    → Keeps t h p h (ended (answers c))
refused-Keeps t h p c no_wait no_win w j w' j' ew ej le fair =
    same-Fair (h t) (h t) w j w' j' fair (omega (arith, ew, no_wait)) (omega (arith, ej, no_win))
      refl refl

-- A section that begins at `p`, of a call that then waits at `w`, if it waits; or it cannot begin.
abbrev SectionKeeps : (t : Ptr) (h : Ptr → Flags) (p w : Pc) → Option (Progress × Joining) → Type 0
SectionKeeps t h p w none = Unit {0}
SectionKeeps t h p w (some r) = Keeps t h p r.1.handle1 (after w r.0)

module _ (t : Ptr) (s : Joining) where
  enters_single-Keeps :
      (u : Ptr)
      → SectionKeeps t s.handle1 (calls_single u) (waits_single u) (thread_join_single u s)
  unfolding thread_join_single
  enters_single-Keeps u = elim (Bool-cases s.locked) [
    | inl held ↦ rw held tt
    | inr free ↦ rw free elim (Bool-cases ((s.handle1 u).marked || (s.handle1 u).joined)) [
      | inl taken ↦ rw taken (refused-Keeps t s.handle1 (calls_single u) general_error refl refl)
      | inr new ↦
          let f : Flags = s.handle1 u in
          let marked : Ptr → Flags = update s.handle1 u (record f { marked = true }) in
          rw new (
            Keeps-after t s.handle1 marked (join_single_rest u marked).1.handle1 (calls_single u)
              (waits_single u) _ refl refl
              (mark_single-Keeps t u s.handle1 (ground (arith, new)) (ground (arith, new)))
              (rest_single-Keeps t u marked))
    ]
  ]

  wakes_single-Keeps :
      (u : Ptr) → SectionKeeps t s.handle1 (waits_single u) (waits_single u) (join_single_woken u s)
  unfolding join_single_woken
  wakes_single-Keeps u = elim (Bool-cases s.locked) [
    | inl held ↦ rw held tt
    | inr free ↦ rw free (rest_single-Keeps t u s.handle1)
  ]

  enters_multiple-Keeps :
      (us : List Ptr)
      → SectionKeeps t s.handle1 (calls_multiple us) (waits_multiple us) (thread_join_multiple us s)
  unfolding thread_join_multiple
  enters_multiple-Keeps us = elim (Bool-cases s.locked) [
    | inl held ↦ rw held tt
    | inr free ↦ rw free elim (Bool-cases (some_taken us s.handle1)) [
      | inl taken ↦ rw taken (refused-Keeps t s.handle1 (calls_multiple us) general_error refl refl)
      | inr new ↦ rw new (
          Keeps-after t s.handle1 (mark_all us s.handle1)
            (join_multiple_rest us (mark_all us s.handle1)).1.handle1 (calls_multiple us)
            (waits_multiple us) _ refl refl (mark_multiple-Keeps t us s.handle1 new)
            (rest_multiple-Keeps t us (mark_all us s.handle1)))
    ]
  ]

  wakes_multiple-Keeps :
      (us : List Ptr)
      → SectionKeeps t s.handle1 (waits_multiple us) (waits_multiple us) (join_multiple_woken us s)
  unfolding join_multiple_woken
  wakes_multiple-Keeps us = elim (Bool-cases s.locked) [
    | inl held ↦ rw held tt
    | inr free ↦ rw free (rest_multiple-Keeps t us s.handle1)
  ]

  pub Move-Keeps : (m : Joining) (p q : Pc) → Move s p m q → Keeps t s.handle1 p m.handle1 q
  Move-Keeps m p q (enters_single {t = u} e) =
      subst (SectionKeeps t s.handle1 (calls_single u) (waits_single u)) e (enters_single-Keeps u)
  Move-Keeps m p q (wakes_single {t = u} e) =
      subst (SectionKeeps t s.handle1 (waits_single u) (waits_single u)) e (wakes_single-Keeps u)
  Move-Keeps m p q (enters_multiple {ts = us} e) =
      subst (SectionKeeps t s.handle1 (calls_multiple us) (waits_multiple us)) e
        (enters_multiple-Keeps us)
  Move-Keeps m p q (wakes_multiple {ts = us} e) =
      subst (SectionKeeps t s.handle1 (waits_multiple us) (waits_multiple us)) e
        (wakes_multiple-Keeps us)
