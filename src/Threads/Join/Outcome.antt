-- ===== src/Threads/Join/Outcome.antt =====
-- What primitive_thread_join_multiple leaves: its result, its error, and a thread given twice.
use opendylan.Prelude.{
  ◌≡◌, ◌≢◌, refl, sym, ap, ◌∙◌, arith, has, true, false, not, List, [], ◌∷◌, none, some, inl, inr,
  Bool-cases, ◌==◌, ==_ne, ==_refl, ==_iff,
}
use opendylan.Prelude.Store.{Ptr, update}
use opendylan.Threads.Mutex.{general_error}
use opendylan.Threads.Join.{
  Flags, Joining, answers, joins, thread_join_single, join_single_woken, some_taken, mark_all,
  first_completed, toggle_all, join_multiple_found, join_multiple_rest, thread_join_multiple,
  join_multiple_woken, complete,
}
use opendylan.Threads.Join.Marks.{
  mark_all-joined, mark_all-outside, mark_all-inside, toggle_all-joined, toggle_all-outside,
  some_taken-free,
}

-- No thread stands twice in the vector.
abbrev pub NoneTwice : List Ptr → Type 0
NoneTwice [] = Unit {0}
NoneTwice (t ∷ ts) = (has t ts ≡ false) × NoneTwice ts

toggle_all-inside :
    (ts : List Ptr) (h : Ptr → Flags) (u : Ptr)
    → NoneTwice ts
    → has u ts ≡ true
    → (toggle_all ts h u).marked ≡ not (h u).marked
unfolding toggle_all
toggle_all-inside [] h u single on = absurd (ground (arith, on))
toggle_all-inside (t ∷ ts) h u single on =
    let f : Flags = h t in
    let g : Ptr → Flags = update h t (record f { marked = not f.marked }) in
    elim (Bool-cases (u == t)) [
      | inl same ↦
          let here : u ≡ t = (==_iff u t).0 same in
          let out : has u ts ≡ false = rw here single.0 in
          toggle_all-outside ts g u out ∙ ground (arith, same)
      | inr other ↦
          toggle_all-inside ts g u single.1 (ground (arith, on, other)) ∙ ground (arith, other)
    ]

-- With the lock free, of threads none of which stands twice, is marked or is joined, and one of which
-- has been found completed: primitive_thread_join_multiple returns that thread, which is then
-- joined, and leaves all the others free to be joined, and the lock.
pub thread_join_multiple_lem :
    (ts : List Ptr) (s : Joining) (t : Ptr)
    → s.locked ≡ false
    → NoneTwice ts
    → some_taken ts s.handle1 ≡ false
    → first_completed ts (mark_all ts s.handle1) ≡ some t
    → (k : Joining) × (thread_join_multiple ts s ≡ some (joins t, k))
      × (k.locked ≡ false)
      × ((k.handle1 t).joined ≡ true)
      × ((u : Ptr) → u ≢ t → (k.handle1 u).joined ≡ (s.handle1 u).joined)
      × ((u : Ptr) → (k.handle1 u).marked ≡ (s.handle1 u).marked)
unfolding thread_join_multiple join_multiple_rest join_multiple_found
thread_join_multiple_lem ts s t unlocked single free found =
    let h : Ptr → Flags = mark_all ts s.handle1 in
    let f : Flags = h t in
    let g : Ptr → Flags = update h t (record f { joined = true }) in
    let kept : (u : Ptr) → (g u).marked ≡ (h u).marked = λ u. ground arith in
    (
      record { handle1 = toggle_all ts g; locked = false },
      rw (unlocked, free, found) refl,
      refl,
      toggle_all-joined ts g t ∙ rw (==_refl t) refl,
      (λ u other. toggle_all-joined ts g u ∙ rw (==_ne u t other) (mark_all-joined ts s.handle1 u)),
      (λ u. elim (Bool-cases (has u ts)) [
        | inl inside ↦
            toggle_all-inside ts g u single inside
            ∙ ap not (kept u ∙ mark_all-inside ts s.handle1 u inside)
            ∙ sym (some_taken-free ts s.handle1 u free inside).0
        | inr outside ↦
            toggle_all-outside ts g u outside ∙ kept u ∙ mark_all-outside ts s.handle1 u outside
      ]),
    )

-- With the lock free, of threads one of which is marked or joined: primitive_thread_join_multiple
-- answers the error with thread_join_lock held. After that no thread can complete, and no call of
-- the two primitives gets on.
pub thread_join_multiple-held :
    (ts : List Ptr) (s : Joining)
    → s.locked ≡ false
    → some_taken ts s.handle1 ≡ true
    → (k : Joining) × (thread_join_multiple ts s ≡ some (answers general_error, k))
      × ((t : Ptr)
          → (complete t k ≡ none)
            × (thread_join_single t k ≡ none)
            × (join_single_woken t k ≡ none))
      × ((us : List Ptr) → (thread_join_multiple us k ≡ none) × (join_multiple_woken us k ≡ none))
unfolding thread_join_multiple thread_join_single join_single_woken join_multiple_woken complete
thread_join_multiple-held ts s unlocked taken = (
  record s { locked = true },
  rw (unlocked, taken) refl,
  (λ t. (refl, refl, refl)),
  (λ us. (refl, refl)),
)

-- Of a thread given twice, and another one that has completed, with the lock free and both free to be
-- joined: primitive_thread_join_multiple returns the one that has completed, and the other can
-- never be joined, since it stays marked.
pub thread_join_single-twice :
    (s : Joining) (t u : Ptr)
    → s.locked ≡ false
    → some_taken (t ∷ u ∷ []) s.handle1 ≡ false
    → (s.handle1 t).completed ≡ false
    → (s.handle1 u).completed ≡ true
    → (k : Joining) × (thread_join_multiple (t ∷ t ∷ u ∷ []) s ≡ some (joins u, k))
      × (thread_join_single t k ≡ some (answers general_error, k))
unfolding thread_join_multiple join_multiple_rest join_multiple_found thread_join_single some_taken
    mark_all first_completed toggle_all
thread_join_single-twice s t u unlocked free running done =
    let ne : t ≢ u = λ same.
      let both : true ≡ false = sym done ∙ ap (λ x. (s.handle1 x).completed) (sym same) ∙ running in
      absurd (ground (arith, both)) in
    let ts : List Ptr = t ∷ t ∷ u ∷ [] in
    let h : Ptr → Flags = mark_all ts s.handle1 in
    let f : Flags = h u in
    let g : Ptr → Flags = update h u (record f { joined = true }) in
    let all_free : some_taken ts s.handle1 ≡ false = ground (arith, free) in
    let found : first_completed ts h ≡ some u = ground (arith, ne, running, done) in
    let marked : (toggle_all ts g t).marked ≡ true = ground (arith, ne) in
    (
      record { handle1 = toggle_all ts g; locked = false },
      rw (unlocked, all_free, found) refl,
      rw marked refl,
    )
