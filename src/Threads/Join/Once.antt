-- ===== src/Threads/Join/Once.antt =====
-- A thread is joined at most once, by whichever calls.
use opendylan.Prelude.{
  ℕ, zero, suc, ◌<◌, ◌≡◌, refl, sym, ◌∙◌, arith, true, some, inl, inr, Bool-cases,
}
use native.Mathlib.Decide.{ℕ_discrete}
use mathlib.Core.Option.{some-injective}
use opendylan.Prelude.Store.{Ptr, update}
use opendylan.Prelude.Totals.{total, total-update, total-at, total-two}
use opendylan.Threads.Join.{
  Flags, Joining, joins, complete, Pc, calls_single, calls_multiple, waits_single, waits_multiple,
  ended, System, moves, completes, IsCall, IsStart, Reach, started, later,
}
use opendylan.Threads.Join.Fair.{waits_for, won, Inv, same-Fair}
use opendylan.Threads.Join.Sections.{Move-Keeps}

complete-Inv :
    (n : ℕ) (s : System) (u : Ptr) (m : Joining)
    → complete u s.joining ≡ some m
    → Inv n s
    → Inv n (record s { joining = m })
unfolding complete
complete-Inv n s u m e inv t = elim (Bool-cases s.joining.locked) [
  | inl held ↦ absurd (ground (arith, e, held))
  | inr free ↦
      let f : Flags = s.joining.handle1 u in
      let h : Ptr → Flags = update s.joining.handle1 u (record f { completed = true }) in
      let known : complete u s.joining ≡ some (record s.joining { handle1 = h }) = rw free refl in
      let now : m ≡ record s.joining { handle1 = h } = some-injective _ _ (sym e ∙ known) in
      rw now (same-Fair _ _ _ _ _ _ (inv t) refl refl (ground arith) (ground arith))
]

-- Sums over calls that have not entered.
total-outside :
    (f : Pc → ℕ) (n : ℕ) (pc : ℕ → Pc) → ((i : ℕ) → i < n → f (pc i) ≡ 0) → total f n pc ≡ 0
total-outside f zero pc all = refl
total-outside f (suc n) pc all =
    let here = all n (omega arith) in
    let rest = total-outside f n pc (λ i lt. all i (omega arith)) in omega (arith, here, rest)

outside-0 : (t : Ptr) (p : Pc) → IsCall p → (waits_for t p ≡ 0) × (won t p ≡ 0)
outside-0 t (calls_single u) call = (refl, refl)
outside-0 t (calls_multiple us) call = (refl, refl)
outside-0 t (waits_single u) call = absurd call
outside-0 t (waits_multiple us) call = absurd call
outside-0 t (ended p) call = absurd call

module _ (n : ℕ) (start : System) (is : IsStart n start) where
  Reach-Inv : (s : System) → Reach n start s → Inv n s
  Reach-Inv s started t =
      let w =
        total-outside (waits_for t) n start.pc
          (λ i lt. (outside-0 t (start.pc i) (is.outside i lt)).0) in
      let j =
        total-outside (won t) n start.pc (λ i lt. (outside-0 t (start.pc i) (is.outside i lt)).1) in
      let unjoined = is.unjoined t in
      record {
        once = rw (j, unjoined) refl;
        one_call = omega (arith, w, j);
        marked = λ some_call. absurd (omega (arith, w, some_call));
      }
  Reach-Inv s (later {s = r} run (completes u e)) t = complete-Inv n r u _ e (Reach-Inv r run) t
  Reach-Inv s (later {s = r} run (moves i {m = m} {p = p} lt move)) t =
      Move-Keeps t r.joining m (r.pc i) p move _ _ _ _ (total-update (waits_for t) n r.pc i p lt)
        (total-update (won t) n r.pc i p lt) (total-at (waits_for t) n r.pc i lt)
        (Reach-Inv r run t)

  -- Calls of primitive_thread_join_single and primitive_thread_join_multiple in any order, with threads
  -- that end in between, from a state in which no thread is marked or joined: no two calls
  -- join the same thread, and a thread that a call has joined is flagged so.
  pub Reach-Once :
      (s : System) (t i j : ℕ)
      → Reach n start s
      → i < n
      → j < n
      → s.pc i ≡ ended (joins t)
      → s.pc j ≡ ended (joins t)
      → (i ≡ j) × ((s.joining.handle1 t).joined ≡ true)
  Reach-Once s t i j run lt_i lt_j at_i at_j =
      let fair = Reach-Inv s run t in
      let c = fair.one_call in
      let o = fair.once in
      let won_i : won t (s.pc i) ≡ 1 = rw at_i (ground arith) in
      let won_j : won t (s.pc j) ≡ 1 = rw at_j (ground arith) in
      let one = total-at (won t) n s.pc i lt_i in
      (
        elim (ℕ_discrete i j) [
          | yes same ↦ same
          | no differ ↦
              let two = total-two (won t) n s.pc i j (calls_single t) refl lt_i lt_j differ in
              absurd (omega (arith, two, won_i, won_j, c))
        ],
        ground (arith, o, one, won_i),
      )
