-- ===== src/Threads/Writers/Safety.antt =====
-- Writers and the growing thread keep apart, and do not wait for each other for ever.
use opendylan.Prelude.{
  ℕ, ◌+◌, ◌≤◌, ◌<◌, ◌≡◌, ◌≢◌, ◌⊎◌, refl, sym, subst, ◌∙◌, arith, Bool-cases, inl, inr,
  if◌then◌else◌, ◌==◌,
}
use opendylan.Prelude.Int.{ℤ, pos, -ℤ_parts}
use native.Mathlib.Decide.{ℕ_discrete}
use opendylan.Prelude.Totals.{total, total-at, total-some, total-bounded, total-sum}
use opendylan.Threads.Writers.{
  Pc, idle, storing, blocked, waiting, waited, retrying, allocating, growing, copying, restoring,
  allocated, Shared, Move, undoes, locks, unlocks, retries, has_room, first_cas, copies, second_cas,
  leaves_allocate, System, Reach, atomic_decrement, atomic_cas, after_increment, after_decrement,
  after_first_cas, after_second_cas, tlv_grow,
}
use opendylan.Threads.Writers.Invariant.{stores, blocks, grows, holds, Inv, Reach-Inv}

-- The thread stands where `f` is 1.
at_least :
    (f : Pc → ℕ) (n : ℕ) (pc : ℕ → Pc) (i : ℕ) (p : Pc) → i < n → pc i ≡ p → f p ≤ total f n pc
at_least f n pc i p lt at = rw (sym at) (total-at f n pc i lt)

-- Of fewer than 2000000 threads, in every reachable state: while a thread copies the vectors, no
-- thread is about to store into one.
pub storing-copying :
    (n : ℕ) (s : System) (i j : ℕ)
    → n < 2000000
    → Reach n s
    → i < n
    → j < n
    → s.pc i ≡ copying
    → s.pc j ≢ storing
storing-copying n s i j few run lt_i lt_j at_i at_j =
    let inv = Reach-Inv n few run in
    let grow = at_least grows n s.pc i copying lt_i at_i in
    let store = at_least stores n s.pc j storing lt_j at_j in
    let alone = inv.alone grow in omega (arith, alone, store)

-- Of fewer than 2000000 threads: the decrement of a blocked writer always gives a negative count, so
-- that it waits for the lock.
pub after_decrement-blocked :
    (n : ℕ) (s : System) (i : ℕ)
    → n < 2000000
    → Reach n s
    → i < n
    → s.pc i ≡ blocked
    → after_decrement (atomic_decrement s.shared.tlv_writer_counter) ≡ waiting
unfolding after_decrement atomic_decrement
after_decrement-blocked n s i few run lt at =
    let inv = Reach-Inv n few run in
    let block = at_least blocks n s.pc i blocked lt at in
    let all = total-bounded stores blocks (λ p. ground arith) n s.pc in
    let calm = inv.calm in
    let counted = inv.counted in
    let sum = -ℤ_parts s.shared.tlv_writer_counter (pos 1) in
    ground (arith, calm, counted, sum, block, all, few)

-- A step of thread `j`, inside an operation, that takes it on.
abbrev pub Advances : ℕ → System → ℕ → Type 0
Advances n s j =
    (j < n)
    × (s.pc j ≢ idle)
    × ((m : Shared) × (q : Pc) × Move s.shared (s.pc j) m q × (q ≢ s.pc j))

-- The points where a thread waits for others.
abbrev pub waits : Pc → ℕ
waits idle = 1
waits waiting = 1
waits growing = 1
waits restoring = 1
waits _ = 0

module _ (n : ℕ) (s : System) (j : ℕ) (lt : j < n) where
  abbrev count : ℤ
  count = s.shared.tlv_writer_counter

  advances :
      (p : Pc) {m : Shared} {q : Pc}
      → s.pc j ≡ p
      → p ≢ idle
      → q ≢ p
      → Move s.shared p m q
      → Advances n s j
  advances p {m} {q} at busy on move =
      subst
        (λ (x : Pc).
          (j < n) × (x ≢ idle) × ((m : Shared) × (q : Pc) × Move s.shared x m q × (q ≢ x)))
        (sym at) (lt, busy, (m, q, move, on))

  -- Everywhere else a thread can go on at once.
  goes_on : (p : Pc) → s.pc j ≡ p → waits p ≡ 0 → Advances n s j
  unfolding after_increment after_decrement
  goes_on idle at w = absurd (omega (arith, w))
  goes_on storing at w = advances storing at (ground arith) (ground arith) Move.stores
  goes_on blocked at w = advances blocked at (ground arith) (ground arith) undoes
  goes_on waiting at w = absurd (omega (arith, w))
  goes_on waited at w = advances waited at (ground arith) (ground arith) unlocks
  goes_on retrying at w = advances retrying at (ground arith) (ground arith) retries
  goes_on allocating at w = advances allocating at (ground arith) (ground arith) has_room
  goes_on growing at w = absurd (omega (arith, w))
  goes_on copying at w = advances copying at (ground arith) (ground arith) copies
  goes_on restoring at w = absurd (omega (arith, w))
  goes_on allocated at w = advances allocated at (ground arith) (ground arith) leaves_allocate

  -- With no writer between its increment and its decrement, the exchanges succeed.
  grower_goes_on :
      (p : Pc)
      → s.pc j ≡ p
      → (p ≡ growing) ⊎ (p ≡ restoring)
      → count ≡ (if grows p == 1 then tlv_grow else pos 0)
      → Advances n s j
  unfolding atomic_cas after_first_cas after_second_cas
  grower_goes_on p at (inl is) calm =
      let zero_count : count ≡ pos 0 = ground (arith, calm, is) in
      let succeeds : after_first_cas (atomic_cas count tlv_grow (pos 0)).0 ≢ growing =
        rw zero_count (ground arith) in
      advances growing (at ∙ is) (ground arith) succeeds first_cas
  grower_goes_on p at (inr is) calm =
      let grow_count : count ≡ tlv_grow = ground (arith, calm, is) in
      let succeeds : after_second_cas (atomic_cas count (pos 0) tlv_grow).0 ≢ restoring =
        rw grow_count (ground arith) in
      advances restoring (at ∙ is) (ground arith) succeeds second_cas

-- The lock without TLV_GROW.
abbrev pub grasps : Pc → ℕ
grasps waited = 1
grasps allocating = 1
grasps growing = 1
grasps allocated = 1
grasps _ = 0

module _ (n : ℕ) (few : n < 2000000) (s : System) (run : Reach n s) where
  inv : Inv n s
  inv = Reach-Inv n few run

  parts : total grows n s.pc + total grasps n s.pc ≤ total holds n s.pc
  parts = total-sum grows grasps holds (λ p. ground arith) n s.pc

  one_holder : total holds n s.pc ≤ 1
  one_holder = let held = inv.held in ground (arith, held)

  -- A thread that grows the vectors, or is about to, goes on or waits for a writer that does.
  grower-Advances :
      (j : ℕ) (p : Pc)
      → j < n
      → s.pc j ≡ p
      → (p ≡ growing) ⊎ (p ≡ restoring)
      → (k : ℕ) × Advances n s k
  grower-Advances j p lt at is = elim (ℕ_discrete (total stores n s.pc) 0) [
    | no ne ↦
        let (k, lt_k, some_store) = total-some stores n s.pc ne in
        (k, goes_on n s k lt_k (s.pc k) refl (ground (arith, some_store)))
    | yes no_stores ↦ elim (ℕ_discrete (total blocks n s.pc) 0) [
      | no ne ↦
          let (k, lt_k, some_block) = total-some blocks n s.pc ne in
          (k, goes_on n s k lt_k (s.pc k) refl (ground (arith, some_block)))
      | yes no_blocks ↦ (j, grower_goes_on n s j lt p at is (calm_count no_stores no_blocks))
    ]
  ]
    where
      calm_count :
          total stores n s.pc ≡ 0
          → total blocks n s.pc ≡ 0
          → s.shared.tlv_writer_counter ≡ (if grows p == 1 then tlv_grow else pos 0)
      calm_count no_stores no_blocks =
          let counted = inv.counted in
          let grow = at_least grows n s.pc j p lt at in
          let grasp = at_least grasps n s.pc j p lt at in
          ground (arith, counted, grow, grasp, is, no_stores, no_blocks, parts, one_holder)

  holder-Advances : (j : ℕ) (p : Pc) → j < n → s.pc j ≡ p → holds p ≢ 0 → (k : ℕ) × Advances n s k
  holder-Advances j growing lt at h = grower-Advances j growing lt at (inl refl)
  holder-Advances j restoring lt at h = grower-Advances j restoring lt at (inr refl)
  holder-Advances j waited lt at h = (j, goes_on n s j lt waited at refl)
  holder-Advances j allocating lt at h = (j, goes_on n s j lt allocating at refl)
  holder-Advances j copying lt at h = (j, goes_on n s j lt copying at refl)
  holder-Advances j allocated lt at h = (j, goes_on n s j lt allocated at refl)
  holder-Advances j idle lt at h = absurd (h refl)
  holder-Advances j storing lt at h = absurd (h refl)
  holder-Advances j blocked lt at h = absurd (h refl)
  holder-Advances j waiting lt at h = absurd (h refl)
  holder-Advances j retrying lt at h = absurd (h refl)

  waiting-Advances : (i : ℕ) → i < n → s.pc i ≡ waiting → (k : ℕ) × Advances n s k
  waiting-Advances i lt at = elim (Bool-cases s.shared.locked) [
    | inr free ↦ (i, advances n s i lt waiting at (ground arith) (ground arith) (locks free))
    | inl taken ↦
        let held = inv.held in
        let (j, lt_j, holder) = total-some holds n s.pc (ground (arith, held, taken)) in
        holder-Advances j (s.pc j) lt_j refl holder
  ]

-- Of fewer than 2000000 threads, in every reachable state in which some thread is inside
-- primitive_write_thread_variable or primitive_allocate_thread_variable: some thread inside one of
-- them can make a step that takes it on.
pub Reach-Advances :
    (n : ℕ) (s : System) (i : ℕ)
    → n < 2000000
    → Reach n s
    → i < n
    → s.pc i ≢ idle
    → (j : ℕ) × Advances n s j
Reach-Advances n s i few run lt busy = go (s.pc i) refl
  where
    go : (p : Pc) → s.pc i ≡ p → (j : ℕ) × Advances n s j
    go idle at = absurd (busy at)
    go waiting at = waiting-Advances n few s run i lt at
    go growing at = grower-Advances n few s run i growing lt at (inl refl)
    go restoring at = grower-Advances n few s run i restoring lt at (inr refl)
    go storing at = (i, goes_on n s i lt storing at refl)
    go blocked at = (i, goes_on n s i lt blocked at refl)
    go waited at = (i, goes_on n s i lt waited at refl)
    go retrying at = (i, goes_on n s i lt retrying at refl)
    go allocating at = (i, goes_on n s i lt allocating at refl)
    go copying at = (i, goes_on n s i lt copying at refl)
    go allocated at = (i, goes_on n s i lt allocated at refl)
