-- ===== src/Threads/Writers/Invariant.antt =====
-- What tlv_writer_counter counts, in every reachable state.
use opendylan.Prelude.{
  ℕ, zero, suc, ◌+◌, ◌*◌, ◌≤◌, ◌<◌, ◌≡◌, refl, sym, arith, Bool, true, false, cond, if◌then◌else◌,
}
use opendylan.Prelude.Int.{ℤ, pos, pos_part, neg_part, ltb_ℤ, +ℤ_parts, -ℤ_parts}
use opendylan.Prelude.Store.{update}
use opendylan.Prelude.Totals.{total, total-update, total-at, total-le, total-bounded}
use opendylan.Threads.Writers.{
  Pc, idle, storing, blocked, waiting, waited, retrying, allocating, growing, copying, restoring,
  allocated, Shared, Move, enters_write, undoes, locks, unlocks, retries, enters_allocate, has_room,
  has_no_room, first_cas, copies, second_cas, leaves_allocate, moves, started, later, System, Reach,
  atomic_increment, atomic_decrement, atomic_cas, eqb_ℤ, tlv_grow, after_increment, after_decrement,
  after_first_cas, after_second_cas,
}

-- The writers that have incremented the count, and may store or not.
abbrev pub stores : Pc → ℕ
stores storing = 1
stores _ = 0

abbrev pub blocks : Pc → ℕ
blocks blocked = 1
blocks _ = 0

-- The thread that has stored TLV_GROW, and the one that has the lock.
abbrev pub grows : Pc → ℕ
grows copying = 1
grows restoring = 1
grows _ = 0

abbrev pub holds : Pc → ℕ
holds waited = 1
holds allocating = 1
holds growing = 1
holds copying = 1
holds restoring = 1
holds allocated = 1
holds _ = 0

-- The sums of these measures, and what holds of them in all reachable states: the count is that of
-- the writers that have incremented it, and TLV_GROW while a thread grows the vectors.
pub record Counts (count : ℤ) (locked : Bool) (st bl gr ho : ℕ) : Type 0 where
  pub counted : pos_part count + 2000000 * gr ≡ neg_part count + (st + bl)
  pub held : ho ≡ cond locked 1 0
  pub calm : gr ≡ 0 → bl ≡ 0
  pub alone : 1 ≤ gr → st ≡ 0

abbrev pub Inv : ℕ → System → Type 0
Inv n s =
    Counts s.shared.tlv_writer_counter s.shared.locked (total stores n s.pc) (total blocks n s.pc)
      (total grows n s.pc) (total holds n s.pc)

grows-holds : (p : Pc) → grows p ≤ holds p
grows-holds p = ground arith

pending-one : (p : Pc) → stores p + blocks p ≤ 1
pending-one p = ground arith

-- One thread's move from `p` to `q`, between sums.
pub record Moved (p q : Pc) (st bl gr ho st' bl' gr' ho' : ℕ) : Type 0 where
  pub stored : st' + stores p ≡ st + stores q
  pub blocked_writers : bl' + blocks p ≡ bl + blocks q
  pub grown : gr' + grows p ≡ gr + grows q
  pub held : ho' + holds p ≡ ho + holds q

module _ (c : ℤ) (l : Bool) (st bl gr ho st' bl' gr' ho' : ℕ) (is : Counts c l st bl gr ho)
    (part : gr ≤ ho) (few : st' + bl' < 2000000) where
  -- An increment: as the count is of fewer than 2000000 writers, it is negative exactly while a
  -- thread grows the vectors.
  increment_keeps :
      (c' : ℤ) (p q : Pc)
      → stores p ≡ 0
      → blocks p ≡ 0
      → grows p ≡ 0
      → holds p ≡ 0
      → pos_part c' + neg_part c ≡ neg_part c' + pos_part c + 1
      → q ≡ (if ltb_ℤ c' (pos 0) then blocked else storing)
      → Moved p q st bl gr ho st' bl' gr' ho'
      → Counts c' l st' bl' gr' ho'
  increment_keeps c' p q sp bp gp hp sum at moved = record {
    counted = ground arith;
    held = ground arith;
    calm = ground arith;
    alone = ground arith;
  }

  -- A decrement by a writer that has stored.
  store_keeps :
      (c' : ℤ)
      → pos_part c' + neg_part c + 1 ≡ neg_part c' + pos_part c
      → Moved storing idle st bl gr ho st' bl' gr' ho'
      → Counts c' l st' bl' gr' ho'
  store_keeps c' sum moved = record {
    counted = ground arith;
    held = ground arith;
    calm = ground arith;
    alone = ground arith;
  }

  -- A decrement by a writer that may not store.
  undo_keeps :
      (c' : ℤ) (q : Pc)
      → pos_part c' + neg_part c + 1 ≡ neg_part c' + pos_part c
      → q ≡ (if ltb_ℤ c' (pos 0) then waiting else retrying)
      → Moved blocked q st bl gr ho st' bl' gr' ho'
      → Counts c' l st' bl' gr' ho'
  undo_keeps c' q sum at moved = record {
    counted = ground arith;
    held = ground arith;
    calm = ground arith;
    alone = ground arith;
  }

  -- The exchange that stores TLV_GROW, which needs a count of 0.
  first_cas_keeps :
      (c' : ℤ) (q : Pc)
      → c' ≡ (if eqb_ℤ c (pos 0) then tlv_grow else c)
      → q ≡ (if eqb_ℤ c (pos 0) then copying else growing)
      → Moved growing q st bl gr ho st' bl' gr' ho'
      → Counts c' l st' bl' gr' ho'
  first_cas_keeps c' q stored at moved = record {
    counted = ground arith;
    held = ground arith;
    calm = ground arith;
    alone = ground arith;
  }

  -- The exchange that stores 0, which needs the count TLV_GROW.
  second_cas_keeps :
      (c' : ℤ) (q : Pc)
      → c' ≡ (if eqb_ℤ c tlv_grow then pos 0 else c)
      → q ≡ (if eqb_ℤ c tlv_grow then allocated else restoring)
      → Moved restoring q st bl gr ho st' bl' gr' ho'
      → Counts c' l st' bl' gr' ho'
  second_cas_keeps c' q stored at moved = record {
    counted = ground arith;
    held = ground arith;
    calm = ground arith;
    alone = ground arith;
  }

  -- A move that leaves the count, and has the lock afterwards where `l'` says so.
  other_keeps :
      (l' : Bool) (p q : Pc)
      → stores q ≡ stores p
      → blocks q ≡ blocks p
      → grows q ≡ grows p
      → cond l' 1 0 + holds p ≡ cond l 1 0 + holds q
      → Moved p q st bl gr ho st' bl' gr' ho'
      → Counts c l' st' bl' gr' ho'
  other_keeps l' p q sp bp gp lock moved = record {
    counted = ground arith;
    held = ground arith;
    calm = ground arith;
    alone = ground arith;
  }

module _ (n : ℕ) (few : n < 2000000) (s : System) (inv : Inv n s) (i : ℕ) (lt : i < n) where
  abbrev pc_to : Pc → ℕ → Pc
  pc_to q = update s.pc i q

  Moved-to :
      (p q : Pc)
      → s.pc i ≡ p
      → Moved p q
          (total stores n s.pc)
          (total blocks n s.pc)
          (total grows n s.pc)
          (total holds n s.pc)
          (total stores n (pc_to q))
          (total blocks n (pc_to q))
          (total grows n (pc_to q))
          (total holds n (pc_to q))
  Moved-to p q at = record {
    stored = rw (sym at) (total-update stores n s.pc i q lt);
    blocked_writers = rw (sym at) (total-update blocks n s.pc i q lt);
    grown = rw (sym at) (total-update grows n s.pc i q lt);
    held = rw (sym at) (total-update holds n s.pc i q lt);
  }

  part_now : total grows n s.pc ≤ total holds n s.pc
  part_now = total-le grows holds grows-holds n s.pc

  few_then : (q : Pc) → total stores n (pc_to q) + total blocks n (pc_to q) < 2000000
  few_then q =
      let all = total-bounded stores blocks pending-one n (pc_to q) in omega (arith, all, few)

  abbrev count : ℤ
  count = s.shared.tlv_writer_counter

  incremented :
      pos_part (atomic_increment count) + neg_part count
      ≡ neg_part (atomic_increment count) + pos_part count + 1
  unfolding atomic_increment
  incremented = let sum = +ℤ_parts count (pos 1) in omega (arith, sum)

  decremented :
      pos_part (atomic_decrement count) + neg_part count + 1
      ≡ neg_part (atomic_decrement count) + pos_part count
  unfolding atomic_decrement
  decremented = let sum = -ℤ_parts count (pos 1) in omega (arith, sum)

  holding : (p : Pc) → s.pc i ≡ p → holds p ≡ 1 → cond {A = ℕ} s.shared.locked 1 0 ≡ 1
  holding p at one =
      let some_holder : holds p ≤ total holds n s.pc = rw (sym at) (total-at holds n s.pc i lt) in
      let held = inv.held in ground (arith, some_holder, held, one)

  Inv-move :
      (p : Pc) {m : Shared} {q : Pc}
      → s.pc i ≡ p
      → Move s.shared p m q
      → Inv n (record { shared = m; pc = pc_to q })
  unfolding atomic_cas after_increment after_decrement after_first_cas after_second_cas
  Inv-move idle {q = q} at enters_write =
      increment_keeps _ _ _ _ _ _ _ _ _ _ inv part_now (few_then q) _ idle q refl refl refl refl
        incremented refl (Moved-to idle q at)
  Inv-move storing at Move.stores =
      store_keeps _ _ _ _ _ _ _ _ _ _ inv part_now (few_then idle) _ decremented
        (Moved-to storing idle at)
  Inv-move blocked {q = q} at undoes =
      undo_keeps _ _ _ _ _ _ _ _ _ _ inv part_now (few_then q) _ q decremented refl
        (Moved-to blocked q at)
  Inv-move retrying {q = q} at retries =
      increment_keeps _ _ _ _ _ _ _ _ _ _ inv part_now (few_then q) _ retrying q refl refl refl refl
        incremented refl (Moved-to retrying q at)
  Inv-move growing {q = q} at first_cas =
      first_cas_keeps _ _ _ _ _ _ _ _ _ _ inv part_now (few_then q) _ q refl refl
        (Moved-to growing q at)
  Inv-move restoring {q = q} at second_cas =
      second_cas_keeps _ _ _ _ _ _ _ _ _ _ inv part_now (few_then q) _ q refl refl
        (Moved-to restoring q at)
  Inv-move waiting at (locks free) =
      other_keeps _ _ _ _ _ _ _ _ _ _ inv part_now (few_then waited) true waiting waited refl refl
        refl (rw free refl) (Moved-to waiting waited at)
  Inv-move waited at unlocks =
      other_keeps _ _ _ _ _ _ _ _ _ _ inv part_now (few_then retrying) false waited retrying refl
        refl refl (rw (holding waited at refl) refl) (Moved-to waited retrying at)
  Inv-move idle at (enters_allocate free) =
      other_keeps _ _ _ _ _ _ _ _ _ _ inv part_now (few_then allocating) true idle allocating refl
        refl refl (rw free refl) (Moved-to idle allocating at)
  Inv-move allocating at has_room =
      other_keeps _ _ _ _ _ _ _ _ _ _ inv part_now (few_then allocated) s.shared.locked allocating
        allocated refl refl refl refl (Moved-to allocating allocated at)
  Inv-move allocating at has_no_room =
      other_keeps _ _ _ _ _ _ _ _ _ _ inv part_now (few_then growing) s.shared.locked allocating
        growing refl refl refl refl (Moved-to allocating growing at)
  Inv-move copying at copies =
      other_keeps _ _ _ _ _ _ _ _ _ _ inv part_now (few_then restoring) s.shared.locked copying
        restoring refl refl refl refl (Moved-to copying restoring at)
  Inv-move allocated at leaves_allocate =
      other_keeps _ _ _ _ _ _ _ _ _ _ inv part_now (few_then idle) false allocated idle refl refl
        refl (rw (holding allocated at refl) refl) (Moved-to allocated idle at)

total-start : (n : ℕ) (f : Pc → ℕ) → f idle ≡ 0 → total f n (λ _. idle) ≡ 0
total-start zero f idle_0 = refl
total-start (suc n) f idle_0 = rw (idle_0, total-start n f idle_0)

-- Of fewer than 2000000 threads.
pub Reach-Inv : (n : ℕ) → n < 2000000 → {s : System} → Reach n s → Inv n s
Reach-Inv n few started = record {
  counted =
      rw (total-start n stores refl, total-start n blocks refl, total-start n grows refl) refl;
  held = total-start n holds refl;
  calm = λ _. total-start n blocks refl;
  alone = λ _. total-start n stores refl;
}
Reach-Inv n few (later {s = r} run (moves i lt move)) =
    Inv-move n few r (Reach-Inv n few run) i lt (r.pc i) refl move
