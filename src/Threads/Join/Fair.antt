-- ===== src/Threads/Join/Fair.antt =====
-- What the flags of a thread say of the calls that join it, and sections that keep it.
use opendylan.Prelude.{ℕ, ◌+◌, ◌-◌, ◌≤◌, ◌≡◌, arith, has, true, false, cond, ◌==◌}
use opendylan.Prelude.Store.{Ptr}
use opendylan.Prelude.Totals.{total}
use opendylan.Threads.Join.{Flags, joins, Pc, waits_single, waits_multiple, ended, System}

-- Whether a call waits for thread `t`, and whether it has joined it.
abbrev pub waits_for : Ptr → Pc → ℕ
waits_for t (waits_single u) = cond (t == u) 1 0
waits_for t (waits_multiple us) = cond (has t us) 1 0
waits_for t _ = 0

abbrev pub won : Ptr → Pc → ℕ
won t (ended (joins u)) = cond (t == u) 1 0
won t _ = 0

-- What the flags of a thread say of the numbers of calls that wait for it and have joined it.
pub record Fair (f : Flags) (w j : ℕ) : Type 0 where
  pub once : j ≡ cond f.joined 1 0
  pub one_call : w + j ≤ 1
  pub marked : 1 ≤ w → f.marked ≡ true

abbrev pub Inv : ℕ → System → Type 0
Inv n s = (t : Ptr) → Fair (s.joining.handle1 t) (total (waits_for t) n s.pc) (total (won t) n s.pc)

-- A section of a call at `p` keeps what the flags say of thread `t`, if the call's own part changes
-- by as much.
abbrev pub Keeps : (t : Ptr) → (Ptr → Flags) → Pc → (Ptr → Flags) → Pc → Type 0
Keeps t h p h' p' =
    (w j w' j' : ℕ)
    → w' + waits_for t p ≡ w + waits_for t p'
    → j' + won t p ≡ j + won t p'
    → waits_for t p ≤ w
    → Fair (h t) w j
    → Fair (h' t) w' j'

-- The call that joins a thread is the one that waits for it, so the thread was not joined before.
pub won-Fair :
    (f g : Flags) (w j w' j' : ℕ)
    → Fair f w j
    → 1 ≤ w
    → w' + 1 ≡ w
    → j' ≡ j + 1
    → (f.joined ≡ false → g.joined ≡ true)
    → Fair g w' j'
won-Fair f g w j w' j' fair le ew ej win =
    let o = fair.once in
    let c = fair.one_call in
    record {
      once = ground (arith, o, c, le, ej, win);
      one_call = omega (arith, c, ew, ej);
      marked = λ more. absurd (omega (arith, c, ew, more));
    }

-- A call that has waited for the thread goes on without it.
pub left-Fair :
    (f g : Flags) (w j w' j' : ℕ)
    → Fair f w j
    → 1 ≤ w
    → w' + 1 ≡ w
    → j' ≡ j
    → g.joined ≡ f.joined
    → Fair g w' j'
left-Fair f g w j w' j' fair le ew ej sj =
    let o = fair.once in
    let c = fair.one_call in
    record {
      once = rw (sj, ej) o;
      one_call = omega (arith, c, ew, ej);
      marked = λ more. absurd (omega (arith, c, ew, more));
    }

-- Nothing is known to change.
pub same-Fair :
    (f g : Flags) (w j w' j' : ℕ)
    → Fair f w j
    → w' ≡ w
    → j' ≡ j
    → g.joined ≡ f.joined
    → g.marked ≡ f.marked
    → Fair g w' j'
same-Fair f g w j w' j' fair ew ej sj sm =
    let o = fair.once in
    let c = fair.one_call in
    let m = fair.marked in
    record {
      once = rw (sj, ej) o;
      one_call = omega (arith, c, ew, ej);
      marked = λ one. rw sm (m (omega (arith, one, ew)));
    }

-- A call begins to wait for a thread that no call waits for and that is not joined.
pub begun-Fair :
    (f g : Flags) (w j w' j' : ℕ)
    → Fair f w j
    → f.marked ≡ false
    → f.joined ≡ false
    → w' ≡ w + 1
    → j' ≡ j
    → g.joined ≡ false
    → g.marked ≡ true
    → Fair g w' j'
begun-Fair f g w j w' j' fair unmarked unjoined ew ej gj gm =
    let o = fair.once in
    let c = fair.one_call in
    let m = fair.marked in
    record {
      once = ground (arith, o, unjoined, gj, ej);
      one_call = ground (arith, o, c, m, unmarked, unjoined, ew, ej);
      marked = λ _. gm;
    }

-- Two sections after each other, with the call waiting in between.
pub Keeps-after :
    (t : Ptr) (h h1 h2 : Ptr → Flags) (p p1 p2 : Pc)
    → won t p ≡ 0
    → won t p1 ≡ 0
    → Keeps t h p h1 p1
    → Keeps t h1 p1 h2 p2
    → Keeps t h p h2 p2
Keeps-after t h h1 h2 p p1 p2 no_win no_win1 first second w j w' j' ew ej le fair =
    let between : ℕ = w + waits_for t p1 - waits_for t p in
    second between j w' j' (omega (arith, ew, le)) (omega (arith, ej, no_win, no_win1))
      (omega (arith, le))
      (first w j between j (omega (arith, le)) (omega (arith, no_win, no_win1)) le fair)
