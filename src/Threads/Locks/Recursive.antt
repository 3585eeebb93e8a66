-- ===== src/Threads/Locks/Recursive.antt =====
-- Recursive locks: nesting.
use opendylan.Prelude.{
  ap, ℕ, zero, suc, ◌+◌, ◌≤◌, ◌≡◌, ◌≢◌, ◌⊎◌, inl, inr, refl, sym, ◌∙◌, arith, Option, some, ◌==◌,
  ==_ne, ==_refl, if◌then◌else◌,
}
use mathlib.Core.Option
use native.Mathlib.Decide.{ℕ_discrete}
use opendylan.Prelude.Int.{pos, pos_part, ◌+ℤ◌, ◌-ℤ◌}
use opendylan.Threads.Writers.{atomic_increment, atomic_decrement}
use opendylan.Prelude.Store.{Ptr, null}
use opendylan.Threads.Mutex.{Pthread, IsRecursive, ok}
use opendylan.Threads.Locks.{
  RecursiveLock, taken_recursive, wait_for_recursive_lock, released_recursive,
  release_recursive_lock, owned_recursive_lock, unlock_recursive_lock,
}

increment_pos : (d : ℕ) → atomic_increment (pos d) ≡ pos (suc d)
unfolding atomic_increment ◌+ℤ◌
increment_pos d = ground arith

decrement_pos : (d : ℕ) → atomic_decrement (pos (suc d)) ≡ pos d
unfolding atomic_decrement ◌-ℤ◌
decrement_pos d = ground arith

same_depth : {m n : ℕ} → pos m ≡ pos n → m ≡ n
same_depth e = ap pos_part e

module _ {M : Type 0} (pt : Pthread M) where
  -- The count is how often the mutex is locked, and the owner that the lock names has the mutex where
  -- some thread has it.
  pub record IsNested (l : RecursiveLock M) : Type 0 where
    pub count : l.count ≡ pos (pt.depth l.mutex)
    pub owner : pt.holder l.mutex ≢ null → l.owner ≡ pt.holder l.mutex
    pub depth_held : pt.holder l.mutex ≢ null → pt.depth l.mutex ≢ 0

  -- `k` calls, one after another.
  abbrev pub wait_times : (k : ℕ) (teb : Ptr) → RecursiveLock M → Option (RecursiveLock M)
  wait_times zero teb l = some l
  wait_times (suc k) teb l =
      Option.bind (wait_times k teb l) λ r. Option.map (λ x. x.1) (wait_for_recursive_lock pt teb r)

  abbrev pub release_times : (k : ℕ) (teb : Ptr) → RecursiveLock M → RecursiveLock M
  release_times zero teb l = l
  release_times (suc k) teb l = (release_recursive_lock pt teb (release_times k teb l)).1

  module _ (is : IsRecursive pt) (t : Ptr) (some_thread : t ≢ null) where
    deeper-IsNested :
        (l : RecursiveLock M) (n : M)
        → IsNested l
        → pt.holder n ≡ t
        → pt.depth n ≡ suc (pt.depth l.mutex)
        → IsNested (record { owner = t; count = atomic_increment l.count; mutex = n })
    deeper-IsNested l n nested h d = record {
      count = rw nested.count (increment_pos (pt.depth l.mutex) ∙ ap pos (sym d));
      owner = λ _. sym h;
      depth_held = λ _. omega (arith, d);
    }

    -- One more level: the lock is free or the thread's.
    pub wait_for_recursive_lock_lem :
        (l : RecursiveLock M)
        → IsNested l
        → (pt.holder l.mutex ≡ null) ⊎ (pt.holder l.mutex ≡ t)
        → (k : RecursiveLock M) × (wait_for_recursive_lock pt t l ≡ some (ok, k))
          × (pt.holder k.mutex ≡ t)
          × (pt.depth k.mutex ≡ suc (pt.depth l.mutex))
          × IsNested k
    unfolding wait_for_recursive_lock taken_recursive
    wait_for_recursive_lock_lem l nested (inl free) =
        let (n, e, h, d) = is.mutex.lock_free t l.mutex some_thread free in
        let outside = is.mutex.depth_free l.mutex free in
        let deeper : pt.depth n ≡ suc (pt.depth l.mutex) = omega (arith, outside, d) in
        (
          record { owner = t; count = atomic_increment l.count; mutex = n },
          rw e refl,
          h,
          deeper,
          deeper-IsNested l n nested h deeper,
        )
    wait_for_recursive_lock_lem l nested (inr own) =
        let (n, e, h, d) = is.lock_again t l.mutex some_thread own in
        (
          record { owner = t; count = atomic_increment l.count; mutex = n },
          rw e refl,
          h,
          d,
          deeper-IsNested l n nested h d,
        )

    -- One level less: the thread has the lock while levels are left.
    pub release_recursive_lock_lem :
        (l : RecursiveLock M)
        → IsNested l
        → pt.holder l.mutex ≡ t
        → (k : RecursiveLock M) × (release_recursive_lock pt t l ≡ (ok, k))
          × (pt.holder k.mutex ≡ (if pt.depth k.mutex == 0 then null else t))
          × (suc (pt.depth k.mutex) ≡ pt.depth l.mutex)
          × IsNested k
    unfolding release_recursive_lock released_recursive
    release_recursive_lock_lem l nested own = go (pt.depth l.mutex) refl
      where
        busy : pt.holder l.mutex ≢ null
        busy free = some_thread (sym own ∙ free)

        counted : (d : ℕ) → pt.depth l.mutex ≡ suc d → atomic_decrement l.count ≡ pos d
        counted d at = rw (nested.count, at) (decrement_pos d)

        go :
            (d : ℕ)
            → pt.depth l.mutex ≡ d
            → (k : RecursiveLock M) × (release_recursive_lock pt t l ≡ (ok, k))
              × (pt.holder k.mutex ≡ (if pt.depth k.mutex == 0 then null else t))
              × (suc (pt.depth k.mutex) ≡ pt.depth l.mutex)
              × IsNested k
        go zero at = absurd (nested.depth_held busy at)
        go (suc zero) at =
            let (n, e, h, d) = is.mutex.unlock_last t l.mutex own at in
            (
              record l { count = atomic_decrement l.count; mutex = n },
              rw e refl,
              rw d h,
              omega (arith, d, at),
              record {
                count = counted 0 at ∙ ap pos (sym d);
                owner = λ held. absurd (held h);
                depth_held = λ held. absurd (held h);
              },
            )
        go (suc (suc d)) at =
            let (n, e, h, depth) = is.unlock_nested t l.mutex d own at in
            (
              record l { count = atomic_decrement l.count; mutex = n },
              rw e refl,
              rw (depth, ==_ne (suc d) 0 (omega arith)) h,
              omega (arith, depth, at),
              record {
                count = counted (suc d) at ∙ ap pos (sym depth);
                owner = λ _. nested.owner busy ∙ own ∙ sym h;
                depth_held = λ _. omega (arith, depth);
              },
            )

    -- primitive_owned_recursive_lock answers whether the thread has the lock.
    pub owned_recursive_lock-holder :
        (l : RecursiveLock M)
        → IsNested l
        → owned_recursive_lock pt t l ≡ (if pt.holder l.mutex == t then pos 1 else pos 0)
    unfolding owned_recursive_lock
    owned_recursive_lock-holder l nested = elim (ℕ_discrete (pt.holder l.mutex) t) [
      | yes own ↦
          let busy : pt.holder l.mutex ≢ null = λ free. some_thread (sym own ∙ free) in
          rw
            (
              nested.owner busy,
              own,
              ==_refl t,
              nested.count,
              ==_ne (pt.depth l.mutex) 0 (nested.depth_held busy),
            )
            refl
      | no ne ↦ elim (ℕ_discrete (pt.holder l.mutex) null) [
        | yes free ↦
            let at_0 : l.count ≡ pos 0 = nested.count ∙ ap pos (is.mutex.depth_free l.mutex free) in
            rw (==_ne (pt.holder l.mutex) t ne, at_0) (ground arith)
        | no busy ↦ rw (nested.owner busy, ==_ne (pt.holder l.mutex) t ne) refl
      ]
    ]

    waits-IsNested :
        (k : ℕ) (l : RecursiveLock M)
        → IsNested l
        → pt.holder l.mutex ≡ null
        → (r : RecursiveLock M) × (wait_times (suc k) t l ≡ some r)
          × (pt.holder r.mutex ≡ t)
          × (pt.depth r.mutex ≡ suc k)
          × IsNested r
    unfolding Option.bind
    waits-IsNested zero l nested free =
        let (r, e, h, c, n) = wait_for_recursive_lock_lem l nested (inl free) in
        let outside = is.mutex.depth_free l.mutex free in
        (r, rw e refl, h, omega (arith, c, outside), n)
    waits-IsNested (suc k) l nested free =
        let (q, f, g, d, m) = waits-IsNested k l nested free in
        let (r, e, h, c, n) = wait_for_recursive_lock_lem q m (inr g) in
        (r, rw (f, e) refl, h, omega (arith, c, d), n)

    releases-IsNested :
        (j : ℕ) (l : RecursiveLock M)
        → IsNested l
        → pt.holder l.mutex ≡ t
        → j ≤ pt.depth l.mutex
        → (pt.depth (release_times j t l).mutex + j ≡ pt.depth l.mutex)
          × (pt.holder (release_times j t l).mutex
              ≡ (if pt.depth (release_times j t l).mutex == 0 then null else t))
          × IsNested (release_times j t l)
    releases-IsNested zero l nested own le =
        let busy : pt.holder l.mutex ≢ null = λ free. some_thread (sym own ∙ free) in
        (omega arith, rw (==_ne (pt.depth l.mutex) 0 (nested.depth_held busy)) own, nested)
    releases-IsNested (suc j) l nested own le =
        let (sum, h, n) = releases-IsNested j l nested own (omega (arith, le)) in
        let depth : ℕ = pt.depth (release_times j t l).mutex in
        let left : depth ≢ 0 = omega (arith, sum, le) in
        let held : pt.holder (release_times j t l).mutex ≡ t = h ∙ rw (==_ne depth 0 left) refl in
        let (k, e, g, c, m) = release_recursive_lock_lem (release_times j t l) n held in
        rw (release_times, e) (omega (arith, sum, c), g, m)

    -- Where the count of a free lock is 0, as often as its mutex is locked (IsNested), a thread that
    -- waits for the lock one time or more, and then releases it as often or less, has it until the
    -- last of as many releases, and not after; and primitive_owned_recursive_lock tells it so.
    pub release_times-wait_times :
        (k j : ℕ) (l : RecursiveLock M)
        → IsNested l
        → pt.holder l.mutex ≡ null
        → j ≤ suc k
        → (r : RecursiveLock M) × (wait_times (suc k) t l ≡ some r)
          × (owned_recursive_lock pt t (release_times j t r)
              ≡ (if j == suc k then pos 0 else pos 1))
          × (pt.holder (release_times j t r).mutex ≡ (if j == suc k then null else t))
    release_times-wait_times k j l nested free le =
        let (r, e, h, c, n) = waits-IsNested k l nested free in
        let (sum, at, m) = releases-IsNested j r n h (omega (arith, le, c)) in
        let holder : pt.holder (release_times j t r).mutex ≡ (if j == suc k then null else t) =
          at ∙ ground (arith, sum, c, le) in
        (
          r,
          e,
          owned_recursive_lock-holder (release_times j t r) m
              ∙ rw holder (ground (arith, some_thread)),
          holder,
        )

    -- primitive_unlock_recursive_lock of a lock that the thread has taken twice or more unlocks the
    -- mutex once: it answers OK, and the thread still has the mutex, but is told that it
    -- does not own the lock; and a second call does nothing.
    pub unlock_recursive_lock-nested :
        (l : RecursiveLock M) (d : ℕ)
        → IsNested l
        → pt.holder l.mutex ≡ t
        → l.count ≡ pos (suc (suc d))
        → (k : RecursiveLock M) × (unlock_recursive_lock pt t l ≡ (ok, k))
          × (pt.holder k.mutex ≡ t)
          × (owned_recursive_lock pt t k ≡ pos 0)
          × (unlock_recursive_lock pt t k ≡ (ok, k))
    unfolding unlock_recursive_lock owned_recursive_lock
    unlock_recursive_lock-nested l d nested own twice =
        let (n, e, h, depth) =
          is.unlock_nested t l.mutex d own (same_depth (sym nested.count ∙ twice)) in
        (
          record { owner = null; count = pos 0; mutex = n },
          rw (twice, ==_ne (suc (suc d)) 0 (omega arith), e) refl,
          h,
          rw (==_ne null t (λ same. some_thread (sym same))) refl,
          refl,
        )
