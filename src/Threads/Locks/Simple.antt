-- ===== src/Threads/Locks/Simple.antt =====
-- Simple locks: who has the lock, and who is told so.
use opendylan.Prelude.{
  ◌≡◌, ◌≢◌, ◌⊎◌, inl, inr, refl, sym, ap, subst, ◌∙◌, arith, none, some, Bool, true, false, ◌==◌,
  ==_ne, if◌then◌else◌,
}
use mathlib.Core.Option.{some-injective, none-ne-some}
use native.Mathlib.Decide.{ℕ_discrete}
use opendylan.Prelude.Int.{ℤ, pos}
use opendylan.Prelude.Store.{Ptr, null}
use opendylan.Threads.Mutex.{
  Errno, success, edeadlk, eperm, etimedout, other, Pthread, IsErrorCheck, ok, not_locked,
  already_locked,
}
use opendylan.Threads.Locks.{
  SimpleLock, taken_simple, taken_simple_timed, wait_for_simple_lock, wait_for_simple_lock_timed,
  release_simple_lock, owned_simple_lock, unlock_simple_lock, locked_again, pthread_cond_wait,
  wait_for_notification,
}

abbrev pub is_success : Errno → Bool
is_success success = true
is_success _ = false

module _ {M : Type 0} (pt : Pthread M) where
  -- The owner that the lock names is the thread that has the mutex.
  abbrev pub IsSimple : SimpleLock M → Type 0
  IsSimple l = l.owner ≡ pt.holder l.mutex

  -- A new lock, and calls of threads in any order, but none of primitive_wait_for_notification; who
  -- releases the lock has it.
  pub data Run : SimpleLock M → Type 0 where
    made : (m : M) → pt.holder m ≡ null → Run (record { owner = null; mutex = m })
    waited :
        {l k : SimpleLock M} {c : ℤ} (t : Ptr)
        → t ≢ null
        → Run l
        → wait_for_simple_lock pt t l ≡ some (c, k)
        → Run k
    waited_timed :
        {l : SimpleLock M} (t : Ptr) → t ≢ null → Run l → Run (wait_for_simple_lock_timed pt t l).1
    released :
        {l : SimpleLock M} (t : Ptr)
        → t ≢ null
        → Run l
        → pt.holder l.mutex ≡ t
        → Run (release_simple_lock pt t l).1
    unlocked :
        {l : SimpleLock M} (t : Ptr)
        → t ≢ null
        → Run l
        → (pt.holder l.mutex ≡ t) ⊎ (pt.holder l.mutex ≡ null)
        → Run (unlock_simple_lock pt t l).1

  module _ (is : IsErrorCheck pt) (t : Ptr) (some_thread : t ≢ null) where
    -- A thread that waits for a lock that no thread has gets it; one that has it is told so, and the
    -- lock stays as it was; and a lock that another thread has makes it wait.
    pub wait_for_simple_lock-all :
        (l : SimpleLock M)
        → IsSimple l
        → (pt.holder l.mutex ≡ null
            → (k : SimpleLock M) × (wait_for_simple_lock pt t l ≡ some (ok, k))
              × (k.owner ≡ t)
              × IsSimple k)
          × (pt.holder l.mutex ≡ t → wait_for_simple_lock pt t l ≡ some (already_locked, l))
          × (pt.holder l.mutex ≢ null → pt.holder l.mutex ≢ t → wait_for_simple_lock pt t l ≡ none)
    unfolding wait_for_simple_lock taken_simple
    wait_for_simple_lock-all l simple = (
      (λ free.
          let (n, e, h, d) = is.mutex.lock_free t l.mutex some_thread free in
          (record { owner = t; mutex = n }, rw e refl, refl, sym h)),
      (λ own. rw (is.lock_again t l.mutex some_thread own) refl),
      (λ taken not_own. rw (is.mutex.lock_held t l.mutex taken not_own) refl),
    )

    -- Only success makes the thread the owner.
    taken-IsSimple :
        (l : SimpleLock M) (e : Errno) (m : M)
        → IsSimple l
        → pt.holder m ≡ (if is_success e then t else pt.holder l.mutex)
        → IsSimple (taken_simple pt t l (e, m)).1
    unfolding taken_simple
    taken-IsSimple l success m simple h = sym h
    taken-IsSimple l edeadlk m simple h = simple ∙ sym h
    taken-IsSimple l etimedout m simple h = simple ∙ sym h
    taken-IsSimple l eperm m simple h = simple ∙ sym h
    taken-IsSimple l other m simple h = simple ∙ sym h

    taken_timed-IsSimple :
        (l : SimpleLock M) (e : Errno) (m : M)
        → IsSimple l
        → pt.holder m ≡ (if is_success e then t else pt.holder l.mutex)
        → IsSimple (taken_simple_timed pt t l (e, m)).1
    unfolding taken_simple_timed
    taken_timed-IsSimple l etimedout m simple h = simple ∙ sym h
    taken_timed-IsSimple l success m simple h = taken-IsSimple l success m simple h
    taken_timed-IsSimple l edeadlk m simple h = taken-IsSimple l edeadlk m simple h
    taken_timed-IsSimple l eperm m simple h = taken-IsSimple l eperm m simple h
    taken_timed-IsSimple l other m simple h = taken-IsSimple l other m simple h

    timed-IsSimple :
        (l : SimpleLock M) → IsSimple l → IsSimple (wait_for_simple_lock_timed pt t l).1
    unfolding wait_for_simple_lock_timed
    timed-IsSimple l simple = elim (is.mutex.lock_timed t l.mutex some_thread) [
      | inl (n, e, h, d, before) ↦ rw e (taken_timed-IsSimple l success n simple h)
      | inr (e, same, failed) ↦
          rw same (taken_timed-IsSimple l e l.mutex simple (ground (arith, failed)))
    ]

    waited-IsSimple :
        (l k : SimpleLock M) (c : ℤ)
        → IsSimple l
        → wait_for_simple_lock pt t l ≡ some (c, k)
        → IsSimple k
    waited-IsSimple l k c simple e = elim (ℕ_discrete (pt.holder l.mutex) null) [
      | yes free ↦
          let (got, taken, owner, fits) = (wait_for_simple_lock-all l simple).0 free in
          subst IsSimple (ap (λ r. r.1) (some-injective _ _ (sym taken ∙ e))) fits
      | no held ↦ elim (ℕ_discrete (pt.holder l.mutex) t) [
        | yes own ↦
            subst IsSimple
              (ap (λ r. r.1)
                (some-injective _ _ (sym ((wait_for_simple_lock-all l simple).1 own) ∙ e)))
              simple
        | no not_own ↦
            absurd (none-ne-some _ (sym ((wait_for_simple_lock-all l simple).2 held not_own) ∙ e))
      ]
    ]

    released-IsSimple :
        (l : SimpleLock M) → pt.holder l.mutex ≡ t → IsSimple (release_simple_lock pt t l).1
    unfolding release_simple_lock
    released-IsSimple l own =
        let (n, e, h, d) =
          is.mutex.unlock_last t l.mutex own
            (is.depth_held l.mutex (λ free. some_thread (sym own ∙ free))) in
        rw e (sym h)

    unlocked-IsSimple :
        (l : SimpleLock M)
        → IsSimple l
        → (pt.holder l.mutex ≡ t) ⊎ (pt.holder l.mutex ≡ null)
        → IsSimple (unlock_simple_lock pt t l).1
    unfolding unlock_simple_lock
    unlocked-IsSimple l simple (inr free) = rw (simple ∙ free) (sym free)
    unlocked-IsSimple l simple (inl own) =
        let (n, e, h, d) =
          is.mutex.unlock_last t l.mutex own
            (is.depth_held l.mutex (λ free. some_thread (sym own ∙ free))) in
        rw (simple ∙ own, ==_ne t null some_thread, e) (sym h)

  module _ (is : IsErrorCheck pt) where
    Run-IsSimple : (l : SimpleLock M) → Run l → IsSimple l
    Run-IsSimple l (made m free) = sym free
    Run-IsSimple l (waited {l = k} {c = c} t some_thread run e) =
        waited-IsSimple is t some_thread k l c (Run-IsSimple k run) e
    Run-IsSimple l (waited_timed {l = k} t some_thread run) =
        timed-IsSimple is t some_thread k (Run-IsSimple k run)
    Run-IsSimple l (released {l = k} t some_thread run own) =
        released-IsSimple is t some_thread k own
    Run-IsSimple l (unlocked {l = k} t some_thread run who) =
        unlocked-IsSimple is t some_thread k (Run-IsSimple k run) who

    -- After any calls of primitive_wait_for_simple_lock, its variant with a timeout,
    -- primitive_release_simple_lock by the thread that has the lock, and
    -- primitive_unlock_simple_lock by that thread or while none has it, and with no
    -- primitive_wait_for_notification on the lock: primitive_owned_simple_lock answers 1 to the
    -- thread that has the mutex, and 0 to all others.
    pub owned_simple_lock-Run :
        (l : SimpleLock M) (t : Ptr)
        → Run l
        → owned_simple_lock pt t l ≡ (if pt.holder l.mutex == t then pos 1 else pos 0)
    unfolding owned_simple_lock
    owned_simple_lock-Run l t run = rw (Run-IsSimple l run) refl

    -- Where thread `t` has the lock and another one releases it: the release is refused as not
    -- locked, and yet `t` is then told that it does not own the lock, and its
    -- primitive_unlock_simple_lock does nothing: the mutex stays locked.
    pub unlock_simple_lock-release_simple_lock :
        (l : SimpleLock M) (t u : Ptr)
        → t ≢ null
        → u ≢ t
        → pt.holder l.mutex ≡ t
        → (k : SimpleLock M) × (release_simple_lock pt u l ≡ (not_locked, k))
          × (owned_simple_lock pt t k ≡ pos 0)
          × (unlock_simple_lock pt t k ≡ (ok, k))
          × (pt.holder k.mutex ≡ t)
    unfolding release_simple_lock owned_simple_lock unlock_simple_lock
    unlock_simple_lock-release_simple_lock l t u some_thread differ own = (
      record { owner = null; mutex = l.mutex },
      rw (is.mutex.unlock_other u l.mutex (λ same. differ (sym same ∙ own))) refl,
      rw (==_ne null t (λ same. some_thread (sym same))) refl,
      refl,
      own,
    )

    -- A thread that waits for a notification, while another takes the lock and releases it, has the
    -- mutex again when it returns; but it is told that it does not own the lock.
    pub owned_simple_lock-wait_for_notification :
        (l : SimpleLock M) (t : Ptr) (others : SimpleLock M → SimpleLock M)
        → t ≢ null
        → pt.holder l.mutex ≡ t
        → ((k : SimpleLock M) → IsSimple (others k) × (pt.holder (others k).mutex ≡ null))
        → (k : SimpleLock M) × (wait_for_notification pt others t l ≡ some (ok, k))
          × (pt.holder k.mutex ≡ t)
          × (owned_simple_lock pt t k ≡ pos 0)
    unfolding wait_for_notification pthread_cond_wait locked_again owned_simple_lock
    owned_simple_lock-wait_for_notification l t others some_thread own quiet =
        let (m, e, free, d) =
          is.mutex.unlock_last t l.mutex own
            (is.depth_held l.mutex (λ at_null. some_thread (sym own ∙ at_null))) in
        let between : SimpleLock M = others (record l { mutex = m }) in
        let (n, f, h, g) =
          is.mutex.lock_free t between.mutex some_thread (quiet (record l { mutex = m })).1 in
        let unowned : between.owner ≡ null =
          (quiet (record l { mutex = m })).0 ∙ (quiet (record l { mutex = m })).1 in
        (
          record { owner = between.owner; mutex = n },
          rw (e, f) refl,
          h,
          rw (unowned, ==_ne null t (λ same. some_thread (sym same))) refl,
        )
