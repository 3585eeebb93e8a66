-- ===== src/Threads/Locks.antt =====
-- Simple and recursive locks: the primitives 7, 8, 10 to 12, 15, 16, 24, 25, 37 and 38 of
-- sources/lib/run-time/posix-threads.c. A thread is given by its TEB. A primitive that waits gives none
-- where it does not return before another thread unlocks.
pub mod Simple
pub mod Recursive
use opendylan.Prelude.{ℕ, zero, suc, ◌-◌, Bool, ◌&&◌, not, Option, none, some, ◌==◌, if◌then◌else◌}
use mathlib.Core.Option
use opendylan.Prelude.Int.{ℤ, pos}
use opendylan.Prelude.Store.{Ptr, null}
use opendylan.Threads.Writers.{atomic_increment, atomic_decrement, eqb_ℤ}
use opendylan.Threads.Mutex.{
  Errno, success, edeadlk, eperm, etimedout, other, Pthread, ok, general_error, timeout, not_locked,
  already_locked,
}

-- SIMPLELOCK and RECURSIVELOCK
pub record SimpleLock (M : Type 0) : Type 0 where
  pub owner : Ptr
  pub mutex : M

pub record RecursiveLock (M : Type 0) : Type 0 where
  pub owner : Ptr
  pub count : ℤ
  pub mutex : M

module _ {M : Type 0} (pt : Pthread M) where
  -- The end of the primitives that take a simple lock, from the result of the mutex.
  unfoldable pub taken_simple : (teb : Ptr) → SimpleLock M → Errno × M → ℤ × SimpleLock M
  taken_simple teb l (success, m) = (ok, record { owner = teb; mutex = m })
  taken_simple teb l (edeadlk, m) = (already_locked, record l { mutex = m })
  taken_simple teb l (etimedout, m) = (general_error, record l { mutex = m })
  taken_simple teb l (eperm, m) = (general_error, record l { mutex = m })
  taken_simple teb l (other, m) = (general_error, record l { mutex = m })

  unfoldable pub wait_for_simple_lock : (teb : Ptr) → SimpleLock M → Option (ℤ × SimpleLock M)
  wait_for_simple_lock teb l = Option.map (taken_simple teb l) (pt.pthread_mutex_lock teb l.mutex)

  unfoldable pub taken_simple_timed : (teb : Ptr) → SimpleLock M → Errno × M → ℤ × SimpleLock M
  taken_simple_timed teb l (etimedout, m) = (timeout, record l { mutex = m })
  taken_simple_timed teb l (e, m) = taken_simple teb l (e, m)

  unfoldable pub wait_for_simple_lock_timed : (teb : Ptr) → SimpleLock M → ℤ × SimpleLock M
  wait_for_simple_lock_timed teb l =
      taken_simple_timed teb l (pt.pthread_mutex_timedlock teb l.mutex)

  -- The code for the result of unlocking.
  abbrev pub release_code : Errno → ℤ
  release_code success = ok
  release_code eperm = not_locked
  release_code _ = general_error

  unfoldable pub release_simple_lock : (teb : Ptr) → SimpleLock M → ℤ × SimpleLock M
  release_simple_lock teb l =
      let done = pt.pthread_mutex_unlock teb l.mutex in
      (release_code done.0, record { owner = null; mutex = done.1 })

  unfoldable pub owned_simple_lock : (teb : Ptr) → SimpleLock M → ℤ
  owned_simple_lock teb l = if l.owner == teb then pos 1 else pos 0

  abbrev pub unlock_code : Errno → ℤ
  unlock_code success = ok
  unlock_code _ = general_error

  unfoldable pub unlock_simple_lock : (teb : Ptr) → SimpleLock M → ℤ × SimpleLock M
  unlock_simple_lock teb l =
      let done = pt.pthread_mutex_unlock teb l.mutex in
      if l.owner == null
      then (ok, l)
      else (unlock_code done.0, record { owner = null; mutex = done.1 })

  -- pthread_cond_wait unlocks the mutex and locks it again; `others` is what the other threads do to
  -- the lock in between. Where the mutex is not the thread's it gives an error at once.
  unfoldable pub locked_again :
      (others : SimpleLock M → SimpleLock M) (teb : Ptr)
      → SimpleLock M
      → Errno × M
      → Option (Errno × SimpleLock M)
  locked_again others teb l (success, m) =
      let then_lock : SimpleLock M = others (record l { mutex = m }) in
      Option.map (λ r. (r.0, record then_lock { mutex = r.1 }))
        (pt.pthread_mutex_lock teb then_lock.mutex)
  locked_again others teb l (e, m) = some (e, l)

  unfoldable pub pthread_cond_wait :
      (others : SimpleLock M → SimpleLock M) (teb : Ptr)
      → SimpleLock M
      → Option (Errno × SimpleLock M)
  pthread_cond_wait others teb l = locked_again others teb l (pt.pthread_mutex_unlock teb l.mutex)

  unfoldable pub wait_for_notification :
      (others : SimpleLock M → SimpleLock M) (teb : Ptr) → SimpleLock M → Option (ℤ × SimpleLock M)
  wait_for_notification others teb l =
      Option.map (λ r. (unlock_code r.0, r.1)) (pthread_cond_wait others teb l)

  -- The end of the primitives that take a recursive lock.
  unfoldable pub taken_recursive : (teb : Ptr) → RecursiveLock M → Errno × M → ℤ × RecursiveLock M
  taken_recursive teb l (success, m) =
      (ok, record { owner = teb; count = atomic_increment l.count; mutex = m })
  taken_recursive teb l (edeadlk, m) = (already_locked, record l { mutex = m })
  taken_recursive teb l (etimedout, m) = (general_error, record l { mutex = m })
  taken_recursive teb l (eperm, m) = (general_error, record l { mutex = m })
  taken_recursive teb l (other, m) = (general_error, record l { mutex = m })

  unfoldable pub wait_for_recursive_lock :
      (teb : Ptr) → RecursiveLock M → Option (ℤ × RecursiveLock M)
  wait_for_recursive_lock teb l =
      Option.map (taken_recursive teb l) (pt.pthread_mutex_lock teb l.mutex)

  unfoldable pub taken_recursive_timed :
      (teb : Ptr) → RecursiveLock M → Errno × M → ℤ × RecursiveLock M
  taken_recursive_timed teb l (etimedout, m) = (timeout, record l { mutex = m })
  taken_recursive_timed teb l (e, m) = taken_recursive teb l (e, m)

  unfoldable pub wait_for_recursive_lock_timed : (teb : Ptr) → RecursiveLock M → ℤ × RecursiveLock M
  wait_for_recursive_lock_timed teb l =
      taken_recursive_timed teb l (pt.pthread_mutex_timedlock teb l.mutex)

  unfoldable pub released_recursive : RecursiveLock M → Errno × M → ℤ × RecursiveLock M
  released_recursive l (success, m) = (ok, record l { count = atomic_decrement l.count; mutex = m })
  released_recursive l (e, m) = (release_code e, record l { mutex = m })

  unfoldable pub release_recursive_lock : (teb : Ptr) → RecursiveLock M → ℤ × RecursiveLock M
  release_recursive_lock teb l = released_recursive l (pt.pthread_mutex_unlock teb l.mutex)

  unfoldable pub owned_recursive_lock : (teb : Ptr) → RecursiveLock M → ℤ
  owned_recursive_lock teb l =
      if l.owner == teb && not (eqb_ℤ l.count (pos 0)) then pos 1 else pos 0

  unfoldable pub unlock_recursive_lock : (teb : Ptr) → RecursiveLock M → ℤ × RecursiveLock M
  unlock_recursive_lock teb l =
      let done = pt.pthread_mutex_unlock teb l.mutex in
      if eqb_ℤ l.count (pos 0)
      then (ok, l)
      else (unlock_code done.0, record { owner = null; count = pos 0; mutex = done.1 })
