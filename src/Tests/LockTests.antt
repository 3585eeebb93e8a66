-- ===== src/Tests/LockTests.antt =====
-- Locks over two concrete kinds of mutex, and the theorems about the locks of
-- sources/lib/run-time/posix-threads.c there.
use opendylan.Prelude.{
  ℕ, zero, suc, ◌≡◌, ◌≢◌, ◌⊎◌, inr, refl, ap, arith, Option, none, some, if◌then◌else◌, ◌==◌, ==_ne,
  ==_refl,
}
use opendylan.Prelude.Int.{pos}
use opendylan.Prelude.Store.{Ptr, null}
use opendylan.Threads.Mutex.{
  Errno, success, edeadlk, eperm, etimedout, Pthread, IsErrorCheck, IsRecursive, ok, not_locked,
}
use opendylan.Threads.Locks.{
  SimpleLock, RecursiveLock, wait_for_simple_lock, release_simple_lock, owned_simple_lock,
  unlock_simple_lock, owned_recursive_lock, taken_simple,
}
use opendylan.Threads.Locks.Simple.{
  made, waited, owned_simple_lock-Run, unlock_simple_lock-release_simple_lock,
}
use opendylan.Threads.Locks.Recursive.{wait_times, release_times, release_times-wait_times}

-- A mutex that no thread has, or that thread `by` has locked `more` times after the first.
data Cell : Type 0 where
  unheld : Cell
  held : (by more : ℕ) → Cell

abbrev cell_holder : Cell → Ptr
cell_holder unheld = null
cell_holder (held by more) = suc by

abbrev cell_lock : (again : ℕ → ℕ → Option (Errno × Cell)) → Ptr → Cell → Option (Errno × Cell)
cell_lock again zero m = none
cell_lock again (suc t) unheld = some (success, held t 0)
cell_lock again (suc t) (held by more) = if by == t then again by more else none

abbrev checked_unlock : Ptr → Cell → Errno × Cell
checked_unlock t unheld = (eperm, unheld)
checked_unlock t (held by more) = if suc by == t then (success, unheld) else (eperm, held by more)

abbrev checked_timed : Ptr → Cell → Errno × Cell
checked_timed t unheld = (etimedout, unheld)
checked_timed t (held by more) = (if suc by == t then edeadlk else etimedout, held by more)

abbrev checked_depth : Cell → ℕ
checked_depth unheld = 0
checked_depth (held by more) = 1

abbrev checked : Pthread Cell
checked = record {
  pthread_mutex_lock = cell_lock (λ by more. some (edeadlk, held by more));
  pthread_mutex_timedlock = checked_timed;
  pthread_mutex_unlock = checked_unlock;
  holder = cell_holder;
  depth = checked_depth;
}

checked-IsErrorCheck : IsErrorCheck checked
checked-IsErrorCheck = record {
  mutex = record {
    lock_free = free;
    lock_held = other;
    lock_timed = timed;
    depth_free = λ m h. unlocked m h;
    unlock_last = last;
    unlock_other = stranger;
  };
  depth_held = λ m h. locked m h;
  lock_again = again;
}
  where
    free :
        (t : Ptr) (m : Cell)
        → t ≢ null
        → cell_holder m ≡ null
        → (n : Cell) × (checked.pthread_mutex_lock t m ≡ some (success, n))
          × (cell_holder n ≡ t)
          × (checked_depth n ≡ 1)
    free zero m ne h = absurd (ne refl)
    free (suc t) unheld ne h = (held t 0, refl, refl, refl)
    free (suc t) (held by more) ne h = absurd (omega (arith, h))

    other :
        (t : Ptr) (m : Cell)
        → cell_holder m ≢ null
        → cell_holder m ≢ t
        → checked.pthread_mutex_lock t m ≡ none
    other zero m ne diff = refl
    other (suc t) unheld ne diff = absurd (ne refl)
    other (suc t) (held by more) ne diff = rw (==_ne by t (λ e. diff (ap (λ (x : ℕ). suc x) e)))

    timed :
        (t : Ptr) (m : Cell)
        → t ≢ null
        → ((n : Cell) × (checked_timed t m ≡ (success, n))
            × (cell_holder n ≡ t)
            × (checked_depth n ≡ suc (checked_depth m))
            × ((cell_holder m ≡ null) ⊎ (cell_holder m ≡ t)))
          ⊎ ((e : Errno) × (checked_timed t m ≡ (e, m)) × (e ≢ success))
    timed t unheld ne = inr (etimedout, refl, ground arith)
    timed t (held by more) ne = inr (if suc by == t then edeadlk else etimedout, refl, ground arith)

    unlocked : (m : Cell) → cell_holder m ≡ null → checked_depth m ≡ 0
    unlocked unheld h = refl
    unlocked (held by more) h = absurd (omega (arith, h))

    locked : (m : Cell) → cell_holder m ≢ null → checked_depth m ≡ 1
    locked unheld h = absurd (h refl)
    locked (held by more) h = refl

    last :
        (t : Ptr) (m : Cell)
        → cell_holder m ≡ t
        → checked_depth m ≡ 1
        → (n : Cell) × (checked_unlock t m ≡ (success, n))
          × (cell_holder n ≡ null)
          × (checked_depth n ≡ 0)
    last t unheld h d = absurd (omega (arith, d))
    last t (held by more) h d = (unheld, rw (h, ==_refl t) refl, refl, refl)

    stranger : (t : Ptr) (m : Cell) → cell_holder m ≢ t → checked_unlock t m ≡ (eperm, m)
    stranger t unheld h = refl
    stranger t (held by more) h = rw (==_ne (suc by) t h) refl

    again :
        (t : Ptr) (m : Cell)
        → t ≢ null
        → cell_holder m ≡ t
        → checked.pthread_mutex_lock t m ≡ some (edeadlk, m)
    again zero m ne h = absurd (ne refl)
    again (suc t) unheld ne h = absurd (omega (arith, h))
    again (suc t) (held by more) ne h =
        let same : by ≡ t = omega (arith, h) in rw (same, ==_refl t) refl

abbrev nested_unlock : Ptr → Cell → Errno × Cell
nested_unlock t unheld = (eperm, unheld)
nested_unlock t (held by zero) = if suc by == t then (success, unheld) else (eperm, held by zero)
nested_unlock t (held by (suc more)) =
    if suc by == t then (success, held by more) else (eperm, held by (suc more))

abbrev nested_depth : Cell → ℕ
nested_depth unheld = 0
nested_depth (held by more) = suc more

abbrev nested : Pthread Cell
nested = record {
  pthread_mutex_lock = cell_lock (λ by more. some (success, held by (suc more)));
  pthread_mutex_timedlock = λ t m. (etimedout, m);
  pthread_mutex_unlock = nested_unlock;
  holder = cell_holder;
  depth = nested_depth;
}

nested-IsRecursive : IsRecursive nested
nested-IsRecursive = record {
  mutex = record {
    lock_free = free;
    lock_held = other;
    lock_timed = λ t m ne. inr (etimedout, refl, ground arith);
    depth_free = λ m h. unlocked m h;
    unlock_last = last;
    unlock_other = stranger;
  };
  lock_again = again;
  unlock_nested = inner;
}
  where
    free :
        (t : Ptr) (m : Cell)
        → t ≢ null
        → cell_holder m ≡ null
        → (n : Cell) × (nested.pthread_mutex_lock t m ≡ some (success, n))
          × (cell_holder n ≡ t)
          × (nested_depth n ≡ 1)
    free zero m ne h = absurd (ne refl)
    free (suc t) unheld ne h = (held t 0, refl, refl, refl)
    free (suc t) (held by more) ne h = absurd (omega (arith, h))

    other :
        (t : Ptr) (m : Cell)
        → cell_holder m ≢ null
        → cell_holder m ≢ t
        → nested.pthread_mutex_lock t m ≡ none
    other zero m ne diff = refl
    other (suc t) unheld ne diff = absurd (ne refl)
    other (suc t) (held by more) ne diff = rw (==_ne by t (λ e. diff (ap (λ (x : ℕ). suc x) e)))

    unlocked : (m : Cell) → cell_holder m ≡ null → nested_depth m ≡ 0
    unlocked unheld h = refl
    unlocked (held by more) h = absurd (omega (arith, h))

    last :
        (t : Ptr) (m : Cell)
        → cell_holder m ≡ t
        → nested_depth m ≡ 1
        → (n : Cell) × (nested_unlock t m ≡ (success, n))
          × (cell_holder n ≡ null)
          × (nested_depth n ≡ 0)
    last t unheld h d = absurd (omega (arith, d))
    last t (held by zero) h d = (unheld, rw (h, ==_refl t) refl, refl, refl)
    last t (held by (suc more)) h d = absurd (omega (arith, d))

    stranger : (t : Ptr) (m : Cell) → cell_holder m ≢ t → nested_unlock t m ≡ (eperm, m)
    stranger t unheld h = refl
    stranger t (held by zero) h = rw (==_ne (suc by) t h) refl
    stranger t (held by (suc more)) h = rw (==_ne (suc by) t h) refl

    again :
        (t : Ptr) (m : Cell)
        → t ≢ null
        → cell_holder m ≡ t
        → (n : Cell) × (nested.pthread_mutex_lock t m ≡ some (success, n))
          × (cell_holder n ≡ t)
          × (nested_depth n ≡ suc (nested_depth m))
    again zero m ne h = absurd (ne refl)
    again (suc t) unheld ne h = absurd (omega (arith, h))
    again (suc t) (held by more) ne h =
        let same : by ≡ t = omega (arith, h) in
        (held by (suc more), rw (same, ==_refl t) refl, h, refl)

    inner :
        (t : Ptr) (m : Cell) (d : ℕ)
        → cell_holder m ≡ t
        → nested_depth m ≡ suc (suc d)
        → (n : Cell) × (nested_unlock t m ≡ (success, n))
          × (cell_holder n ≡ t)
          × (nested_depth n ≡ suc d)
    inner t unheld d h e = absurd (omega (arith, e))
    inner t (held by zero) d h e = absurd (omega (arith, e))
    inner t (held by (suc more)) d h e = (held by more, rw (h, ==_refl t) refl, h, omega (arith, e))

abbrev new_lock : SimpleLock Cell
new_lock = record { owner = 0; mutex = unheld }

abbrev held_lock : SimpleLock Cell
held_lock = record { owner = 3; mutex = held 2 0 }

takes : wait_for_simple_lock checked 3 new_lock ≡ some (ok, held_lock)
unfolding wait_for_simple_lock taken_simple
takes = refl

owned_simple_lock-Run_example :
    owned_simple_lock checked 3 held_lock ≡ (if cell_holder (held 2 0) == 3 then pos 1 else pos 0)
owned_simple_lock-Run_example =
    owned_simple_lock-Run checked checked-IsErrorCheck held_lock 3
      (waited 3 (omega arith) (made unheld refl) takes)

unlock_simple_lock-release_simple_lock_example :
    (k : SimpleLock Cell) × (release_simple_lock checked 4 held_lock ≡ (not_locked, k))
    × (owned_simple_lock checked 3 k ≡ pos 0)
    × (unlock_simple_lock checked 3 k ≡ (ok, k))
    × (cell_holder k.mutex ≡ 3)
unlock_simple_lock-release_simple_lock_example =
    unlock_simple_lock-release_simple_lock checked checked-IsErrorCheck held_lock 3 4 (omega arith)
      (omega arith) refl

abbrev new_recursive_lock : RecursiveLock Cell
new_recursive_lock = record { owner = 0; count = pos 0; mutex = unheld }

abbrev twice_held_lock : RecursiveLock Cell
twice_held_lock = record { owner = 3; count = pos 2; mutex = held 2 1 }

release_times-wait_times_example :
    (r : RecursiveLock Cell) × (wait_times nested 2 3 new_recursive_lock ≡ some r)
    × (owned_recursive_lock nested 3 (release_times nested 1 3 r)
        ≡ (if 1 == 2 then pos 0 else pos 1))
    × (cell_holder (release_times nested 1 3 r).mutex ≡ (if 1 == 2 then null else 3))
release_times-wait_times_example =
    release_times-wait_times nested nested-IsRecursive 3 (omega arith) 1 1 new_recursive_lock
      (record {
        count = refl;
        owner = λ some_holder. absurd (some_holder refl);
        depth_held = λ some_holder. absurd (some_holder refl);
      })
      refl (omega arith)
