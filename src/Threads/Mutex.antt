-- ===== src/Threads/Mutex.antt =====
-- The mutexes of POSIX threads that sources/lib/run-time/posix-threads.c uses, as it relies on
-- them, and the codes that its primitives return.
use opendylan.Prelude.{ℕ, suc, ◌≡◌, ◌≢◌, ◌⊎◌, Option, none, some}
use opendylan.Prelude.Int.{ℤ, pos, negsuc}
use opendylan.Prelude.Store.{Ptr, null}

-- What a call of POSIX threads returns: 0, or an error number.
pub data Errno : Type 0 where
  success : Errno
  edeadlk : Errno
  eperm : Errno
  etimedout : Errno
  other : Errno

-- The calls of a thread on a mutex; none where the call does not return before another thread
-- unlocks the mutex. A mutex is locked by a thread, or by none (NULL), a number of times.
pub record Pthread (M : Type 0) : Type 0 where
  pub pthread_mutex_lock : (thread : Ptr) → M → Option (Errno × M)
  pub pthread_mutex_timedlock : (thread : Ptr) → M → Errno × M
  pub pthread_mutex_unlock : (thread : Ptr) → M → Errno × M
  pub holder : M → Ptr
  pub depth : M → ℕ

-- PTHREAD_MUTEX_ERRORCHECK, and where it differs PTHREAD_MUTEX_RECURSIVE.
pub record IsMutex {M : Type 0} (pt : Pthread M) : Type 0 where
  pub lock_free :
      (t : Ptr) (m : M)
      → t ≢ null
      → pt.holder m ≡ null
      → (n : M) × (pt.pthread_mutex_lock t m ≡ some (success, n))
        × (pt.holder n ≡ t)
        × (pt.depth n ≡ 1)
  pub lock_held :
      (t : Ptr) (m : M) → pt.holder m ≢ null → pt.holder m ≢ t → pt.pthread_mutex_lock t m ≡ none
  pub lock_timed :
      (t : Ptr) (m : M)
      → t ≢ null
      → ((n : M) × (pt.pthread_mutex_timedlock t m ≡ (success, n))
          × (pt.holder n ≡ t)
          × (pt.depth n ≡ suc (pt.depth m))
          × ((pt.holder m ≡ null) ⊎ (pt.holder m ≡ t)))
        ⊎ ((e : Errno) × (pt.pthread_mutex_timedlock t m ≡ (e, m)) × (e ≢ success))
  pub depth_free : (m : M) → pt.holder m ≡ null → pt.depth m ≡ 0
  pub unlock_last :
      (t : Ptr) (m : M)
      → pt.holder m ≡ t
      → pt.depth m ≡ 1
      → (n : M) × (pt.pthread_mutex_unlock t m ≡ (success, n))
        × (pt.holder n ≡ null)
        × (pt.depth n ≡ 0)
  pub unlock_other : (t : Ptr) (m : M) → pt.holder m ≢ t → pt.pthread_mutex_unlock t m ≡ (eperm, m)

pub record IsErrorCheck {M : Type 0} (pt : Pthread M) : Type 0 where
  pub mutex : IsMutex pt
  pub depth_held : (m : M) → pt.holder m ≢ null → pt.depth m ≡ 1
  pub lock_again :
      (t : Ptr) (m : M) → t ≢ null → pt.holder m ≡ t → pt.pthread_mutex_lock t m ≡ some (edeadlk, m)

pub record IsRecursive {M : Type 0} (pt : Pthread M) : Type 0 where
  pub mutex : IsMutex pt
  pub lock_again :
      (t : Ptr) (m : M)
      → t ≢ null
      → pt.holder m ≡ t
      → (n : M) × (pt.pthread_mutex_lock t m ≡ some (success, n))
        × (pt.holder n ≡ t)
        × (pt.depth n ≡ suc (pt.depth m))
  pub unlock_nested :
      (t : Ptr) (m : M) (d : ℕ)
      → pt.holder m ≡ t
      → pt.depth m ≡ suc (suc d)
      → (n : M) × (pt.pthread_mutex_unlock t m ≡ (success, n))
        × (pt.holder n ≡ t)
        × (pt.depth n ≡ suc d)

-- The codes of the primitives.
abbrev pub ok : ℤ
ok = pos 0

abbrev pub general_error : ℤ
general_error = negsuc 0

abbrev pub timeout : ℤ
timeout = pos 1

abbrev pub not_locked : ℤ
not_locked = pos 2

abbrev pub already_locked : ℤ
already_locked = pos 2

abbrev pub count_exceeded : ℤ
count_exceeded = pos 3
