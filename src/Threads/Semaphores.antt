-- ===== src/Threads/Semaphores.antt =====
-- Semaphores where POSIX ones are not used: the primitives 9, 13, 17 and 26 of
-- sources/lib/run-time/posix-threads.c. Each critical section under the semaphore's mutex is a function;
-- it gives none where the mutex is held. The calls of POSIX threads are taken to succeed.
pub mod Count
use opendylan.Prelude.{ℕ, suc, ◌≡◌, Bool, true, false, Option, none, some, if◌then◌else◌}
use opendylan.Prelude.Int.{ℤ, pos, ltb_ℤ, ◌+ℤ◌, ◌-ℤ◌}
use opendylan.Threads.Mutex.{ok, timeout, count_exceeded}

-- SEMAPHORE, and whether its mutex is held between the sections.
pub record Semaphore : Type 0 where
  pub count : ℤ
  pub max_count : ℤ
  pub locked : Bool

-- A section ends with a wait for the semaphore's condition, or with a code.
pub data Progress : Type 0 where
  sleeps : Progress
  answers : ℤ → Progress

unfoldable pub make_semaphore : (initial max : ℤ) → Semaphore
make_semaphore initial max = record { count = initial; max_count = max; locked = false }

-- The first section, of primitive_wait_for_semaphore and the timed primitive, and those that begin
-- when the thread is woken.
unfoldable pub wait_for_semaphore : Semaphore → Option (Progress × Semaphore)
wait_for_semaphore s =
    if s.locked
    then none
    else if ltb_ℤ (pos 0) s.count
    then some (answers ok, record s { count = s.count -ℤ pos 1 })
    else some (sleeps, s)

-- The section of the timed primitive that begins when its time is over.
unfoldable pub timed_out : Semaphore → Option (Progress × Semaphore)
timed_out s = if s.locked then none else some (answers timeout, s)

-- The error leaves the mutex held.
unfoldable pub release_semaphore : Semaphore → Option (Progress × Semaphore)
release_semaphore s =
    if s.locked
    then none
    else if ltb_ℤ s.count s.max_count
    then some (answers ok, record s { count = s.count +ℤ pos 1 })
    else some (answers count_exceeded, record s { locked = true })

-- A semaphore after sections in any order: how often it has been taken, and how often released.
pub data Reach (initial max : ℤ) : Semaphore → (taken given : ℕ) → Type 0 where
  made : Reach initial max (make_semaphore initial max) 0 0
  takes :
      {s t : Semaphore} {taken given : ℕ}
      → Reach initial max s taken given
      → wait_for_semaphore s ≡ some (answers ok, t)
      → Reach initial max t (suc taken) given
  waits :
      {s t : Semaphore} {taken given : ℕ}
      → Reach initial max s taken given
      → wait_for_semaphore s ≡ some (sleeps, t)
      → Reach initial max t taken given
  gives_up :
      {s t : Semaphore} {taken given : ℕ} {p : Progress}
      → Reach initial max s taken given
      → timed_out s ≡ some (p, t)
      → Reach initial max t taken given
  gives :
      {s t : Semaphore} {taken given : ℕ}
      → Reach initial max s taken given
      → release_semaphore s ≡ some (answers ok, t)
      → Reach initial max t taken (suc given)
  exceeds :
      {s t : Semaphore} {taken given : ℕ}
      → Reach initial max s taken given
      → release_semaphore s ≡ some (answers count_exceeded, t)
      → Reach initial max t taken given
