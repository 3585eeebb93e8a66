-- ===== src/Threads/Join.antt =====
-- Joining threads: primitive_thread_join_single, primitive_thread_join_multiple and the end of a
-- thread in trampoline, of sources/lib/run-time/posix-threads.c. Each critical section under
-- thread_join_lock is a function; it gives none where the lock is held, so that the call waits.
-- pthread_cond_wait, which ends one section and begins the next, is taken to succeed.
pub mod Marks
pub mod Fair
pub mod Sections
pub mod Once
pub mod Outcome
use opendylan.Prelude.{
  ℕ, ◌<◌, ◌≡◌, Bool, true, false, not, ◌&&◌, ◌||◌, List, [], ◌∷◌, Option, none, some, ◌==◌,
  if◌then◌else◌,
}
use opendylan.Prelude.Int.{ℤ}
use opendylan.Prelude.Store.{Ptr, update}
use opendylan.Threads.Mutex.{general_error}

-- The bits COMPLETED, MARKED and JOINED of `handle1`.
pub record Flags : Type 0 where
  pub completed : Bool
  pub marked : Bool
  pub joined : Bool

-- `handle1` of all threads, and whether thread_join_lock is held between the sections.
pub record Joining : Type 0 where
  pub handle1 : Ptr → Flags
  pub locked : Bool

-- A section ends with a wait for thread_exit_event, with a code, or with OK or the thread that has
-- been joined.
pub data Progress : Type 0 where
  waits : Progress
  answers : ℤ → Progress
  joins : Ptr → Progress

-- The end of primitive_thread_join_single, from the test of `completed` on.
unfoldable pub join_single_rest : (t : Ptr) → (Ptr → Flags) → Progress × Joining
join_single_rest t h =
    let f : Flags = h t in
    if f.completed
    then (
      joins t,
      record {
        handle1 = update h t (record f { joined = not f.joined; marked = not f.marked });
        locked = false;
      },
    )
    else (waits, record { handle1 = h; locked = false })

unfoldable pub thread_join_single : (t : Ptr) → Joining → Option (Progress × Joining)
thread_join_single t s =
    let f : Flags = s.handle1 t in
    if s.locked
    then none
    else if f.marked || f.joined
    then some (answers general_error, s)
    else some (join_single_rest t (update s.handle1 t (record f { marked = true })))

-- When the thread has been woken.
unfoldable pub join_single_woken : (t : Ptr) → Joining → Option (Progress × Joining)
join_single_woken t s = if s.locked then none else some (join_single_rest t s.handle1)

-- The loops of primitive_thread_join_multiple.
unfoldable pub some_taken : List Ptr → (Ptr → Flags) → Bool
some_taken [] h = false
some_taken (t ∷ ts) h = ((h t).marked || (h t).joined) || some_taken ts h

unfoldable pub mark_all : List Ptr → (Ptr → Flags) → Ptr → Flags
mark_all [] h = h
mark_all (t ∷ ts) h = let f : Flags = h t in mark_all ts (update h t (record f { marked = true }))

unfoldable pub first_completed : List Ptr → (Ptr → Flags) → Option Ptr
first_completed [] h = none
first_completed (t ∷ ts) h =
    let rest = first_completed ts h in if (h t).completed then some t else rest

unfoldable pub toggle_all : List Ptr → (Ptr → Flags) → Ptr → Flags
toggle_all [] h = h
toggle_all (t ∷ ts) h =
    let f : Flags = h t in toggle_all ts (update h t (record f { marked = not f.marked }))

unfoldable pub join_multiple_found :
    (threads : List Ptr) → (Ptr → Flags) → Option Ptr → Progress × Joining
join_multiple_found ts h none = (waits, record { handle1 = h; locked = false })
join_multiple_found ts h (some t) =
    let f : Flags = h t in
    (
      joins t,
      record { handle1 = toggle_all ts (update h t (record f { joined = true })); locked = false },
    )

-- The end of primitive_thread_join_multiple, from the search for a completed thread on.
unfoldable pub join_multiple_rest : (threads : List Ptr) → (Ptr → Flags) → Progress × Joining
join_multiple_rest ts h = join_multiple_found ts h (first_completed ts h)

-- The error of a thread that takes part in another join leaves the lock held.
unfoldable pub thread_join_multiple : (threads : List Ptr) → Joining → Option (Progress × Joining)
thread_join_multiple ts s =
    if s.locked
    then none
    else if some_taken ts s.handle1
    then some (answers general_error, record s { locked = true })
    else some (join_multiple_rest ts (mark_all ts s.handle1))

unfoldable pub join_multiple_woken : (threads : List Ptr) → Joining → Option (Progress × Joining)
join_multiple_woken ts s = if s.locked then none else some (join_multiple_rest ts s.handle1)

-- The end of thread `t`.
unfoldable pub complete : (t : Ptr) → Joining → Option Joining
complete t s =
    let f : Flags = s.handle1 t in
    if s.locked
    then none
    else some (record s { handle1 = update s.handle1 t (record f { completed = true }) })

-- Where a call of one of the two primitives is.
pub data Pc : Type 0 where
  calls_single : Ptr → Pc
  calls_multiple : List Ptr → Pc
  waits_single : Ptr → Pc
  waits_multiple : List Ptr → Pc
  ended : Progress → Pc

-- After a section of a call that waits at `w`, if it waits.
abbrev pub after : (w : Pc) → Progress → Pc
after w waits = w
after w p = ended p

pub data Move (s : Joining) : Pc → Joining → Pc → Type 0 where
  enters_single :
      {t : Ptr} {r : Progress × Joining}
      → thread_join_single t s ≡ some r
      → Move s (calls_single t) r.1 (after (waits_single t) r.0)
  wakes_single :
      {t : Ptr} {r : Progress × Joining}
      → join_single_woken t s ≡ some r
      → Move s (waits_single t) r.1 (after (waits_single t) r.0)
  enters_multiple :
      {ts : List Ptr} {r : Progress × Joining}
      → thread_join_multiple ts s ≡ some r
      → Move s (calls_multiple ts) r.1 (after (waits_multiple ts) r.0)
  wakes_multiple :
      {ts : List Ptr} {r : Progress × Joining}
      → join_multiple_woken ts s ≡ some r
      → Move s (waits_multiple ts) r.1 (after (waits_multiple ts) r.0)

-- `n` calls, the numbers below `n`, and threads that end, in any order.
pub record System : Type 0 where
  pub joining : Joining
  pub pc : ℕ → Pc

pub data Step (n : ℕ) (s : System) : System → Type 0 where
  moves :
      (i : ℕ) {m : Joining} {p : Pc}
      → i < n
      → Move s.joining (s.pc i) m p
      → Step n s (record { joining = m; pc = update s.pc i p })
  completes :
      (t : Ptr) {m : Joining} → complete t s.joining ≡ some m → Step n s (record s { joining = m })

abbrev pub IsCall : Pc → Type 0
IsCall (calls_single t) = Unit {0}
IsCall (calls_multiple ts) = Unit {0}
IsCall _ = ⊥

-- At the start no call has entered, and no thread is marked or joined.
pub record IsStart (n : ℕ) (s : System) : Type 0 where
  pub outside : (i : ℕ) → i < n → IsCall (s.pc i)
  pub unmarked : (t : Ptr) → ((s.joining.handle1 t).marked ≡ false)
  pub unjoined : (t : Ptr) → ((s.joining.handle1 t).joined ≡ false)

pub data Reach (n : ℕ) (start : System) : System → Type 0 where
  started : Reach n start start
  later : {s t : System} → Reach n start s → Step n s t → Reach n start t
