-- ===== src/Tests/SemaphoreTests.antt =====
-- A semaphore of sources/lib/run-time/posix-threads.c, and the theorem about its count.
use opendylan.Prelude.{false, ℕ, ◌≡◌, refl, some}
use opendylan.Prelude.Int.{pos, ◌+ℤ◌, ◌-ℤ◌}
use opendylan.Threads.Mutex.{ok}
use opendylan.Threads.Semaphores.{
  Semaphore, answers, sleeps, make_semaphore, wait_for_semaphore, release_semaphore, Reach, made,
  takes, waits, gives,
}
use opendylan.Threads.Semaphores.Count.{Counts, Reach-Counts}

abbrev of_count : ℕ → Semaphore
of_count n = record { count = pos n; max_count = pos 2; locked = false }

takes_last : wait_for_semaphore (of_count 1) ≡ some (answers ok, of_count 0)
unfolding wait_for_semaphore ◌-ℤ◌
takes_last = refl

waits_empty : wait_for_semaphore (of_count 0) ≡ some (sleeps, of_count 0)
unfolding wait_for_semaphore
waits_empty = refl

gives_back : release_semaphore (of_count 0) ≡ some (answers ok, of_count 1)
unfolding release_semaphore ◌+ℤ◌
gives_back = refl

used : Reach (pos 1) (pos 2) (of_count 1) 1 1
unfolding make_semaphore
used = gives (waits (takes made takes_last) waits_empty) gives_back

Reach-Counts_example : Counts (pos 1) (pos 2) (of_count 1) 1 1
Reach-Counts_example = Reach-Counts (pos 1) (pos 2) (of_count 1) 1 1 used
