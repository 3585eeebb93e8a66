-- ===== src/Tests/JoinTests.antt =====
-- Runs of the joins of sources/lib/run-time/posix-threads.c, and the theorems about them.
use opendylan.Prelude.{ℕ, ◌≡◌, ◌≢◌, refl, arith, true, false, List, [], ◌∷◌, none, some}
use opendylan.Prelude.Store.{Ptr, update}
use opendylan.Threads.Mutex.{general_error}
use opendylan.Threads.Join.{
  Flags, Joining, answers, joins, join_single_rest, thread_join_single, join_single_woken,
  some_taken, mark_all, first_completed, thread_join_multiple, join_multiple_woken, complete,
  calls_single, ended, System, IsStart, Reach, started, later, moves, enters_single,
}
use opendylan.Threads.Join.Once.{Reach-Once}
use opendylan.Threads.Join.Outcome.{
  thread_join_multiple_lem, thread_join_multiple-held, thread_join_single-twice,
}

abbrev running : Flags
running = record { completed = false; marked = false; joined = false }

abbrev done : Flags
done = record { completed = true; marked = false; joined = false }

-- Of all threads only 8 has completed.
abbrev one_done : Joining
one_done = record { handle1 = update (λ _. running) 8 done; locked = false }

-- Two calls for thread 8.
abbrev two_calls : System
two_calls = record { joining = one_done; pc = λ _. calls_single 8 }

abbrev joined_8 : System
joined_8 = record {
  joining = record {
    handle1 =
        update (update (update (λ _. running) 8 done) 8 (record done { marked = true })) 8
          (record { completed = true; marked = false; joined = true });
    locked = false;
  };
  pc = update (λ _. calls_single 8) 0 (ended (joins 8));
}

two_calls-IsStart : IsStart 2 two_calls
two_calls-IsStart = record {
  outside = λ i lt. tt;
  unmarked = λ t. ground arith;
  unjoined = λ t. ground arith;
}

enters : thread_join_single 8 one_done ≡ some (joins 8, joined_8.joining)
unfolding thread_join_single join_single_rest
enters = refl

joined_8-Reach : Reach 2 two_calls joined_8
joined_8-Reach = later started (moves 0 (omega arith) (enters_single enters))

Reach-Once_example : (◌≡◌ {A = ℕ} 0 0) × ((joined_8.joining.handle1 8).joined ≡ true)
Reach-Once_example =
    Reach-Once 2 two_calls two_calls-IsStart joined_8 8 0 0 joined_8-Reach (omega arith)
      (omega arith) refl refl

-- The second call is refused.
refuses : thread_join_single 8 joined_8.joining ≡ some (answers general_error, joined_8.joining)
unfolding thread_join_single
refuses = refl

finds : first_completed (7 ∷ 8 ∷ []) (mark_all (7 ∷ 8 ∷ []) one_done.handle1) ≡ some 8
unfolding first_completed mark_all
finds = refl

all_free : some_taken (7 ∷ 8 ∷ []) one_done.handle1 ≡ false
unfolding some_taken
all_free = refl

thread_join_multiple_lem_example :
    (k : Joining) × (thread_join_multiple (7 ∷ 8 ∷ []) one_done ≡ some (joins 8, k))
    × (k.locked ≡ false)
    × ((k.handle1 8).joined ≡ true)
    × ((u : Ptr) → u ≢ 8 → (k.handle1 u).joined ≡ (one_done.handle1 u).joined)
    × ((u : Ptr) → (k.handle1 u).marked ≡ (one_done.handle1 u).marked)
thread_join_multiple_lem_example =
    thread_join_multiple_lem (7 ∷ 8 ∷ []) one_done 8 refl (refl, (refl, tt)) all_free finds

taken : some_taken (7 ∷ 8 ∷ []) joined_8.joining.handle1 ≡ true
unfolding some_taken
taken = refl

thread_join_multiple-held_example :
    (k : Joining) × (thread_join_multiple (7 ∷ 8 ∷ []) joined_8.joining
      ≡ some (answers general_error, k))
    × ((t : Ptr)
        → (complete t k ≡ none) × (thread_join_single t k ≡ none) × (join_single_woken t k ≡ none))
    × ((us : List Ptr) → (thread_join_multiple us k ≡ none) × (join_multiple_woken us k ≡ none))
thread_join_multiple-held_example =
    thread_join_multiple-held (7 ∷ 8 ∷ []) joined_8.joining refl taken

thread_join_single-twice_example :
    (k : Joining) × (thread_join_multiple (7 ∷ 7 ∷ 8 ∷ []) one_done ≡ some (joins 8, k))
    × (thread_join_single 7 k ≡ some (answers general_error, k))
thread_join_single-twice_example = thread_join_single-twice one_done 7 8 refl all_free refl refl
