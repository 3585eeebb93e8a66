-- ===== src/Tests/UnwindTests.antt =====
-- Non-local exits in a thread with two unwind-protect frames, at 30 and 20, over the top frame 10.
-- The block with the exit frame at 5 was entered before either.
use opendylan.Prelude.{
  ◌+◌, ◌<◌, ℕ, ◌≡◌, refl, List, [], ◌∷◌, true, some, arith, length, ◌==◌, if◌then◌else◌,
}
use opendylan.Prelude.Store.{Ptr, null}
use opendylan.Unwind.{
  UnwindProtectFrame, Thread, jump_exit, nlx, save_values, continue_unwind, fall_through_unwind,
  setup_exit_frame,
}
use opendylan.Unwind.Exit.{run, IsTidy, Unwound, nlx-Unwound}
use opendylan.Unwind.Through.{EndsThrough, LosesExit, fall_through-continue, nlx-LosesExit}
use opendylan.Unwind.Verify.{IsStack, verify_nlx_stack, verify_nlx_stack-IsStack}
use opendylan.Values.{Mv}

abbrev two_values : Mv
two_values = record { count = 2; value = λ i. 100 + i }

abbrev uwp : Ptr → UnwindProtectFrame
uwp previous = record {
  return_values = record { count = 0; value = λ i. 0 };
  ultimate_destination = null;
  previous_unwind_protect_frame = previous;
  verify_teb = 1;
}

abbrev thread : Thread
thread = record {
  teb = 1;
  dfalse = 2;
  return_values = two_values;
  uwp_frame = 30;
  top_uwp_frame = 10;
  uwps = λ a. if a == 30 then uwp 20 else if a == 20 then uwp 10 else uwp 0;
  befs = λ a. record {
    return_values = record { count = 0; value = λ i. 0 };
    present_unwind_protect_frame = 10;
    verify_teb = 1;
  };
}

abbrev idle : Ptr → Thread → Thread
idle f t = t

idle-IsTidy : IsTidy idle (30 ∷ 20 ∷ []) 5
idle-IsTidy = record {
  keeps_frame = λ f t. refl;
  keeps_links = λ f t a h. refl;
  keeps_ultimate = λ f t. refl;
  keeps_target = λ f t. refl;
}

nlx-Unwound_example :
    Unwound
      (30 ∷ 20 ∷ [])
      10
      5
      (save_values 7 (thread.befs 5).return_values two_values)
      (run idle 3 (nlx 5 7 thread))
nlx-Unwound_example =
    nlx-Unwound idle (30 ∷ 20 ∷ []) 5 10 idle-IsTidy (omega arith) (30 ∷ 20 ∷ []) 7 thread
      (λ a h. h) (refl, omega arith, (refl, omega arith, refl)) refl

-- The two cleanups run, and the block is left.
nlx_runs : (run idle 3 (nlx 5 7 thread)).1 ≡ jump_exit 5
unfolding run nlx continue_unwind
nlx_runs = refl

fall_through-continue_example :
    EndsThrough 7 thread (continue_unwind (fall_through_unwind 7 thread).1)
fall_through-continue_example = fall_through-continue (λ t. t) (λ t. (refl, refl, refl)) 7 thread

abbrev pending : Thread
pending = record thread { uwps = λ a. record (uwp 10) { ultimate_destination = 5 } }

nlx-LosesExit_example : LosesExit 6 pending (nlx 6 7 (setup_exit_frame 6 pending).1)
nlx-LosesExit_example = nlx-LosesExit 6 7 pending (omega arith)

thread-IsStack : IsStack thread (30 ∷ 20 ∷ [])
thread-IsStack = record {
  linked = (refl, omega arith, (refl, omega arith, refl));
  owned = (omega arith, refl, (omega arith, refl, tt));
  top = omega arith;
}

verify_nlx_stack-IsStack_example :
    ((fs : List Ptr) (fuel : ℕ)
      → IsStack thread fs
      → length fs < fuel
      → verify_nlx_stack fuel thread ≡ some true)
    × ((fuel : ℕ) → verify_nlx_stack fuel thread ≡ some true → (fs : List Ptr) × IsStack thread fs)
verify_nlx_stack-IsStack_example = verify_nlx_stack-IsStack thread (omega arith)
