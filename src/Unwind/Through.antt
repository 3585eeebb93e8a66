-- ===== src/Unwind/Through.antt =====
-- Unwind-protect without an exit, the values that frames carry, and an exit inside a cleanup.
use opendylan.Prelude.{ℕ, ◌≤◌, ◌<◌, ◌≡◌, ◌≢◌, refl, arith, ◌==◌, if◌then◌else◌, ap, ==_iff}
use opendylan.Prelude.Store.{Ptr, null, copy_words}
use opendylan.Unwind.{
  Thread, Control, returns, jump_exit, save_values, fall_through_unwind, continue_unwind, nlx_step,
  nlx, setup_exit_frame, frame_retval,
}
use opendylan.Unwind.Exit.{continue-pending}
use opendylan.Values.{Value, Mv}

-- `v` holds `argument` and then the further values of `new`.
pub record Carries (argument : Value) (new v : Mv) : Type 0 where
  pub count : v.count ≡ new.count
  pub first : 0 < new.count → v.value 0 ≡ argument
  pub others : (i : ℕ) → 1 ≤ i → i < new.count → v.value i ≡ new.value i

save_values-Carries :
    (argument : Value) (old new : Mv) → Carries argument new (save_values argument old new)
save_values-Carries argument old new = record {
  count = refl;
  first = ground arith;
  others = λ i lo hi. ground arith;
}

-- What CONTINUE_UNWIND does when no exit is pending.
continue-through :
    (t : Thread)
    → (t.uwps t.uwp_frame).ultimate_destination ≡ null
    → let saved = (t.uwps t.uwp_frame).return_values in
      let value = copy_words 0 saved.count t.return_values.value saved.value in
      continue_unwind t ≡ (
        returns (if saved.count == 0 then t.dfalse else value 0),
        record t {
          return_values = record { count = saved.count; value = value };
          uwp_frame = (t.uwps t.uwp_frame).previous_unwind_protect_frame;
        },
      )
unfolding continue_unwind
continue-through t e = rw ((==_iff _ _).1 e)

-- A protected body that ends normally with `argument` and the values `new`.
pub record EndsThrough (argument : Value) (t : Thread) (r : Control × Thread) : Type 0 where
  pub control : r.0 ≡ returns (if t.return_values.count == 0 then t.dfalse else argument)
  pub context : r.1.uwp_frame ≡ (t.uwps t.uwp_frame).previous_unwind_protect_frame
  pub values : Carries argument t.return_values r.1.return_values

-- FALL_THROUGH_UNWIND, a cleanup that keeps the current frame and gives back its contents, and
-- CONTINUE_UNWIND: the frame is popped and the values of the body are returned, whatever values
-- the cleanup left; with no values the result is #f.
pub fall_through-continue :
    (cleanup : Thread → Thread)
    → ((t : Thread)
        → ((cleanup t).uwp_frame ≡ t.uwp_frame)
          × ((cleanup t).uwps t.uwp_frame ≡ t.uwps t.uwp_frame)
          × ((cleanup t).dfalse ≡ t.dfalse))
    → (argument : Value) (t : Thread)
    → EndsThrough argument t (continue_unwind (cleanup (fall_through_unwind argument t).1))
unfolding fall_through_unwind
fall_through-continue cleanup keeps argument t =
    let t' = (fall_through_unwind argument t).1 in
    let k = keeps t' in
    let frame : (cleanup t').uwps (cleanup t').uwp_frame ≡ t'.uwps t'.uwp_frame = rw k.0 k.1 in
    let idle : ((cleanup t').uwps (cleanup t').uwp_frame).ultimate_destination ≡ null =
      rw frame (ground arith) in
    rw (continue-through (cleanup t') idle, frame, k.2)
      (record {
        control = ground arith;
        context = ground arith;
        values = record {
          count = ground arith;
          first = ground arith;
          others = λ i lo hi. ground arith;
        };
      })

-- FRAME_RETVAL at an exit frame that NLX filled gives the argument and its further values.
pub frame_retval-Carries :
    (target : Ptr) (argument : Value) (old new : Mv) (t : Thread)
    → (t.befs target).return_values ≡ save_values argument old new
    → ((frame_retval target t).0 ≡ argument)
      × Carries argument new (frame_retval target t).1.return_values
unfolding frame_retval
frame_retval-Carries target argument old new t e =
    rw e (
      ground arith,
      record { count = refl; first = ground arith; others = λ i lo hi. ground arith },
    )

-- A local exit inside a cleanup that runs on behalf of an exit to `pending`: SETUP_EXIT_FRAME and
-- NLX to that frame. The exit arrives, but the pending destination is lost.
pub record LosesExit (b : Ptr) (t : Thread) (r : Control × Thread) : Type 0 where
  pub arrived : r.0 ≡ jump_exit b
  pub before : continue_unwind t ≡ nlx_step (t.uwps t.uwp_frame).ultimate_destination t
  pub after : (v : Value) × ((continue_unwind r.1).0 ≡ returns v)

local_exit_state :
    (b : Ptr) (argument : Value) (t : Thread)
    → let r = nlx b argument (setup_exit_frame b t).1 in
      (r.0 ≡ jump_exit b)
      × (r.1.uwp_frame ≡ t.uwp_frame)
      × ((r.1.uwps t.uwp_frame).ultimate_destination ≡ null)
unfolding nlx nlx_step setup_exit_frame
local_exit_state b argument t = (ground arith, ground arith, ground arith)

-- While an exit is pending in the current frame, CONTINUE_UNWIND would go on with it; after a
-- local exit has come and gone in the cleanup, CONTINUE_UNWIND returns to its caller instead.
pub nlx-LosesExit :
    (b : Ptr) (argument : Value) (t : Thread)
    → (t.uwps t.uwp_frame).ultimate_destination ≢ null
    → LosesExit b t (nlx b argument (setup_exit_frame b t).1)
nlx-LosesExit b argument t pending =
    let e = local_exit_state b argument t in
    record {
      arrived = e.0;
      before = continue-pending _ t pending refl;
      after = (_, ap (λ (r : Control × Thread). r.0) (continue-through _ (rw e.1 e.2)));
    }
