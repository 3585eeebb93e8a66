-- ===== src/Unwind.antt =====
-- Non-local exits: sources/lib/run-time/c-run-time-nlx.c. A thread's unwind-protect frames form a
-- list from `teb->uwp_frame` by `previous_unwind_protect_frame` down to `teb->top_uwp_frame`.
-- `nlx_longjmp` does not return: the functions give the frame whose destination is jumped to.
pub mod Chain
pub mod Exit
pub mod Through
pub mod Verify
use opendylan.Prelude.{ℕ, ◌-◌, ◌≡◌, Bool, ltb, ◌==◌, if◌then◌else◌}
use opendylan.Prelude.Store.{Ptr, null, update, copy_words}
use opendylan.Values.{Value, Mv}

-- `Bind_exit_frame`. Its jump buffer is known by the frame's address.
pub record BindExitFrame : Type 0 where
  pub return_values : Mv
  pub present_unwind_protect_frame : Ptr
  pub verify_teb : Ptr

-- `Unwind_protect_frame`.
pub record UnwindProtectFrame : Type 0 where
  pub return_values : Mv
  pub ultimate_destination : Ptr
  pub previous_unwind_protect_frame : Ptr
  pub verify_teb : Ptr

-- The part of a thread's TEB that unwinding uses, with the frames that it points to. `teb` and
-- `top_uwp_frame` are addresses, and `dfalse` is the address of the object #f.
pub record Thread : Type 0 where
  pub teb : Ptr
  pub dfalse : Value
  pub return_values : Mv
  pub uwp_frame : Ptr
  pub top_uwp_frame : Ptr
  pub uwps : Ptr → UnwindProtectFrame
  pub befs : Ptr → BindExitFrame

-- Where control goes: back to the caller, to a cleanup, or to the end of a block.
pub data Control : Type 0 where
  returns : Value → Control
  jump_cleanup : Ptr → Control
  jump_exit : Ptr → Control

-- `p->ultimate_destination = target`
abbrev pub set_ultimate : Ptr → Ptr → Thread → Thread
set_ultimate p target t = record t {
  uwps = update t.uwps p (record (t.uwps p) { ultimate_destination = target });
}

unfoldable pub nlx_step : Ptr → Thread → Control × Thread
nlx_step target t =
    if t.uwp_frame == (t.befs target).present_unwind_protect_frame
    then (jump_exit target, set_ultimate t.uwp_frame null t)
    else let next_frame = t.uwp_frame in
      let previous = (t.uwps next_frame).previous_unwind_protect_frame in
      (jump_cleanup next_frame, set_ultimate previous target (record t { uwp_frame = previous }))

-- The values of the thread with `argument` for the first, written over those that `old` holds.
abbrev pub save_values : Value → Mv → Mv → Mv
save_values argument old new = record {
  count = new.count;
  value =
      let first = update old.value 0 argument in
      if ltb 1 new.count then copy_words 1 (new.count - 1) first new.value else first;
}

unfoldable pub fall_through_unwind : Value → Thread → Value × Thread
fall_through_unwind argument t =
    let frame = t.uwps t.uwp_frame in
    let frame' = record frame {
      return_values = save_values argument frame.return_values t.return_values;
      ultimate_destination = null;
    } in
    (null, record t { uwps = update t.uwps t.uwp_frame frame' })

unfoldable pub continue_unwind : Thread → Control × Thread
unfolding nlx_step
continue_unwind t =
    let frame = t.uwps t.uwp_frame in
    if frame.ultimate_destination == null
    then (let n = frame.return_values.count in
        let value = copy_words 0 n t.return_values.value frame.return_values.value in
        (
          returns (if n == 0 then t.dfalse else value 0),
          record t {
            return_values = record { count = n; value = value };
            uwp_frame = frame.previous_unwind_protect_frame;
          },
        ))
    else nlx_step frame.ultimate_destination t

unfoldable pub nlx : Ptr → Value → Thread → Control × Thread
unfolding nlx_step
nlx target argument t =
    let frame = t.befs target in
    let frame' = record frame {
      return_values = save_values argument frame.return_values t.return_values;
    } in
    nlx_step target (record t { befs = update t.befs target frame' })

unfoldable pub setup_exit_frame : Ptr → Thread → Ptr × Thread
setup_exit_frame frame t =
    let frame' = record (t.befs frame) {
      verify_teb = t.teb;
      present_unwind_protect_frame = t.uwp_frame;
    } in
    (frame, record t { befs = update t.befs frame frame' })

unfoldable pub setup_unwind_frame : Ptr → Thread → Ptr × Thread
setup_unwind_frame frame t =
    let frame' = record (t.uwps frame) {
      verify_teb = t.teb;
      previous_unwind_protect_frame = t.uwp_frame;
      ultimate_destination = null;
    } in
    (frame, record t { uwps = update t.uwps frame frame'; uwp_frame = frame })

-- The jump buffer is the first member of a frame, so its address is the frame's.
unfoldable pub frame_dest : Ptr → Ptr
frame_dest frame = frame

unfoldable pub frame_retval : Ptr → Thread → Value × Thread
frame_retval frame t =
    let saved = (t.befs frame).return_values in
    (
      saved.value 0,
      record t {
        return_values = record {
          count = saved.count;
          value = copy_words 0 saved.count t.return_values.value saved.value;
        };
      },
    )
