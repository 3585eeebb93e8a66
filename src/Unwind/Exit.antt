-- ===== src/Unwind/Exit.antt =====
-- A non-local exit: `NLX`, the cleanups that it jumps to, and the CONTINUE_UNWIND behind each.
use opendylan.Prelude.{
  has, ℕ, zero, suc, ◌≡◌, ◌≢◌, refl, List, [], ◌∷◌, true, arith, length, sym, ◌∙◌, ap, ==_iff,
  ==_ne, ==_refl,
}
use opendylan.Prelude.Store.{Ptr, null, update}
use opendylan.Unwind.{
  Thread, BindExitFrame, Control, returns, jump_cleanup, jump_exit, set_ultimate, nlx_step,
  continue_unwind, nlx, save_values,
}
use opendylan.Unwind.Chain.{Linked, SameLinks, SameLinks-of, Linked-same}
use opendylan.Values.{Value, Mv}

-- The code of the cleanups that the compiler emits is a parameter: what the cleanup of a frame
-- does to the thread. A jump to a cleanup runs it, and CONTINUE_UNWIND follows. The result is the
-- cleanups that ran, where control is at last, and the state there; `fuel` bounds their number.
unfoldable pub run : (Ptr → Thread → Thread) → ℕ → Control × Thread → List Ptr × Control × Thread
run cleanup zero (c, t) = ([], c, t)
run cleanup (suc fuel) (jump_cleanup f, t) =
    let (fs, c, t') = run cleanup fuel (continue_unwind (cleanup f t)) in (f ∷ fs, c, t')
run cleanup (suc fuel) (returns v, t) = ([], returns v, t)
run cleanup (suc fuel) (jump_exit b, t) = ([], jump_exit b, t)

-- A cleanup that gives back what it was given: the current frame, the links of the frames in
-- `live`, the pending destination and the exit frame `target`. It may use frames of its own.
pub record IsTidy (cleanup : Ptr → Thread → Thread) (live : List Ptr) (target : Ptr) : Type 0 where
  pub keeps_frame : (f : Ptr) (t : Thread) → (cleanup f t).uwp_frame ≡ t.uwp_frame
  pub keeps_links :
      (f : Ptr) (t : Thread) (a : Ptr)
      → has a live ≡ true
      → ((cleanup f t).uwps a).previous_unwind_protect_frame
        ≡ (t.uwps a).previous_unwind_protect_frame
  pub keeps_ultimate :
      (f : Ptr) (t : Thread)
      → ((cleanup f t).uwps t.uwp_frame).ultimate_destination
        ≡ (t.uwps t.uwp_frame).ultimate_destination
  pub keeps_target : (f : Ptr) (t : Thread) → (cleanup f t).befs target ≡ t.befs target

-- How an exit ends: the cleanups `fs` ran, and control is at the exit frame, in its context.
pub record Unwound (fs : List Ptr) (stop target : Ptr) (values : Mv)
    (r : List Ptr × Control × Thread) : Type 0 where
  pub ran : r.0 ≡ fs
  pub arrived : r.1 ≡ jump_exit target
  pub context : r.2.uwp_frame ≡ stop
  pub cleared : (r.2.uwps stop).ultimate_destination ≡ null
  pub carried : (r.2.befs target).return_values ≡ values

abbrev pub popped : Ptr → Thread → Thread
popped target t =
    let previous = (t.uwps t.uwp_frame).previous_unwind_protect_frame in
    set_ultimate previous target (record t { uwp_frame = previous })

-- The three ways of a step.
step-arrive :
    (target : Ptr) (t : Thread)
    → t.uwp_frame ≡ (t.befs target).present_unwind_protect_frame
    → nlx_step target t ≡ (jump_exit target, set_ultimate t.uwp_frame null t)
unfolding nlx_step
step-arrive target t e = rw ((==_iff _ _).1 e)

step-pop :
    (target : Ptr) (t : Thread)
    → t.uwp_frame ≢ (t.befs target).present_unwind_protect_frame
    → nlx_step target t ≡ (jump_cleanup t.uwp_frame, popped target t)
unfolding nlx_step
step-pop target t e = rw (==_ne _ _ e)

pub continue-pending :
    (target : Ptr) (t : Thread)
    → target ≢ null
    → (t.uwps t.uwp_frame).ultimate_destination ≡ target
    → continue_unwind t ≡ nlx_step target t
unfolding continue_unwind
continue-pending target t real e = rw (e, ==_ne _ _ real)

module _ (cleanup : Ptr → Thread → Thread) (live : List Ptr) (target stop : Ptr)
    (tidy : IsTidy cleanup live target) (real : target ≢ null) where
  open tidy use {keeps_frame, keeps_links, keeps_ultimate, keeps_target}

  tidy-SameLinks :
      (f : Ptr) (t : Thread) (fs : List Ptr)
      → ((a : Ptr) → has a fs ≡ true → has a live ≡ true)
      → SameLinks t.uwps (cleanup f t).uwps fs
  tidy-SameLinks f t [] sub = tt
  tidy-SameLinks f t (g ∷ fs) sub = (
    keeps_links f t g (sub g (ground arith)),
    tidy-SameLinks f t fs (λ a h. sub a (ground arith)),
  )

  -- A frame that is popped keeps the links below it, and a step from there is what continues.
  popped-Linked :
      (f : Ptr) {h : Ptr} (fs : List Ptr) (t : Thread)
      → ((a : Ptr) → has a (h ∷ fs) ≡ true → has a live ≡ true)
      → Linked t.uwps t.uwp_frame (h ∷ fs) stop
      → Linked (cleanup f (popped target t)).uwps (cleanup f (popped target t)).uwp_frame fs stop
  popped-Linked f fs t sub link =
      let t' = popped target t in
      rw (keeps_frame f t') (
        Linked-same t'.uwps (cleanup f t').uwps t'.uwp_frame fs stop
          (tidy-SameLinks f t' fs (λ a h. sub a (ground arith)))
          (Linked-same t.uwps t'.uwps t'.uwp_frame fs stop
            (SameLinks-of t.uwps t'.uwps fs (λ a. ground arith)) (rw link.0 link.2)))

  popped-continue :
      (f : Ptr) (t : Thread)
      → continue_unwind (cleanup f (popped target t))
        ≡ nlx_step target (cleanup f (popped target t))
  popped-continue f t =
      let t' = popped target t in
      continue-pending target (cleanup f t') real
        (rw (keeps_frame f t') (keeps_ultimate f t' ∙ ground arith))

  -- The unwinding of the frames `fs` by `nlx_step`.
  nlx_step-Unwound :
      (fs : List Ptr) (t : Thread)
      → ((a : Ptr) → has a fs ≡ true → has a live ≡ true)
      → Linked t.uwps t.uwp_frame fs stop
      → (t.befs target).present_unwind_protect_frame ≡ stop
      → Unwound fs stop target
          (t.befs target).return_values
          (run cleanup (suc (length fs)) (nlx_step target t))
  unfolding run
  nlx_step-Unwound [] t sub link here = rw (step-arrive target t (link ∙ sym here)) (record {
    ran = refl;
    arrived = refl;
    context = link;
    cleared = ground arith;
    carried = refl;
  })
  nlx_step-Unwound (f ∷ fs) t sub link here =
      let g = t.uwp_frame in
      let t' = cleanup g (popped target t) in
      let same = keeps_target g (popped target t) in
      let rest =
        nlx_step-Unwound fs t' (λ a h. sub a (ground arith)) (popped-Linked g fs t sub link)
          (rw same here) in
      rw (step-pop target t (λ e. link.1 (sym link.0 ∙ e ∙ here)), run, popped-continue g t)
        (record {
          ran = cc (link.0, rest.ran);
          arrived = rest.arrived;
          context = rest.context;
          cleared = rest.cleared;
          carried = rest.carried ∙ ap BindExitFrame.return_values same;
        })

  -- Where every cleanup gives back what it was given (IsTidy), and the frames are linked from the
  -- current one to that of the exit frame, NLX runs the cleanups of the frames between the two, each
  -- once and the innermost first, and control ends at the exit frame, in its own unwinding context,
  -- with no exit pending there and the values that NLX was given.
  pub nlx-Unwound :
      (fs : List Ptr) (argument : Value) (t : Thread)
      → ((a : Ptr) → has a fs ≡ true → has a live ≡ true)
      → Linked t.uwps t.uwp_frame fs stop
      → (t.befs target).present_unwind_protect_frame ≡ stop
      → Unwound fs stop target
          (save_values argument (t.befs target).return_values t.return_values)
          (run cleanup (suc (length fs)) (nlx target argument t))
  unfolding nlx
  nlx-Unwound fs argument t sub link here =
      let old = t.befs target in
      let values = save_values argument old.return_values t.return_values in
      let t' = record t { befs = update t.befs target (record old { return_values = values }) } in
      let r = nlx_step-Unwound fs t' sub link (rw (==_refl target) here) in
      let new : (t'.befs target).return_values ≡ values = rw (==_refl target) in
      record {
        ran = r.ran;
        arrived = r.arrived;
        context = r.context;
        cleared = r.cleared;
        carried = r.carried ∙ new;
      }
