-- ===== src/Unwind/Verify.antt =====
-- The checks of a build with VERIFY_NLX: verify_nlx_stack and verify_nlx_bef. Both abort the
-- program on a fault; here they give false. The printing before the abort is left out.
use opendylan.Prelude.{
  has, ℕ, zero, suc, ◌<◌, ◌≡◌, ◌≢◌, refl, List, [], ◌∷◌, Bool, true, false, ◌||◌, ◌&&◌, not, Option,
  none, some, arith, ◌==◌, if◌then◌else◌, length, ==_iff, ==_ne, ==_refl, sym, ◌∙◌,
}
use native.Mathlib.Decide.{ℕ_discrete}
use opendylan.Prelude.Store.{Ptr, null}
use opendylan.Unwind.{Thread, setup_unwind_frame, setup_exit_frame}
use opendylan.Unwind.Chain.{Frames, Linked, Linked-same, SameLinks-update}

-- The loop over the stack from `ptr`; none if the fuel runs out, which a cycle can bring about.
verify_loop : ℕ → Ptr → Thread → Option Bool
verify_loop zero ptr t = none
verify_loop (suc fuel) ptr t =
    let rest = verify_loop fuel (t.uwps ptr).previous_unwind_protect_frame t in
    if ptr == t.top_uwp_frame
    then some true
    else if ptr == null
    then some false
    else if not ((t.uwps ptr).verify_teb == t.teb)
    then some false
    else if (t.uwps ptr).previous_unwind_protect_frame == null
    then some false
    else rest

unfoldable pub verify_nlx_stack : ℕ → Thread → Option Bool
unfolding verify_loop
verify_nlx_stack fuel t = verify_loop fuel t.uwp_frame t

-- The walk from `ptr` for the frame `dest`.
reach_loop : ℕ → (dest ptr : Ptr) → Thread → Option Bool
reach_loop zero dest ptr t = none
reach_loop (suc fuel) dest ptr t =
    let rest = reach_loop fuel dest (t.uwps ptr).previous_unwind_protect_frame t in
    if ptr == dest then some true else if ptr == t.top_uwp_frame then some false else rest

unfoldable pub verify_nlx_bef : ℕ → Ptr → Thread → Option Bool
unfolding reach_loop
verify_nlx_bef fuel bef t =
    if not ((t.befs bef).verify_teb == t.teb)
    then some false
    else reach_loop fuel (t.befs bef).present_unwind_protect_frame t.uwp_frame t

-- The frames belong to the thread, and none is at NULL.
abbrev pub Owned : Frames → (teb : Ptr) → List Ptr → Type 0
Owned u teb [] = Unit {0}
Owned u teb (f ∷ fs) = (f ≢ null) × ((u f).verify_teb ≡ teb) × Owned u teb fs

-- The frames `fs` are the thread's unwind-protect frames, the innermost first.
pub record IsStack (t : Thread) (fs : List Ptr) : Type 0 where
  pub linked : Linked t.uwps t.uwp_frame fs t.top_uwp_frame
  pub owned : Owned t.uwps t.teb fs
  pub top : t.top_uwp_frame ≢ null

next-ne-null :
    (u : Frames) (teb a : Ptr) (fs : List Ptr) (stop : Ptr)
    → Linked u a fs stop
    → Owned u teb fs
    → stop ≢ null
    → a ≢ null
next-ne-null u teb a [] stop link own top e = top (sym link ∙ e)
next-ne-null u teb a (f ∷ fs) stop link own top e = own.0 (sym link.0 ∙ e)

verify_loop-true :
    (fuel : ℕ) (a : Ptr) (t : Thread) (fs : List Ptr)
    → length fs < fuel
    → Linked t.uwps a fs t.top_uwp_frame
    → Owned t.uwps t.teb fs
    → t.top_uwp_frame ≢ null
    → verify_loop fuel a t ≡ some true
unfolding verify_loop
verify_loop-true zero a t fs h link own top = elim h [ ]
verify_loop-true (suc fuel) a t [] h link own top = rw ((==_iff _ _).1 link)
verify_loop-true (suc fuel) a t (f ∷ fs) h link own top =
    let next = next-ne-null t.uwps t.teb _ fs _ link.2 own.2 top in
    rw (link.0, ==_ne _ _ link.1, ==_ne _ _ own.0, (==_iff _ _).1 own.1, ==_ne _ _ next)
      (verify_loop-true fuel _ t fs (omega arith) link.2 own.2 top)

verify_loop-step :
    (fuel : ℕ) (a : Ptr) (t : Thread)
    → verify_loop (suc fuel) a t ≡ some true
    → a ≢ t.top_uwp_frame
    → (a ≢ null)
      × ((t.uwps a).verify_teb ≡ t.teb)
      × (verify_loop fuel (t.uwps a).previous_unwind_protect_frame t ≡ some true)
unfolding verify_loop
verify_loop-step fuel a t h ne = ground arith

verify_loop_sound :
    (fuel : ℕ) (a : Ptr) (t : Thread)
    → verify_loop fuel a t ≡ some true
    → (fs : List Ptr) × Linked t.uwps a fs t.top_uwp_frame × Owned t.uwps t.teb fs
unfolding verify_loop
verify_loop_sound zero a t h = cc
verify_loop_sound (suc fuel) a t h = elim (ℕ_discrete a t.top_uwp_frame) [
  | yes e ↦ ([], e, tt)
  | no ne ↦
      let s = verify_loop-step fuel a t h ne in
      let (fs, link, own) = verify_loop_sound fuel (t.uwps a).previous_unwind_protect_frame t s.2 in
      (a ∷ fs, (refl, ne, link), (s.0, s.1, own))
]

-- verify_nlx_stack passes, given one more round than there are frames, on every stack of frames
-- of the thread; and what it passes is such a stack.
pub verify_nlx_stack-IsStack :
    (t : Thread)
    → t.top_uwp_frame ≢ null
    → ((fs : List Ptr) (fuel : ℕ)
        → IsStack t fs
        → length fs < fuel
        → verify_nlx_stack fuel t ≡ some true)
      × ((fuel : ℕ) → verify_nlx_stack fuel t ≡ some true → (fs : List Ptr) × IsStack t fs)
unfolding verify_nlx_stack
verify_nlx_stack-IsStack t top = (
  λ fs fuel s h. verify_loop-true fuel t.uwp_frame t fs h s.linked s.owned top,
  λ fuel h.
      let (fs, link, own) = verify_loop_sound fuel t.uwp_frame t h in
      (fs, record { linked = link; owned = own; top = top }),
)

-- The walk finds the destination exactly when it is a frame of the stack or the top.
reach_loop-has :
    (fuel : ℕ) (dest a : Ptr) (t : Thread) (fs : List Ptr)
    → length fs < fuel
    → Linked t.uwps a fs t.top_uwp_frame
    → reach_loop fuel dest a t ≡ some ((dest == t.top_uwp_frame) || has dest fs)
unfolding reach_loop
reach_loop-has zero dest a t fs h link = elim h [ ]
reach_loop-has (suc fuel) dest a t [] h link = ground arith
reach_loop-has (suc fuel) dest a t (f ∷ fs) h link = rw link.0 (
    ground (
      arith,
      link.1,
      reach_loop-has fuel dest (t.uwps f).previous_unwind_protect_frame t fs (omega arith) link.2,
    ))

-- verify_nlx_bef answers whether the exit frame belongs to the thread and its unwind-protect
-- frame is on the stack or is the top.
pub verify_nlx_bef-has :
    (bef : Ptr) (t : Thread) (fs : List Ptr) (fuel : ℕ)
    → IsStack t fs
    → length fs < fuel
    → let dest = (t.befs bef).present_unwind_protect_frame in
      verify_nlx_bef fuel bef t
      ≡ some ((t.befs bef).verify_teb == t.teb && ((dest == t.top_uwp_frame) || has dest fs))
unfolding verify_nlx_bef
verify_nlx_bef-has bef t fs fuel s h =
    rw (reach_loop-has fuel _ t.uwp_frame t fs h s.linked) (ground arith)

Owned-update :
    (t : Thread) (f : Ptr) (fs : List Ptr)
    → Owned t.uwps t.teb fs
    → has f fs ≡ false
    → Owned (setup_unwind_frame f t).1.uwps t.teb fs
unfolding setup_unwind_frame
Owned-update t f [] own out = tt
Owned-update t f (g ∷ fs) own out = (own.0, ground arith, Owned-update t f fs own.2 (ground arith))

push-IsStack :
    (f : Ptr) (t : Thread) (fs : List Ptr)
    → IsStack t fs
    → has f fs ≡ false
    → f ≢ t.top_uwp_frame
    → f ≢ null
    → IsStack (setup_unwind_frame f t).1 (f ∷ fs)
unfolding setup_unwind_frame
push-IsStack f t fs s out ne real =
    let own = Owned-update t f fs s.owned out in
    let same = SameLinks-update t.uwps f _ fs out in
    record {
      linked = (
        refl,
        ne,
        rw (==_refl f) (
            Linked-same t.uwps (setup_unwind_frame f t).1.uwps t.uwp_frame fs t.top_uwp_frame same
              s.linked),
      );
      owned = (real, rw (==_refl f), own);
      top = s.top;
    }

exit_frame-verify :
    (b f : Ptr) (t : Thread) (fs : List Ptr)
    → t.uwp_frame ≡ f
    → IsStack t (f ∷ fs)
    → verify_nlx_bef (suc (suc (length fs))) b (setup_exit_frame b t).1 ≡ some true
unfolding setup_exit_frame
exit_frame-verify b f t fs e s =
    let t' = (setup_exit_frame b t).1 in
    let stack : IsStack t' (f ∷ fs) = record { linked = s.linked; owned = s.owned; top = s.top } in
    verify_nlx_bef-has b t' (f ∷ fs) (suc (suc (length fs))) stack (omega arith)
    ∙ rw (==_refl b, e, ==_refl f) (ground arith)

-- SETUP_UNWIND_FRAME at a new address pushes the frame, with no exit pending in it; an exit frame
-- set up next passes verify_nlx_bef.
pub setup_unwind_frame-IsStack :
    (f b : Ptr) (t : Thread) (fs : List Ptr)
    → IsStack t fs
    → has f fs ≡ false
    → f ≢ t.top_uwp_frame
    → f ≢ null
    → let t' = (setup_unwind_frame f t).1 in
      IsStack t' (f ∷ fs)
      × ((t'.uwps f).ultimate_destination ≡ null)
      × (verify_nlx_bef (suc (suc (length fs))) b (setup_exit_frame b t').1 ≡ some true)
setup_unwind_frame-IsStack f b t fs s out ne real =
    let pushed = push-IsStack f t fs s out ne real in
    (
      pushed,
      unfold setup_unwind_frame in rw (==_refl f),
      exit_frame-verify b f (setup_unwind_frame f t).1 fs (unfold setup_unwind_frame in refl)
          pushed,
    )
