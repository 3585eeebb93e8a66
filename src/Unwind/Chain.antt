-- ===== src/Unwind/Chain.antt =====
-- The list of unwind-protect frames that a thread's state holds.
use opendylan.Prelude.{has, ◌≡◌, ◌≢◌, List, [], ◌∷◌, false, arith}
use opendylan.Prelude.Store.{Ptr, update}
use opendylan.Unwind.{UnwindProtectFrame}

abbrev pub Frames : Type 0
Frames = Ptr → UnwindProtectFrame

-- From `a` the previous frames are `fs`, none of them `stop`, and then `stop`.
abbrev pub Linked : Frames → Ptr → List Ptr → Ptr → Type 0
Linked u a [] stop = a ≡ stop
Linked u a (f ∷ fs) stop =
    (a ≡ f) × (f ≢ stop) × Linked u (u f).previous_unwind_protect_frame fs stop

-- Two memories agree on the links of the frames in `fs`.
abbrev pub SameLinks : Frames → Frames → List Ptr → Type 0
SameLinks u w [] = Unit {0}
SameLinks u w (f ∷ fs) =
    ((w f).previous_unwind_protect_frame ≡ (u f).previous_unwind_protect_frame) × SameLinks u w fs

pub Linked-same :
    (u w : Frames) (a : Ptr) (fs : List Ptr) (stop : Ptr)
    → SameLinks u w fs
    → Linked u a fs stop
    → Linked w a fs stop
Linked-same u w a [] stop same h = h
Linked-same u w a (f ∷ fs) stop same h =
    (h.0, h.1, rw same.0 (Linked-same u w _ fs stop same.1 h.2))

pub SameLinks-of :
    (u w : Frames) (fs : List Ptr)
    → ((a : Ptr) → (w a).previous_unwind_protect_frame ≡ (u a).previous_unwind_protect_frame)
    → SameLinks u w fs
SameLinks-of u w [] h = tt
SameLinks-of u w (f ∷ fs) h = (h f, SameLinks-of u w fs h)

-- A frame that is not in the list may be written.
pub SameLinks-update :
    (u : Frames) (p : Ptr) (c : UnwindProtectFrame) (fs : List Ptr)
    → has p fs ≡ false
    → SameLinks u (update u p c) fs
SameLinks-update u p c [] h = tt
SameLinks-update u p c (f ∷ fs) h = (ground arith, SameLinks-update u p c fs (ground arith))
