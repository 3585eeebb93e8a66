-- ===== src/Threads/Variables/Refine.antt =====
-- What is promised of thread variables, of all runs.
use opendylan.Prelude.{ℕ, ◌+◌, ◌≤◌, ◌<◌, ◌≡◌, refl, sym, ap, subst, ◌∙◌, arith, List, []}
use mathlib.Core.List.Memᴰ
use mathlib.Core.List.{Memᴰ}
use opendylan.Prelude.Store.{Ptr, null}
use opendylan.Threads.Variables.{
  TlvVectorListElement, Vectors, Tlv, make_dylan_vector, initialize_threads_primitives,
  read_thread_variable, tlv_vector_initial_size,
}
use opendylan.Threads.Variables.Copies.{make-new, make-unused, make-size}
use opendylan.Threads.Variables.Spec.{Variables, Reach, Represents, IsActive, initially}
use opendylan.Threads.Variables.Allocate.{allocate-Represents}
use opendylan.Threads.Variables.Write.{write-Represents}
use opendylan.Threads.Variables.Start.{setup-IsActive, start-Represents}
use opendylan.Threads.Variables.End.{remove-Represents}

-- The program before its threads: C's initial values, and a memory without NULL.
pub record IsLoaded (loaded : Tlv) : Type 0 where
  pub offset : loaded.tlv_vector_offset ≡ 2
  pub no_threads : loaded.tlv_vector_list ≡ []
  pub memory : null < loaded.vectors.unused

module _ (teb : Ptr) (loaded : Tlv) (is : IsLoaded loaded) where
  abbrev made : Ptr × Vectors
  made = make_dylan_vector tlv_vector_initial_size loaded.vectors

  abbrev base : Tlv
  base = record loaded { vectors = made.1; default_tlv_vector = made.0 }

  new : made.0 ≡ loaded.vectors.unused
  new = make-new tlv_vector_initial_size loaded.vectors (omega arith)

  nobody : (e : TlvVectorListElement) → ¬ Memᴰ e loaded.tlv_vector_list
  nobody e on =
      Memᴰ.not-nil (subst (λ (es : List TlvVectorListElement). Memᴰ e es) is.no_threads on)

  base-Represents : Represents base (initially loaded.vectors.unbound)
  base-Represents =
      let size = make-size tlv_vector_initial_size loaded.vectors (omega arith) in
      let next = make-unused tlv_vector_initial_size loaded.vectors (omega arith) in
      let offset = is.offset in
      let memory = is.memory in
      record {
        registry = record {
          some_size = rw (new, size) (omega arith);
          not_null = omega (arith, new, memory);
          made = omega (arith, new, next);
          fits = λ e on. absurd (nobody e on);
          distinct = rw is.no_threads tt;
        };
        low = omega (arith, offset);
        bounded = rw (new, size, offset) (omega arith);
        next = offset;
        active = rw is.no_threads refl;
        initial = λ i lo hi. absurd (omega (arith, lo, hi, offset));
        own = λ e on. absurd (nobody e on);
      }

  -- In every run the vectors represent the thread variables.
  pub Reach-Represents : (s : Tlv) (a : Variables) → Reach teb loaded s a → Represents s a
  Reach-Represents s a Reach.initialized =
      unfold initialize_threads_primitives in
      start-Represents base (initially loaded.vectors.unbound) null teb base-Represents
        (λ e on. absurd (nobody e on))
  Reach-Represents s a (Reach.allocated {s = r} {a = b} v run) =
      allocate-Represents r b v (Reach-Represents r b run)
  Reach-Represents s a (Reach.written {s = r} {a = b} t i v act lo hi run) =
      write-Represents r b t i v (Reach-Represents r b run) act
  Reach-Represents s a (Reach.started {s = r} {a = b} thread t idle run) =
      start-Represents r b thread t (Reach-Represents r b run) idle
  Reach-Represents s a (Reach.initialized_again {s = r} {a = b} thread t act run) =
      let rep = Reach-Represents r b run in rw (setup-IsActive r thread t rep.registry act) rep
  Reach-Represents s a (Reach.ended {s = r} {a = b} thread run) =
      remove-Represents thread r b (Reach-Represents r b run)

  -- From the initialization on, whatever variables are allocated and written and whatever threads
  -- start and end, also where the vectors grow: an active thread reads from each variable that there
  -- is the value that it last gave the variable, or else the variable's initial value, as
  -- the abstract variables have it.
  pub read_thread_variable-Reach :
      (s : Tlv) (a : Variables) (t : Ptr) (i : ℕ)
      → Reach teb loaded s a
      → IsActive t s
      → 2 ≤ i
      → i < a.next
      → read_thread_variable t i s ≡ a.own t i
  unfolding read_thread_variable
  read_thread_variable-Reach s a t i run act lo hi =
      let rep = Reach-Represents s a run in
      let next = rep.next in
      let fit = rep.registry.fits act.0 act.1 in
      rw (ap s.tlv_vector (sym act.2) ∙ fit.linked, read_thread_variable)
        (rep.own act.0 act.1 i lo (omega (arith, hi, next)) ∙ ap (λ (x : Ptr). a.own x i) act.2)

  -- In every run the offset of each variable that there is lies within the vector of each active
  -- thread, and within the default one.
  pub Reach-InBounds :
      (s : Tlv) (a : Variables) (t : Ptr) (i : ℕ)
      → Reach teb loaded s a
      → IsActive t s
      → i < s.tlv_vector_offset
      → (i < (s.vectors.at (s.tlv_vector t)).size + 2)
        × (i < (s.vectors.at s.default_tlv_vector).size + 2)
  Reach-InBounds s a t i run act hi =
      let rep = Reach-Represents s a run in
      let fit = rep.registry.fits act.0 act.1 in
      let bounded = rep.bounded in
      (
        rw (ap s.tlv_vector (sym act.2) ∙ fit.linked, fit.size) (omega (arith, hi, bounded)),
        omega (arith, hi, bounded),
      )
