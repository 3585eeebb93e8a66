-- ===== src/Threads/Variables/Start.antt =====
-- setup_tlv_vector: a thread gets its vector, once.
use opendylan.Prelude.{
  ℕ, suc, ◌≤◌, ◌<◌, ◌≡◌, sym, ap, subst, ◌∙◌, arith, List, ◌∷◌, inl, inr, ==_ne, ==_refl,
}
use mathlib.Core.List.Memᴰ
use mathlib.Core.List.{Memᴰ}
use opendylan.Prelude.Store.{Ptr, null, update, update-ne, update_self}
use opendylan.Threads.Variables.{
  TlvVector, TlvVectorListElement, Vectors, Tlv, make_teb, setup_tlv_vector, add_tlv_vector,
  grow_tlv_vector,
}
use opendylan.Threads.Variables.Copies.{grow-new, grow-unused, grow-at, grow-size, grow-Carries}
use opendylan.Threads.Variables.Registry.{IsRegistry, Fits}
use opendylan.Threads.Variables.Spec.{Variables, enter, IsIdle, IsActive, Represents}

-- A thread that has its vector keeps it.
pub setup-IsActive :
    (s : Tlv) (thread t : Ptr) → IsRegistry s → IsActive t s → setup_tlv_vector thread t s ≡ s
unfolding setup_tlv_vector
setup-IsActive s thread t is act =
    let fit = is.fits act.0 act.1 in
    let own : s.tlv_vector t ≡ act.0.tlv_vector = ap s.tlv_vector (sym act.2) ∙ fit.linked in
    rw (own, ==_ne act.0.tlv_vector null fit.not_null)

module _ (s : Tlv) (a : Variables) (thread t : Ptr) (rep : Represents s a) (idle : IsIdle t s) where
  abbrev size : ℕ
  size = (s.vectors.at s.default_tlv_vector).size

  abbrev made : Ptr × Vectors
  made = grow_tlv_vector s.default_tlv_vector size s.vectors

  abbrev element : TlvVectorListElement
  element = record { thread = thread; teb = t; tlv_vector = made.0 }

  abbrev tebs : Ptr → Ptr
  tebs = update (update s.tlv_vector t null) t made.0

  abbrev begun : Tlv
  begun = record s {
    vectors = made.1;
    tlv_vector = tebs;
    tlv_vector_list = element ∷ s.tlv_vector_list;
  }

  setup-begun : setup_tlv_vector thread t (make_teb t s) ≡ begun
  unfolding setup_tlv_vector make_teb add_tlv_vector grow_tlv_vector
  setup-begun = rw (==_refl t)

  new : made.0 ≡ s.vectors.unused
  new = grow-new s.default_tlv_vector size s.vectors rep.registry.some_size rep.registry.made

  next : made.1.unused ≡ suc s.vectors.unused
  next = grow-unused s.default_tlv_vector size s.vectors rep.registry.some_size rep.registry.made

  kept : (p : Ptr) → p < s.vectors.unused → made.1.at p ≡ s.vectors.at p
  kept p old =
      grow-at s.default_tlv_vector size s.vectors rep.registry.some_size rep.registry.made p
        (omega arith)

  default_kept : made.1.at s.default_tlv_vector ≡ s.vectors.at s.default_tlv_vector
  default_kept = kept s.default_tlv_vector rep.registry.made

  Fits-element : Fits begun element
  Fits-element =
      let old = rep.registry.made in
      record {
        linked = update_self (update s.tlv_vector t null) t made.0;
        made = omega (arith, new, next);
        not_null = omega (arith, new, old);
        not_default = omega (arith, new, old);
        size =
            rw (default_kept, new)
              (grow-size s.default_tlv_vector size s.vectors rep.registry.some_size
                rep.registry.made);
      }

  Fits-kept : (e : TlvVectorListElement) → Memᴰ e s.tlv_vector_list → Fits begun e
  Fits-kept e on =
      let fit = rep.registry.fits e on in
      let old = fit.made in
      record {
        linked =
            update-ne (update s.tlv_vector t null) t made.0 e.teb (idle e on)
            ∙ update-ne s.tlv_vector t null e.teb (idle e on)
            ∙ fit.linked;
        made = omega (arith, old, next);
        not_null = fit.not_null;
        not_default = fit.not_default;
        size = rw (default_kept, kept e.tlv_vector old) fit.size;
      }

  begun-IsRegistry : IsRegistry begun
  begun-IsRegistry = record {
    some_size = rw default_kept rep.registry.some_size;
    not_null = rep.registry.not_null;
    made = let old = rep.registry.made in omega (arith, old, next);
    fits = λ e on. elim (Memᴰ.cases_cons on) [
      | inl same ↦ subst (λ (d : TlvVectorListElement). Fits begun d) (sym same) Fits-element
      | inr rest ↦ Fits-kept e rest
    ];
    distinct = (
      λ f on. let old = (rep.registry.fits f on).made in (idle f on, omega (arith, old, new)),
      rep.registry.distinct,
    );
  }

  -- The new vector has the initial values.
  element-slot :
      (i : ℕ)
      → 2 ≤ i
      → i < s.tlv_vector_offset
      → (made.1.at made.0).slot i ≡ (enter thread t a).own t i
  element-slot i lo hi =
      let bounded = rep.bounded in
      rw (new, ==_refl t)
        (grow-Carries s.default_tlv_vector size s.vectors rep.registry.some_size rep.registry.made i
            lo (omega (arith, bounded, hi))
          ∙ rep.initial i lo hi)

  begun-Represents : Represents begun (enter thread t a)
  begun-Represents = record {
    registry = begun-IsRegistry;
    low = rep.low;
    bounded = rw default_kept rep.bounded;
    next = rep.next;
    active = ap (λ (r : List (Ptr × Ptr)). (thread, t) ∷ r) rep.active;
    initial = λ i lo hi. ap (λ (x : TlvVector). x.slot i) default_kept ∙ rep.initial i lo hi;
    own = λ e on i lo hi. elim (Memᴰ.cases_cons on) [
      | inl same ↦
          subst
            (λ (d : TlvVectorListElement).
              (made.1.at d.tlv_vector).slot i ≡ (enter thread t a).own d.teb i)
            (sym same) (element-slot i lo hi)
      | inr rest ↦ rw (==_ne e.teb t (idle e rest)) (
          ap (λ (x : TlvVector). x.slot i) (kept e.tlv_vector (rep.registry.fits e rest).made)
          ∙ rep.own e rest i lo hi)
    ];
  }

  pub start-Represents : Represents (setup_tlv_vector thread t (make_teb t s)) (enter thread t a)
  start-Represents =
      subst (λ (x : Tlv). Represents x (enter thread t a)) (sym setup-begun) begun-Represents
