-- ===== src/Threads/Variables/Write.antt =====
-- primitive_write_thread_variable.
use opendylan.Prelude.{
  ℕ, ◌≤◌, ◌<◌, ◌≡◌, ◌≢◌, refl, sym, ap, subst, ◌∙◌, [], ◌∷◌, ◌⊎◌, inl, inr, ==_ne, ==_refl, ◌==◌,
  if◌then◌else◌,
}
use mathlib.Core.List.Memᴰ
use mathlib.Core.List.{Memᴰ}
use opendylan.Prelude.Store.{Ptr, update}
use opendylan.Values.{Value}
use opendylan.Threads.Variables.{
  TlvVector, TlvVectorListElement, Vectors, Tlv, store, write_thread_variable,
}
use opendylan.Threads.Variables.Copies.{store-at, store-size, store-slot}
use opendylan.Threads.Variables.Growth.{Elements, Distinct}
use opendylan.Threads.Variables.Registry.{IsRegistry-slots}
use opendylan.Threads.Variables.Spec.{Variables, assign, IsActive, Represents}

-- Two elements are one or have neither a TEB nor a vector in common.
pub apart :
    (es : Elements)
    → Distinct es
    → (e d : TlvVectorListElement) → Memᴰ e es
    → Memᴰ d es
    → (e ≡ d) ⊎ ((e.teb ≢ d.teb) × (e.tlv_vector ≢ d.tlv_vector))
apart [] distinct e d on_e on_d = absurd (Memᴰ.not-nil on_e)
apart (x ∷ es) distinct e d (Memᴰ.head same_e) (Memᴰ.head same_d) = inl (same_e ∙ sym same_d)
apart (x ∷ es) distinct e d (Memᴰ.head same_e) (Memᴰ.tail on_d) =
    let other = distinct.0 d on_d in
    inr (
      (λ same. other.0 (sym same ∙ ap TlvVectorListElement.teb same_e)),
      (λ same. other.1 (sym same ∙ ap TlvVectorListElement.tlv_vector same_e)),
    )
apart (x ∷ es) distinct e d (Memᴰ.tail on_e) (Memᴰ.head same_d) =
    let other = distinct.0 e on_e in
    inr (
      (λ same. other.0 (same ∙ ap TlvVectorListElement.teb same_d)),
      (λ same. other.1 (same ∙ ap TlvVectorListElement.tlv_vector same_d)),
    )
apart (x ∷ es) distinct e d (Memᴰ.tail on_e) (Memᴰ.tail on_d) = apart es distinct.1 e d on_e on_d

module _ (s : Tlv) (a : Variables) (t : Ptr) (i : ℕ) (v : Value) (rep : Represents s a)
    (act : IsActive t s) where
  abbrev vector : Ptr
  vector = s.tlv_vector t

  vector-own : vector ≡ act.0.tlv_vector
  vector-own = ap s.tlv_vector (sym act.2) ∙ (rep.registry.fits act.0 act.1).linked

  abbrev written : Vectors
  written = store vector i v s.vectors

  written-own :
      (j : ℕ)
      → (written.at act.0.tlv_vector).slot j ≡ update (s.vectors.at act.0.tlv_vector).slot i v j
  written-own j =
      subst
        (λ (p : Ptr).
          ((store p i v s.vectors).at act.0.tlv_vector).slot j
          ≡ update (s.vectors.at act.0.tlv_vector).slot i v j)
        (sym vector-own) (store-slot act.0.tlv_vector i v s.vectors j)

  written-other : (p : Ptr) → p ≢ act.0.tlv_vector → written.at p ≡ s.vectors.at p
  written-other p ne = store-at vector i v s.vectors p (λ same. ne (same ∙ vector-own))

  -- What the thread itself reads afterwards.
  written_self :
      (j : ℕ)
      → 2 ≤ j
      → j < s.tlv_vector_offset
      → (written.at act.0.tlv_vector).slot j ≡ (assign t i v a).own act.0.teb j
  written_self j lo hi =
      let before = rep.own act.0 act.1 j lo hi in
      let own_before : (s.vectors.at act.0.tlv_vector).slot j ≡ a.own t j =
        before ∙ ap (λ (x : Ptr). a.own x j) act.2 in
      written-own j ∙ rw (act.2, ==_refl t) (ap (λ (w : Value). if j == i then v else w) own_before)

  pub write-Represents : Represents (write_thread_variable t i v s) (assign t i v a)
  unfolding write_thread_variable
  write-Represents = record {
    registry =
        IsRegistry-slots s written s.tlv_vector_offset (unfold store in refl)
          (store-size vector i v s.vectors) rep.registry;
    low = rep.low;
    bounded = rw (store-size vector i v s.vectors s.default_tlv_vector) rep.bounded;
    next = rep.next;
    active = rep.active;
    initial = λ j lo hi.
        ap (λ (x : TlvVector). x.slot j)
          (written-other s.default_tlv_vector
            (λ same. (rep.registry.fits act.0 act.1).not_default (sym same)))
        ∙ rep.initial j lo hi;
    own = λ e on j lo hi. elim (apart s.tlv_vector_list rep.registry.distinct e act.0 on act.1) [
      | inl same ↦
          subst
            (λ (d : TlvVectorListElement).
              (written.at d.tlv_vector).slot j ≡ (assign t i v a).own d.teb j)
            (sym same) (written_self j lo hi)
      | inr other ↦
          let elsewhere : e.teb ≢ t = λ same. other.0 (same ∙ sym act.2) in
          rw (==_ne e.teb t elsewhere) (
            ap (λ (x : TlvVector). x.slot j) (written-other e.tlv_vector other.1)
            ∙ rep.own e on j lo hi)
    ];
  }
