-- ===== src/Threads/Variables/End.antt =====
-- remove_tlv_vector: a thread that ends is taken out of the list.
use opendylan.Prelude.{
  ◌≡◌, refl, ap, ◌∙◌, List, [], ◌∷◌, Option, none, some, inl, inr, Bool-cases, ◌==◌,
}
use mathlib.Core.Option
use mathlib.Core.List.Memᴰ
use mathlib.Core.List.{Memᴰ}
use opendylan.Prelude.Store.{Ptr}
use opendylan.Threads.Variables.{TlvVectorListElement, Tlv, without, removed, remove_tlv_vector}
use opendylan.Threads.Variables.Growth.{Elements, Distinct, threads}
use opendylan.Threads.Variables.Spec.{Variables, drop, leave, Represents}

-- The list after the search for a thread: what is left, or the same where it was not there.
abbrev pub left : Option Elements → Elements → Elements
left none es = es
left (some rest) es = rest

abbrev pub Part : Elements → Elements → Type 0
Part es all = (e : TlvVectorListElement) → Memᴰ e es → Memᴰ e all

module _ (thread : Ptr) where
  left-cons :
      (e : TlvVectorListElement) (es : Elements) (found : Option Elements)
      → left (Option.map (λ r. e ∷ r) found) (e ∷ es) ≡ e ∷ left found es
  left-cons e es none = refl
  left-cons e es (some rest) = refl

  without-threads :
      (es : Elements) → threads (left (without thread es) es) ≡ drop thread (threads es)
  unfolding without
  without-threads [] = refl
  without-threads (e ∷ es) = elim (Bool-cases (e.thread == thread)) [
    | inl here ↦ rw here refl
    | inr there ↦
        rw (there, left-cons e es (without thread es))
          (ap (λ (r : List (Ptr × Ptr)). (e.thread, e.teb) ∷ r) (without-threads es))
  ]

  without-Part : (es : Elements) → Part (left (without thread es) es) es
  unfolding without
  without-Part [] = λ e on. on
  without-Part (e ∷ es) = elim (Bool-cases (e.thread == thread)) [
    | inl here ↦ rw here (λ d on. Memᴰ.tail on)
    | inr there ↦
        rw (there, left-cons e es (without thread es))
          λ d on. elim (Memᴰ.cases_cons on) [
            | inl same ↦ Memᴰ.head same
            | inr rest ↦ Memᴰ.tail (without-Part es d rest)
          ]
  ]

  without-Distinct : (es : Elements) → Distinct es → Distinct (left (without thread es) es)
  unfolding without
  without-Distinct [] distinct = tt
  without-Distinct (e ∷ es) distinct = elim (Bool-cases (e.thread == thread)) [
    | inl here ↦ rw here distinct.1
    | inr there ↦
        rw (there, left-cons e es (without thread es))
          (λ f on. distinct.0 f (without-Part es f on), without-Distinct es distinct.1)
  ]

  removed-left :
      (s : Tlv) (found : Option Elements)
      → (removed s found).1 ≡ record s { tlv_vector_list = left found s.tlv_vector_list }
  unfolding removed
  removed-left s none = refl
  removed-left s (some rest) = refl

  pub remove-Represents :
      (s : Tlv) (a : Variables)
      → Represents s a
      → Represents (remove_tlv_vector thread s).1 (leave thread a)
  unfolding remove_tlv_vector
  remove-Represents s a rep =
      let part = without-Part s.tlv_vector_list in
      rw (removed-left s (without thread s.tlv_vector_list)) record {
        registry = record {
          some_size = rep.registry.some_size;
          not_null = rep.registry.not_null;
          made = rep.registry.made;
          fits = λ e on.
              let fit = rep.registry.fits e (part e on) in
              record {
                linked = fit.linked;
                made = fit.made;
                not_null = fit.not_null;
                not_default = fit.not_default;
                size = fit.size;
              };
          distinct = without-Distinct s.tlv_vector_list rep.registry.distinct;
        };
        low = rep.low;
        bounded = rep.bounded;
        next = rep.next;
        active = without-threads s.tlv_vector_list ∙ ap (drop thread) rep.active;
        initial = rep.initial;
        own = λ e on. rep.own e (part e on);
      }
