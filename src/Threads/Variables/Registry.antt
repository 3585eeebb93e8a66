-- ===== src/Threads/Variables/Registry.antt =====
-- The registry of active threads and their vectors, kept by every operation.
use opendylan.Prelude.{ℕ, suc, ◌<◌, ◌≡◌, ◌≢◌, sym, subst, ◌∙◌, arith}
use mathlib.Core.List.{Memᴰ}
use opendylan.Prelude.Store.{Ptr, null}
use opendylan.Threads.Variables.{
  TlvVector, TlvVectorListElement, Vectors, Grown, Tlv, grow_tlv_vector, grow_each,
  grow_all_tlv_vectors,
}
use opendylan.Threads.Variables.Copies.{
  Carries, grow-new, grow-unused, grow-at, grow-size, grow-Carries,
}
use opendylan.Threads.Variables.Growth.{
  Distinct, Made, grow_each-unused, grow_each-at, grow_each-from, grow_each-Distinct,
}

-- The element's vector has been made, is the TEB's and is no other than a thread's.
pub record Fits (s : Tlv) (e : TlvVectorListElement) : Type 0 where
  pub linked : s.tlv_vector e.teb ≡ e.tlv_vector
  pub made : e.tlv_vector < s.vectors.unused
  pub not_null : e.tlv_vector ≢ null
  pub not_default : e.tlv_vector ≢ s.default_tlv_vector
  pub size : (s.vectors.at e.tlv_vector).size ≡ (s.vectors.at s.default_tlv_vector).size

pub record IsRegistry (s : Tlv) : Type 0 where
  pub some_size : (s.vectors.at s.default_tlv_vector).size ≢ 0
  pub not_null : null ≢ s.default_tlv_vector
  pub made : s.default_tlv_vector < s.vectors.unused
  pub fits : (e : TlvVectorListElement) → Memᴰ e s.tlv_vector_list → Fits s e
  pub distinct : Distinct s.tlv_vector_list

-- What grow_all_tlv_vectors makes of a registry.
module _ (n : ℕ) (s : Tlv) (some_size : n ≢ 0) (is : IsRegistry s) where
  abbrev made : Ptr × Vectors
  made = grow_tlv_vector s.default_tlv_vector n s.vectors

  new : made.0 ≡ s.vectors.unused
  new = grow-new s.default_tlv_vector n s.vectors some_size is.made

  next : made.1.unused ≡ suc s.vectors.unused
  next = grow-unused s.default_tlv_vector n s.vectors some_size is.made

  kept : (p : Ptr) → p < s.vectors.unused → made.1.at p ≡ s.vectors.at p
  kept p old = grow-at s.default_tlv_vector n s.vectors some_size is.made p (omega arith)

  all-Made : Made made.1 s.tlv_vector_list
  all-Made e on = let old = (is.fits e on).made in omega (arith, old, next)

  abbrev grown : Grown
  grown = grow_each n s.tlv_vector_list made.1 s.tlv_vector

  default_kept : grown.vectors.at made.0 ≡ made.1.at made.0
  default_kept =
      grow_each-at n some_size s.tlv_vector_list made.1 s.tlv_vector all-Made made.0
        (omega (arith, new, next))

  default_size : (grown.vectors.at made.0).size ≡ n
  default_size =
      rw (default_kept, new) (grow-size s.default_tlv_vector n s.vectors some_size is.made)

  pub grow_all-default :
      Carries
        (s.vectors.at s.default_tlv_vector)
        ((grow_all_tlv_vectors n s).vectors.at (grow_all_tlv_vectors n s).default_tlv_vector)
  unfolding grow_all_tlv_vectors
  grow_all-default =
      rw (default_kept, new) (grow-Carries s.default_tlv_vector n s.vectors some_size is.made)

  pub grow_all-size :
      ((grow_all_tlv_vectors n s).vectors.at (grow_all_tlv_vectors n s).default_tlv_vector).size ≡ n
  unfolding grow_all_tlv_vectors
  grow_all-size = default_size

  -- Each element comes from one of the same TEB, and has its values.
  pub grow_all-from :
      (f : TlvVectorListElement)
      → Memᴰ f (grow_all_tlv_vectors n s).tlv_vector_list
      → (e : TlvVectorListElement) × Memᴰ e s.tlv_vector_list
        × (f.teb ≡ e.teb)
        × Carries (s.vectors.at e.tlv_vector) ((grow_all_tlv_vectors n s).vectors.at f.tlv_vector)
  unfolding grow_all_tlv_vectors
  grow_all-from f on =
      let (e, in_list, grows) =
        grow_each-from n some_size s.tlv_vector_list made.1 s.tlv_vector all-Made is.distinct f
          on in
      (
        e,
        in_list,
        grows.teb,
        subst (λ (v : TlvVector). Carries v (grown.vectors.at f.tlv_vector))
            (kept e.tlv_vector (is.fits e in_list).made) grows.carries,
      )

  pub grow_all-IsRegistry : IsRegistry (grow_all_tlv_vectors n s)
  unfolding grow_all_tlv_vectors
  grow_all-IsRegistry = record {
    some_size = λ zero_size. some_size (sym default_size ∙ zero_size);
    not_null = let old = is.made in omega (arith, old, new);
    made =
        let all = grow_each-unused n some_size s.tlv_vector_list made.1 s.tlv_vector all-Made in
        omega (arith, all, new, next);
    fits = λ f on.
        let (e, in_list, grows) =
          grow_each-from n some_size s.tlv_vector_list made.1 s.tlv_vector all-Made is.distinct f
            on in
        let later = grows.new in
        record {
          linked = grows.linked;
          made = grows.made;
          not_null = omega (arith, later, next);
          not_default = omega (arith, later, next, new);
          size = grows.size ∙ sym default_size;
        };
    distinct =
        grow_each-Distinct n some_size s.tlv_vector_list made.1 s.tlv_vector all-Made is.distinct;
  }

-- What is known of a registry does not depend on the slots.
pub IsRegistry-slots :
    (s : Tlv) (m : Vectors) (offset : ℕ)
    → m.unused ≡ s.vectors.unused
    → ((a : Ptr) → (m.at a).size ≡ (s.vectors.at a).size)
    → IsRegistry s
    → IsRegistry (record s { vectors = m; tlv_vector_offset = offset })
IsRegistry-slots s m offset unused size is = record {
  some_size = rw (size s.default_tlv_vector) is.some_size;
  not_null = is.not_null;
  made = rw unused is.made;
  fits = λ e on.
      let fit = is.fits e on in
      record {
        linked = fit.linked;
        made = rw unused fit.made;
        not_null = fit.not_null;
        not_default = fit.not_default;
        size = rw (size e.tlv_vector, size s.default_tlv_vector) fit.size;
      };
  distinct = is.distinct;
}
