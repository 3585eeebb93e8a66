-- ===== src/Threads/Variables/Allocate.antt =====
-- primitive_allocate_thread_variable.
use opendylan.Prelude.{
  ℕ, suc, ◌+◌, ◌≤◌, ◌<◌, ◌≡◌, ◌≢◌, refl, sym, ap, ◌∙◌, arith, inl, inr, Bool-cases, leb, ==_ne,
  ==_refl, if◌then◌else◌,
}
use mathlib.Core.List.{Memᴰ}
use native.Mathlib.Decide.{ℕ_discrete}
use opendylan.Prelude.Store.{Ptr, update_self}
use opendylan.Values.{Value}
use opendylan.Threads.Variables.{
  TlvVector, TlvVectorListElement, Vectors, Tlv, grow_all_tlv_vectors, store, update_each,
  update_tlv_vectors, allocate_thread_variable,
}
use opendylan.Threads.Variables.Copies.{Carries, store-size, store-slot}
use opendylan.Threads.Variables.Growth.{threads, grow_each-threads}
use opendylan.Threads.Variables.Registry.{
  IsRegistry, grow_all-IsRegistry, grow_all-default, grow_all-size, grow_all-from, IsRegistry-slots,
}
use opendylan.Threads.Variables.Spread.{
  store-other, update_each-unused, update_each-size, update_each-other, update_each-slot,
  update_each-outside,
}
use opendylan.Threads.Variables.Spec.{Variables, declare, Represents}

-- `l` has the threads and the values of `s`, and room for one variable more.
pub record IsRoom (s l : Tlv) : Type 0 where
  pub registry : IsRegistry l
  pub offset : l.tlv_vector_offset ≡ suc s.tlv_vector_offset
  pub room : s.tlv_vector_offset < (l.vectors.at l.default_tlv_vector).size + 2
  pub same_threads : threads l.tlv_vector_list ≡ threads s.tlv_vector_list
  pub initial : Carries (s.vectors.at s.default_tlv_vector) (l.vectors.at l.default_tlv_vector)
  pub from :
      (f : TlvVectorListElement)
      → Memᴰ f l.tlv_vector_list
      → (e : TlvVectorListElement) × Memᴰ e s.tlv_vector_list
        × (f.teb ≡ e.teb)
        × Carries (s.vectors.at e.tlv_vector) (l.vectors.at f.tlv_vector)

module _ (s : Tlv) (is : IsRegistry s)
    (bounded : s.tlv_vector_offset ≤ (s.vectors.at s.default_tlv_vector).size + 2) where
  abbrev pub size : ℕ
  size = (s.vectors.at s.default_tlv_vector).size

  abbrev pub next : Tlv
  next = record s { tlv_vector_offset = suc s.tlv_vector_offset }

  next-IsRegistry : IsRegistry next
  next-IsRegistry = IsRegistry-slots s s.vectors (suc s.tlv_vector_offset) refl (λ a. refl) is

  -- A full vector has twice the size afterwards, which is room enough.
  grown-IsRoom : IsRoom s (grow_all_tlv_vectors (size + size) next)
  grown-IsRoom =
      let some_size : size ≢ 0 = is.some_size in
      let more : size + size ≢ 0 = λ none_left. some_size (omega (arith, none_left)) in
      let grown = grow_all-size (size + size) next more next-IsRegistry in
      record {
        registry = grow_all-IsRegistry (size + size) next more next-IsRegistry;
        offset = unfold grow_all_tlv_vectors in refl;
        room = rw grown (omega (arith, bounded, some_size));
        same_threads =
            unfold grow_all_tlv_vectors in
            grow_each-threads (size + size) more s.tlv_vector_list _ _;
        initial = grow_all-default (size + size) next more next-IsRegistry;
        from = grow_all-from (size + size) next more next-IsRegistry;
      }

  next-IsRoom : s.tlv_vector_offset < size + 2 → IsRoom s next
  next-IsRoom room = record {
    registry = next-IsRegistry;
    offset = refl;
    room = room;
    same_threads = refl;
    initial = λ i lo hi. refl;
    from = λ f on. (f, on, refl, λ i lo hi. refl);
  }

  abbrev pub large : Tlv
  large =
      if leb (size + 2) s.tlv_vector_offset then grow_all_tlv_vectors (size + size) next else next

  pub large-IsRoom : IsRoom s large
  large-IsRoom = elim (Bool-cases (leb (size + 2) s.tlv_vector_offset)) [
    | inl full ↦ rw full grown-IsRoom
    | inr room ↦ rw room (next-IsRoom (ground (arith, room)))
  ]

-- The value of a new variable is stored in a state with room for it.
module _ (s l : Tlv) (a : Variables) (rep : Represents s a) (is : IsRoom s l) (v : Value) where
  abbrev stored : Vectors
  stored = store l.default_tlv_vector s.tlv_vector_offset v l.vectors

  abbrev spread : Vectors
  spread = update_each s.tlv_vector_offset v l.tlv_vector_list stored

  spread-size : (p : Ptr) → (spread.at p).size ≡ (l.vectors.at p).size
  spread-size p =
      update_each-size s.tlv_vector_offset v l.tlv_vector_list stored p
      ∙ store-size l.default_tlv_vector s.tlv_vector_offset v l.vectors p

  spread-other :
      (p : Ptr) (i : ℕ) → i ≢ s.tlv_vector_offset → (spread.at p).slot i ≡ (l.vectors.at p).slot i
  spread-other p i ne =
      update_each-other s.tlv_vector_offset v l.tlv_vector_list stored p i ne
      ∙ store-other s.tlv_vector_offset v l.default_tlv_vector l.vectors p i ne

  spread-default : (spread.at l.default_tlv_vector).slot s.tlv_vector_offset ≡ v
  spread-default =
      ap (λ (x : TlvVector). x.slot s.tlv_vector_offset)
        (update_each-outside s.tlv_vector_offset v l.tlv_vector_list stored l.default_tlv_vector
          (λ e on. (is.registry.fits e on).not_default))
      ∙ store-slot l.default_tlv_vector s.tlv_vector_offset v l.vectors s.tlv_vector_offset
      ∙ update_self (l.vectors.at l.default_tlv_vector).slot s.tlv_vector_offset v

  spread-own :
      (f : TlvVectorListElement)
      → Memᴰ f l.tlv_vector_list
      → (i : ℕ) → 2 ≤ i
      → i < suc s.tlv_vector_offset
      → (spread.at f.tlv_vector).slot i ≡ (declare v a).own f.teb i
  spread-own f on i lo hi = elim (ℕ_discrete i s.tlv_vector_offset) [
    | yes same ↦
        rw (same, sym rep.next, ==_refl s.tlv_vector_offset)
          (update_each-slot s.tlv_vector_offset v l.tlv_vector_list stored f on)
    | no ne ↦
        let (e, in_list, teb, carries) = is.from f on in
        let bounded = rep.bounded in
        let fit = rep.registry.fits e in_list in
        let small : i < s.tlv_vector_offset = omega (arith, hi, ne) in
        rw (sym rep.next, ==_ne i s.tlv_vector_offset ne)
          (spread-other f.tlv_vector i ne
            ∙ carries i lo (rw fit.size (omega (arith, bounded, small)))
            ∙ rep.own e in_list i lo small
            ∙ ap (λ (t : Ptr). a.own t i) (sym teb))
  ]

  pub spread-Represents : Represents (record l { vectors = spread }) (declare v a)
  spread-Represents =
      let room = is.room in
      let step = is.offset in
      let low = rep.low in
      let bounded = rep.bounded in
      record {
        registry =
            IsRegistry-slots l spread l.tlv_vector_offset
              (update_each-unused s.tlv_vector_offset v l.tlv_vector_list stored
                ∙ unfold store in refl)
              spread-size is.registry;
        low = omega (arith, low, step);
        bounded = rw (spread-size l.default_tlv_vector) (omega (arith, room, step));
        next = step ∙ ap (λ (n : ℕ). suc n) rep.next;
        active = is.same_threads ∙ rep.active;
        initial = λ i lo hi. elim (ℕ_discrete i s.tlv_vector_offset) [
          | yes same ↦ rw (same, sym rep.next, ==_refl s.tlv_vector_offset) spread-default
          | no ne ↦
              let small : i < s.tlv_vector_offset = omega (arith, hi, ne, step) in
              rw (sym rep.next, ==_ne i s.tlv_vector_offset ne)
                (spread-other l.default_tlv_vector i ne
                  ∙ is.initial i lo (omega (arith, bounded, small))
                  ∙ rep.initial i lo small)
        ];
        own = λ f on i lo hi. spread-own f on i lo (omega (arith, hi, step));
      }

pub allocate-Represents :
    (s : Tlv) (a : Variables) (v : Value)
    → Represents s a
    → Represents (allocate_thread_variable v s).1 (declare v a)
unfolding allocate_thread_variable update_tlv_vectors
allocate-Represents s a v rep =
    spread-Represents s (large s rep.registry rep.bounded) a rep
      (large-IsRoom s rep.registry rep.bounded) v
