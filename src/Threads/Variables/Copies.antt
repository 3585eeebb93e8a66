-- ===== src/Threads/Variables/Copies.antt =====
-- What the operations on one vector write: make_dylan_vector, copy_tlv_vector, grow_tlv_vector.
use opendylan.Prelude.{ℕ, suc, ◌+◌, ◌≤◌, ◌<◌, ◌≡◌, ◌≢◌, subst, ◌∙◌, arith, ==_ne, ==_refl}
use opendylan.Prelude.Store.{Ptr, update}
use opendylan.Prelude.Loops.{fill, fill-inside}
use opendylan.Threads.Variables.{
  TlvVector, Vectors, make_dylan_vector, copy_tlv_vector, grow_tlv_vector, store,
}

-- The slots of `old` have the same values in `new`.
abbrev pub Carries : TlvVector → TlvVector → Type 0
Carries old new = (i : ℕ) → 2 ≤ i → i < old.size + 2 → new.slot i ≡ old.slot i

-- Making a vector of a size other than 0.
module _ (n : ℕ) (m : Vectors) (some_size : n ≢ 0) where
  pub make-new : (make_dylan_vector n m).0 ≡ m.unused
  unfolding make_dylan_vector
  make-new = rw (==_ne n 0 some_size)

  pub make-unused : (make_dylan_vector n m).1.unused ≡ suc m.unused
  unfolding make_dylan_vector
  make-unused = rw (==_ne n 0 some_size)

  pub make-at : (p : Ptr) → p ≢ m.unused → (make_dylan_vector n m).1.at p ≡ m.at p
  unfolding make_dylan_vector
  make-at p ne = rw (==_ne n 0 some_size, ==_ne p m.unused ne)

  pub make-size : ((make_dylan_vector n m).1.at m.unused).size ≡ n
  unfolding make_dylan_vector
  make-size = rw (==_ne n 0 some_size, ==_refl m.unused)

module _ (d p : Ptr) (m : Vectors) where
  pub copy-at : (a : Ptr) → a ≢ d → (copy_tlv_vector d p m).at a ≡ m.at a
  unfolding copy_tlv_vector
  copy-at a ne = rw (==_ne a d ne)

  pub copy-size : ((copy_tlv_vector d p m).at d).size ≡ (m.at d).size
  unfolding copy_tlv_vector
  copy-size = rw (==_refl d)

  pub copy-Carries : Carries (m.at p) ((copy_tlv_vector d p m).at d)
  unfolding copy_tlv_vector
  copy-Carries i lo hi =
      let from : TlvVector = m.at p in
      let copied : ℕ → ℕ = fill 0 from.slot from.size 2 (m.at d).slot in
      rw (==_refl d) (
        subst (λ (x : ℕ). copied x ≡ from.slot i) (omega arith)
          (fill-inside 0 from.slot from.size 2 (m.at d).slot i lo (omega arith)))

-- A new vector of a size other than 0 with the contents of an old one.
module _ (p : Ptr) (n : ℕ) (m : Vectors) (some_size : n ≢ 0) (old : p < m.unused) where
  pub grow-new : (grow_tlv_vector p n m).0 ≡ m.unused
  unfolding grow_tlv_vector
  grow-new = make-new n m some_size

  pub grow-unused : (grow_tlv_vector p n m).1.unused ≡ suc m.unused
  unfolding grow_tlv_vector copy_tlv_vector
  grow-unused = make-unused n m some_size

  pub grow-at : (a : Ptr) → a ≢ m.unused → (grow_tlv_vector p n m).1.at a ≡ m.at a
  unfolding grow_tlv_vector
  grow-at a ne = rw (make-new n m some_size) (copy-at _ p _ a ne ∙ make-at n m some_size a ne)

  pub grow-size : ((grow_tlv_vector p n m).1.at m.unused).size ≡ n
  unfolding grow_tlv_vector
  grow-size = rw (make-new n m some_size) (copy-size m.unused p _ ∙ make-size n m some_size)

  pub grow-Carries : Carries (m.at p) ((grow_tlv_vector p n m).1.at m.unused)
  unfolding grow_tlv_vector
  grow-Carries i lo hi =
      let same : (make_dylan_vector n m).1.at p ≡ m.at p = make-at n m some_size p (omega arith) in
      rw (make-new n m some_size) (copy-Carries m.unused p _ i lo (rw same hi) ∙ rw same)

module _ (p : Ptr) (offset v : ℕ) (m : Vectors) where
  pub store-at : (a : Ptr) → a ≢ p → (store p offset v m).at a ≡ m.at a
  unfolding store
  store-at a ne = rw (==_ne a p ne)

  pub store-size : (a : Ptr) → ((store p offset v m).at a).size ≡ (m.at a).size
  unfolding store
  store-size a = ground arith

  pub store-slot : (i : ℕ) → ((store p offset v m).at p).slot i ≡ update (m.at p).slot offset v i
  unfolding store
  store-slot i = rw (==_refl p)
