-- ===== src/Threads/Variables/Spread.antt =====
-- The loop of update_tlv_vectors: one value for all threads.
use opendylan.Prelude.{ℕ, ◌≡◌, ◌≢◌, refl, sym, subst, ◌∙◌, arith, [], ◌∷◌}
use mathlib.Core.List.Memᴰ
use mathlib.Core.List.{Memᴰ}
use opendylan.Prelude.Store.{Ptr, update_self}
use opendylan.Threads.Variables.{TlvVectorListElement, Vectors, store, update_each}
use opendylan.Threads.Variables.Copies.{store-at, store-size, store-slot}
use opendylan.Threads.Variables.Growth.{Elements}

module _ (offset v : ℕ) where
  -- Another offset keeps its value in every vector.
  pub store-other :
      (p : Ptr) (m : Vectors) (a : Ptr) (i : ℕ)
      → i ≢ offset
      → ((store p offset v m).at a).slot i ≡ (m.at a).slot i
  unfolding store
  store-other p m a i ne = ground (arith, ne)

  -- Nothing but `v` is written at the offset.
  store-settled :
      (p : Ptr) (m : Vectors) (a : Ptr)
      → (m.at a).slot offset ≡ v
      → ((store p offset v m).at a).slot offset ≡ v
  unfolding store
  store-settled p m a e = ground (arith, e)

  pub update_each-unused :
      (es : Elements) (m : Vectors) → (update_each offset v es m).unused ≡ m.unused
  unfolding update_each
  update_each-unused [] m = refl
  update_each-unused (e ∷ es) m = update_each-unused es _ ∙ unfold store in refl

  pub update_each-size :
      (es : Elements) (m : Vectors) (a : Ptr)
      → ((update_each offset v es m).at a).size ≡ (m.at a).size
  unfolding update_each
  update_each-size [] m a = refl
  update_each-size (e ∷ es) m a = update_each-size es _ a ∙ store-size e.tlv_vector offset v m a

  pub update_each-other :
      (es : Elements) (m : Vectors) (a : Ptr) (i : ℕ)
      → i ≢ offset
      → ((update_each offset v es m).at a).slot i ≡ (m.at a).slot i
  unfolding update_each
  update_each-other [] m a i ne = refl
  update_each-other (e ∷ es) m a i ne =
      update_each-other es _ a i ne ∙ store-other e.tlv_vector m a i ne

  update_each-settled :
      (es : Elements) (m : Vectors) (a : Ptr)
      → (m.at a).slot offset ≡ v
      → ((update_each offset v es m).at a).slot offset ≡ v
  unfolding update_each
  update_each-settled [] m a e = e
  update_each-settled (d ∷ es) m a e = update_each-settled es _ a (store-settled d.tlv_vector m a e)

  pub update_each-slot :
      (es : Elements) (m : Vectors) (e : TlvVectorListElement)
      → Memᴰ e es
      → ((update_each offset v es m).at e.tlv_vector).slot offset ≡ v
  unfolding update_each
  update_each-slot [] m e on = absurd (Memᴰ.not-nil on)
  update_each-slot (d ∷ es) m e (Memᴰ.head same) = update_each-settled es _ e.tlv_vector (
      subst
        (λ (x : TlvVectorListElement).
          ((store d.tlv_vector offset v m).at x.tlv_vector).slot offset ≡ v)
        (sym same)
        (store-slot d.tlv_vector offset v m offset ∙ update_self (m.at d.tlv_vector).slot offset v))
  update_each-slot (d ∷ es) m e (Memᴰ.tail on) = update_each-slot es _ e on

  pub update_each-outside :
      (es : Elements) (m : Vectors) (a : Ptr)
      → ((e : TlvVectorListElement) → Memᴰ e es → e.tlv_vector ≢ a)
      → (update_each offset v es m).at a ≡ m.at a
  unfolding update_each
  update_each-outside [] m a out = refl
  update_each-outside (e ∷ es) m a out =
      update_each-outside es _ a (λ f on. out f (Memᴰ.tail on))
      ∙ store-at e.tlv_vector offset v m a (λ same. out e (Memᴰ.head refl) (sym same))
