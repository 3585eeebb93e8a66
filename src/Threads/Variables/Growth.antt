-- ===== src/Threads/Variables/Growth.antt =====
-- The loop of grow_all_tlv_vectors: every thread gets a vector of its own.
use opendylan.Prelude.{
  ℕ, suc, ◌≤◌, ◌<◌, ◌≡◌, ◌≢◌, refl, sym, subst, ap, ◌∙◌, arith, List, [], ◌∷◌, map,
}
use mathlib.Core.List.Memᴰ
use mathlib.Core.List.{Memᴰ}
use opendylan.Prelude.Store.{Ptr, update, update-ne, update_self}
use opendylan.Threads.Variables.{
  TlvVector, TlvVectorListElement, Vectors, Grown, grow_tlv_vector, grow_each,
}
use opendylan.Threads.Variables.Copies.{
  Carries, grow-new, grow-unused, grow-at, grow-size, grow-Carries,
}

abbrev pub Elements : Type 0
Elements = List TlvVectorListElement

-- The threads of a list of elements, with their TEBs.
abbrev pub threads : Elements → List (Ptr × Ptr)
threads es = map (λ e. (e.thread, e.teb)) es

-- No two elements share a TEB or a vector.
abbrev pub Distinct : Elements → Type 0
Distinct [] = Unit {0}
Distinct (e ∷ es) =
    ((f : TlvVectorListElement) → Memᴰ f es → (f.teb ≢ e.teb) × (f.tlv_vector ≢ e.tlv_vector))
    × Distinct es

-- The vectors of the elements have been made.
abbrev pub Made : Vectors → Elements → Type 0
Made m es = (e : TlvVectorListElement) → Memᴰ e es → e.tlv_vector < m.unused

-- What growing makes of an element.
pub record Grows (n : ℕ) (m : Vectors) (g : Grown) (e f : TlvVectorListElement) : Type 0 where
  pub thread : f.thread ≡ e.thread
  pub teb : f.teb ≡ e.teb
  pub new : m.unused ≤ f.tlv_vector
  pub made : f.tlv_vector < g.vectors.unused
  pub linked : g.tlv_vector f.teb ≡ f.tlv_vector
  pub size : (g.vectors.at f.tlv_vector).size ≡ n
  pub carries : Carries (m.at e.tlv_vector) (g.vectors.at f.tlv_vector)

module _ (n : ℕ) (some_size : n ≢ 0) where
  pub grow_each-threads :
      (es : Elements) (m : Vectors) (tebs : Ptr → Ptr)
      → threads (grow_each n es m tebs).tlv_vector_list ≡ threads es
  unfolding grow_each
  grow_each-threads [] m tebs = refl
  grow_each-threads (e ∷ es) m tebs =
      ap (λ (r : List (Ptr × Ptr)). (e.thread, e.teb) ∷ r) (grow_each-threads es _ _)

  -- The vectors of the elements that are left have been made after one more growth.
  Made-rest :
      (e : TlvVectorListElement) (es : Elements) (m : Vectors)
      → Made m (e ∷ es)
      → Made (grow_tlv_vector e.tlv_vector n m).1 es
  Made-rest e es m made f on =
      rw (grow-unused e.tlv_vector n m some_size (made e (Memᴰ.head refl)))
        (let old = made f (Memᴰ.tail on) in omega arith)

  pub grow_each-unused :
      (es : Elements) (m : Vectors) (tebs : Ptr → Ptr)
      → Made m es
      → m.unused ≤ (grow_each n es m tebs).vectors.unused
  unfolding grow_each
  grow_each-unused [] m tebs made = omega arith
  grow_each-unused (e ∷ es) m tebs made =
      let next = grow-unused e.tlv_vector n m some_size (made e (Memᴰ.head refl)) in
      let grown : Ptr × Vectors = grow_tlv_vector e.tlv_vector n m in
      let rest = grow_each-unused es grown.1 (update tebs e.teb grown.0) (Made-rest e es m made) in
      omega (arith, next, rest)

  pub grow_each-at :
      (es : Elements) (m : Vectors) (tebs : Ptr → Ptr)
      → Made m es
      → (p : Ptr) → p < m.unused
      → (grow_each n es m tebs).vectors.at p ≡ m.at p
  unfolding grow_each
  grow_each-at [] m tebs made p old = refl
  grow_each-at (e ∷ es) m tebs made p old =
      let here = made e (Memᴰ.head refl) in
      let next = grow-unused e.tlv_vector n m some_size here in
      grow_each-at es _ _ (Made-rest e es m made) p (omega arith)
      ∙ grow-at e.tlv_vector n m some_size here p (omega arith)

  pub grow_each-teb :
      (es : Elements) (m : Vectors) (tebs : Ptr → Ptr) (t : Ptr)
      → ((e : TlvVectorListElement) → Memᴰ e es → e.teb ≢ t)
      → (grow_each n es m tebs).tlv_vector t ≡ tebs t
  unfolding grow_each
  grow_each-teb [] m tebs t other = refl
  grow_each-teb (e ∷ es) m tebs t other =
      grow_each-teb es _ _ t (λ f on. other f (Memᴰ.tail on))
      ∙ update-ne tebs e.teb _ t (λ same. other e (Memᴰ.head refl) (sym same))

  -- The first element's new vector, when the others have grown too.
  Grows-first :
      (e : TlvVectorListElement) (es : Elements) (m : Vectors) (tebs : Ptr → Ptr)
      → Made m (e ∷ es)
      → Distinct (e ∷ es)
      → Grows n m
          (grow_each n (e ∷ es) m tebs)
          e
          (record e { tlv_vector = (grow_tlv_vector e.tlv_vector n m).0 })
  unfolding grow_each
  Grows-first e es m tebs made distinct =
      let here = made e (Memᴰ.head refl) in
      let grown : Ptr × Vectors = grow_tlv_vector e.tlv_vector n m in
      let given : Ptr → Ptr = update tebs e.teb grown.0 in
      let new : grown.0 ≡ m.unused = grow-new e.tlv_vector n m some_size here in
      let next : grown.1.unused ≡ suc m.unused = grow-unused e.tlv_vector n m some_size here in
      let left : Made grown.1 es = Made-rest e es m made in
      let all = grow_each-unused es grown.1 given left in
      let kept : (grow_each n es grown.1 given).vectors.at grown.0 ≡ grown.1.at grown.0 =
        grow_each-at es grown.1 given left grown.0 (omega (arith, new, next)) in
      record {
        thread = refl;
        teb = refl;
        new = omega (arith, new);
        made = omega (arith, new, next, all);
        linked =
            grow_each-teb es grown.1 given e.teb (λ f on. (distinct.0 f on).0)
            ∙ update_self tebs e.teb grown.0;
        size = rw (kept, new) (grow-size e.tlv_vector n m some_size here);
        carries = rw (kept, new) (grow-Carries e.tlv_vector n m some_size here);
      }

  pub grow_each-from :
      (es : Elements) (m : Vectors) (tebs : Ptr → Ptr)
      → Made m es
      → Distinct es
      → (f : TlvVectorListElement) → Memᴰ f (grow_each n es m tebs).tlv_vector_list
      → (e : TlvVectorListElement) × Memᴰ e es × Grows n m (grow_each n es m tebs) e f
  unfolding grow_each
  grow_each-from [] m tebs made distinct f on = absurd (Memᴰ.not-nil on)
  grow_each-from (e ∷ es) m tebs made distinct f (Memᴰ.head same) = (
    e,
    Memᴰ.head refl,
    subst (λ (x : TlvVectorListElement). Grows n m (grow_each n (e ∷ es) m tebs) e x) (sym same)
        (Grows-first e es m tebs made distinct),
  )
  grow_each-from (e ∷ es) m tebs made distinct f (Memᴰ.tail on) =
      let grown : Ptr × Vectors = grow_tlv_vector e.tlv_vector n m in
      let (d, in_rest, grows) =
        grow_each-from es grown.1 (update tebs e.teb grown.0) (Made-rest e es m made) distinct.1 f
          on in
      let here = made e (Memᴰ.head refl) in
      let next = grow-unused e.tlv_vector n m some_size here in
      let old = made d (Memᴰ.tail in_rest) in
      let kept : grown.1.at d.tlv_vector ≡ m.at d.tlv_vector =
        grow-at e.tlv_vector n m some_size here d.tlv_vector (omega arith) in
      (
        d,
        Memᴰ.tail in_rest,
        record {
          thread = grows.thread;
          teb = grows.teb;
          new = omega (arith, next, grows.new);
          made = grows.made;
          linked = grows.linked;
          size = grows.size;
          carries =
              subst
                (λ (v : TlvVector).
                  Carries v ((grow_each n (e ∷ es) m tebs).vectors.at f.tlv_vector))
                kept grows.carries;
        },
      )

  pub grow_each-Distinct :
      (es : Elements) (m : Vectors) (tebs : Ptr → Ptr)
      → Made m es
      → Distinct es
      → Distinct (grow_each n es m tebs).tlv_vector_list
  unfolding grow_each
  grow_each-Distinct [] m tebs made distinct = tt
  grow_each-Distinct (e ∷ es) m tebs made distinct =
      let grown : Ptr × Vectors = grow_tlv_vector e.tlv_vector n m in
      let given : Ptr → Ptr = update tebs e.teb grown.0 in
      let here = made e (Memᴰ.head refl) in
      let next = grow-unused e.tlv_vector n m some_size here in
      let new = grow-new e.tlv_vector n m some_size here in
      let left : Made grown.1 es = Made-rest e es m made in
      (
        λ f on.
            let (d, in_rest, grows) = grow_each-from es grown.1 given left distinct.1 f on in
            (
              (λ same. (distinct.0 d in_rest).0 (sym grows.teb ∙ same)),
              (λ same. absurd (let n = grows.new in omega (arith, n, next, new, same))),
            ),
        grow_each-Distinct es grown.1 given left distinct.1,
      )
