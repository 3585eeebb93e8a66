-- ===== src/Threads/Variables.antt =====
-- Thread variables: the TLV vectors of sources/lib/run-time/posix-threads.c (grow_tlv_vector to
-- initialize_threads_primitives, and the primitives 33 to 36), each as if it ran alone (Writers has
-- what keeps it so), and make_dylan_vector of sources/lib/run-time/c-run-time.c.
pub mod Copies
pub mod Growth
pub mod Registry
pub mod Spread
pub mod Spec
pub mod Allocate
pub mod Write
pub mod Start
pub mod End
pub mod Refine
use opendylan.Prelude.{
  ℕ, zero, suc, ◌+◌, Bool, true, false, List, [], ◌∷◌, Option, none, some, leb, ◌==◌, if◌then◌else◌,
}
use mathlib.Core.Option
use opendylan.Prelude.Store.{Ptr, null, update}
use opendylan.Prelude.Loops.{fill}
use opendylan.Values.{Value}

-- A vector of Dylan objects: its size, and its slots by their offsets from its start in words,
-- the first at 2.
pub record TlvVector : Type 0 where
  pub size : ℕ
  pub slot : ℕ → Value

-- The memory of vectors. The addresses from `unused` on hold none yet.
pub record Vectors : Type 0 where
  pub at : Ptr → TlvVector
  pub unused : Ptr
  pub empty_vector : Ptr
  pub unbound : Value

-- tlv_vector_list_element, of one active thread
pub record TlvVectorListElement : Type 0 where
  pub thread : Ptr
  pub teb : Ptr
  pub tlv_vector : Ptr

-- `tlv_vector` is the TEBs' field.
pub record Tlv : Type 0 where
  pub vectors : Vectors
  pub default_tlv_vector : Ptr
  pub tlv_vector : Ptr → Ptr
  pub tlv_vector_list : List TlvVectorListElement
  pub tlv_vector_offset : ℕ

abbrev pub tlv_vector_initial_size : ℕ
tlv_vector_initial_size = 20

unfoldable pub make_dylan_vector : (n : ℕ) → Vectors → Ptr × Vectors
make_dylan_vector n m = if n == 0 then (m.empty_vector, m) else (
  m.unused,
  record m {
    at = update m.at m.unused (record { size = n; slot = λ _. m.unbound });
    unused = suc m.unused;
  },
)

unfoldable pub copy_tlv_vector : (destination source : Ptr) → Vectors → Vectors
copy_tlv_vector destination source m =
    let from : TlvVector = m.at source in
    let to : TlvVector = m.at destination in
    record m {
      at = update m.at destination (record to { slot = fill 0 from.slot from.size 2 to.slot });
    }

unfoldable pub grow_tlv_vector : (vector : Ptr) (newsize : ℕ) → Vectors → Ptr × Vectors
grow_tlv_vector vector newsize m =
    let made = make_dylan_vector newsize m in (made.0, copy_tlv_vector made.0 vector made.1)

-- What grow_all_tlv_vectors writes.
pub record Grown : Type 0 where
  pub vectors : Vectors
  pub tlv_vector : Ptr → Ptr
  pub tlv_vector_list : List TlvVectorListElement

-- The loop of grow_all_tlv_vectors.
unfoldable pub grow_each : (newsize : ℕ) → List TlvVectorListElement → Vectors → (Ptr → Ptr) → Grown
grow_each newsize [] m tebs = record { vectors = m; tlv_vector = tebs; tlv_vector_list = [] }
grow_each newsize (e ∷ es) m tebs =
    let made = grow_tlv_vector e.tlv_vector newsize m in
    let rest = grow_each newsize es made.1 (update tebs e.teb made.0) in
    record rest { tlv_vector_list = record e { tlv_vector = made.0 } ∷ rest.tlv_vector_list }

unfoldable pub grow_all_tlv_vectors : (newsize : ℕ) → Tlv → Tlv
grow_all_tlv_vectors newsize s =
    let made = grow_tlv_vector s.default_tlv_vector newsize s.vectors in
    let grown = grow_each newsize s.tlv_vector_list made.1 s.tlv_vector in
    record s {
      vectors = grown.vectors;
      default_tlv_vector = made.0;
      tlv_vector = grown.tlv_vector;
      tlv_vector_list = grown.tlv_vector_list;
    }

-- `vector[offset] = value`
unfoldable pub store : (vector : Ptr) (offset : ℕ) (value : Value) → Vectors → Vectors
store vector offset value m =
    let v : TlvVector = m.at vector in
    record m { at = update m.at vector (record v { slot = update v.slot offset value }) }

unfoldable pub update_each :
    (offset : ℕ) (value : Value) → List TlvVectorListElement → Vectors → Vectors
update_each offset value [] m = m
update_each offset value (e ∷ es) m =
    update_each offset value es (store e.tlv_vector offset value m)

unfoldable pub update_tlv_vectors : (offset : ℕ) (value : Value) → Tlv → Tlv
update_tlv_vectors offset value s = record s {
  vectors = update_each offset value s.tlv_vector_list s.vectors;
}

unfoldable pub add_tlv_vector : (thread teb tlv_vector : Ptr) → Tlv → Tlv
add_tlv_vector thread teb vector s =
    let e : TlvVectorListElement = record { thread = thread; teb = teb; tlv_vector = vector } in
    record s { tlv_vector_list = e ∷ s.tlv_vector_list }

-- The list without the first element of the thread; none where it has none.
unfoldable pub without :
    (thread : Ptr) → List TlvVectorListElement → Option (List TlvVectorListElement)
without thread [] = none
without thread (e ∷ es) =
    let rest = without thread es in
    if e.thread == thread then some es else Option.map (λ r. e ∷ r) rest

-- The result and the state after the search.
unfoldable pub removed : Tlv → Option (List TlvVectorListElement) → ℕ × Tlv
removed s none = (1, s)
removed s (some rest) = (0, record s { tlv_vector_list = rest })

-- With the result, 1 where the thread has no element.
unfoldable pub remove_tlv_vector : (thread : Ptr) → Tlv → ℕ × Tlv
remove_tlv_vector thread s = removed s (without thread s.tlv_vector_list)

-- `teb` is the current thread's.
unfoldable pub setup_tlv_vector : (thread teb : Ptr) → Tlv → Tlv
setup_tlv_vector thread teb s =
    let made = make_dylan_vector (s.vectors.at s.default_tlv_vector).size s.vectors in
    if s.tlv_vector teb == null
    then add_tlv_vector thread teb made.0 (record s {
      vectors = copy_tlv_vector made.0 s.default_tlv_vector made.1;
      tlv_vector = update s.tlv_vector teb made.0;
    })
    else s

-- make_teb, which gives the TEB no vector; `teb` is its address.
unfoldable pub make_teb : (teb : Ptr) → Tlv → Tlv
make_teb teb s = record s { tlv_vector = update s.tlv_vector teb null }

-- `teb` is the address of the initial thread's TEB.
unfoldable pub initialize_threads_primitives : (teb : Ptr) → Tlv → Tlv
initialize_threads_primitives teb s =
    let made = make_dylan_vector tlv_vector_initial_size s.vectors in
    setup_tlv_vector null teb
      (make_teb teb (record s { vectors = made.1; default_tlv_vector = made.0 }))

-- primitive_allocate_thread_variable, with the offset of the new variable
unfoldable pub allocate_thread_variable : (v : Value) → Tlv → ℕ × Tlv
allocate_thread_variable v s =
    let size = (s.vectors.at s.default_tlv_vector).size in
    let next : Tlv = record s { tlv_vector_offset = suc s.tlv_vector_offset } in
    let large : Tlv =
      if leb (size + 2) s.tlv_vector_offset
      then grow_all_tlv_vectors (size + size) next
      else next in
    let stored = store large.default_tlv_vector s.tlv_vector_offset v large.vectors in
    (
      s.tlv_vector_offset,
      update_tlv_vectors s.tlv_vector_offset v (record large { vectors = stored }),
    )

-- primitive_read_thread_variable, by the thread of `teb`
unfoldable pub read_thread_variable : (teb : Ptr) (h : ℕ) → Tlv → Value
read_thread_variable teb h s = (s.vectors.at (s.tlv_vector teb)).slot h

-- primitive_write_thread_variable
unfoldable pub write_thread_variable : (teb : Ptr) (h : ℕ) (nv : Value) → Tlv → Tlv
write_thread_variable teb h nv s = record s { vectors = store (s.tlv_vector teb) h nv s.vectors }
