-- ===== src/Tests/VariableTests.antt =====
-- Runs of the thread variables of sources/lib/run-time/posix-threads.c, and the theorems about them.
use opendylan.Prelude.{ℕ, zero, suc, ◌≡◌, ◌≢◌, refl, arith, [], ◌∷◌, true}
use mathlib.Core.List.{Memᴰ}
use opendylan.Prelude.Store.{update}
use opendylan.Threads.Variables.{
  Tlv, make_dylan_vector, copy_tlv_vector, grow_tlv_vector, grow_each, grow_all_tlv_vectors, store,
  update_each, update_tlv_vectors, add_tlv_vector, without, removed, remove_tlv_vector,
  setup_tlv_vector, make_teb, initialize_threads_primitives, allocate_thread_variable,
  read_thread_variable, write_thread_variable,
}
use opendylan.Threads.Variables.Spec.{
  Variables, initially, enter, declare, assign, IsActive, Reach, initialized, allocated, written,
}
use opendylan.Threads.Variables.Refine.{IsLoaded, read_thread_variable-Reach}
use opendylan.Threads.Writers as Writers
use opendylan.Threads.Writers.{
  Pc, idle, storing, allocating, growing, copying, System, Shared, moves, enters_allocate,
  has_no_room, first_cas, atomic_cas, after_first_cas, eqb_ℤ, tlv_grow,
}
use opendylan.Threads.Writers.Safety.{storing-copying, Reach-Advances, Advances}

abbrev loaded : Tlv
loaded = record {
  vectors = record {
    at = λ _. record { size = 0; slot = λ _. 0 };
    unused = 1;
    empty_vector = 0;
    unbound = 0;
  };
  default_tlv_vector = 0;
  tlv_vector = λ _. 0;
  tlv_vector_list = [];
  tlv_vector_offset = 2;
}

-- `n` variables, all of initial value 7.
abbrev allocate_times : (n : ℕ) → Tlv → Tlv
allocate_times zero s = s
allocate_times (suc n) s = (allocate_thread_variable 7 (allocate_times n s)).1

-- A thread's own value survives the growth of the vectors, and a later thread starts without it.
keeps_values :
    (let s = allocate_times 21 (
        write_thread_variable 100 2 9
          (allocate_times 1 (initialize_threads_primitives 100 loaded))) in
      let later = setup_tlv_vector 5 200 (make_teb 200 s) in
      read_thread_variable 100 2 later
      ∷ read_thread_variable 200 2 later
      ∷ read_thread_variable 100 22 later
      ∷ (later.vectors.at later.default_tlv_vector).size
      ∷ [])
    ≡ (9 ∷ 7 ∷ 7 ∷ 40 ∷ [])
unfolding make_dylan_vector copy_tlv_vector grow_tlv_vector grow_each grow_all_tlv_vectors store
    update_each update_tlv_vectors add_tlv_vector setup_tlv_vector make_teb
    initialize_threads_primitives allocate_thread_variable read_thread_variable
    write_thread_variable
keeps_values = refl

-- A thread that has ended has no element left.
removes_once :
    (let s = setup_tlv_vector 5 200 (make_teb 200 (initialize_threads_primitives 100 loaded)) in
      let once = remove_tlv_vector 5 s in once.0 ∷ (remove_tlv_vector 5 once.1).0 ∷ [])
    ≡ (0 ∷ 1 ∷ [])
unfolding make_dylan_vector copy_tlv_vector add_tlv_vector without removed remove_tlv_vector
    setup_tlv_vector make_teb initialize_threads_primitives
removes_once = refl

loaded-IsLoaded : IsLoaded loaded
loaded-IsLoaded = record { offset = refl; no_threads = refl; memory = omega arith }

abbrev begun : Tlv
begun = (allocate_thread_variable 7 (initialize_threads_primitives 100 loaded)).1

abbrev begun_variables : Variables
begun_variables = declare 7 (enter 0 100 (initially 0))

begun-IsActive : IsActive 100 begun
unfolding make_dylan_vector copy_tlv_vector store update_each update_tlv_vectors add_tlv_vector
    setup_tlv_vector make_teb initialize_threads_primitives allocate_thread_variable
begun-IsActive = (record { thread = 0; teb = 100; tlv_vector = 2 }, Memᴰ.head refl, refl)

written-IsActive : IsActive 100 (write_thread_variable 100 2 9 begun)
unfolding write_thread_variable
written-IsActive = begun-IsActive

begun_offset : begun.tlv_vector_offset ≡ 3
unfolding make_dylan_vector copy_tlv_vector store update_each update_tlv_vectors add_tlv_vector
    setup_tlv_vector make_teb initialize_threads_primitives allocate_thread_variable
begun_offset = refl

begun-Reach :
    Reach 100 loaded (write_thread_variable 100 2 9 begun) (assign 100 2 9 begun_variables)
begun-Reach =
    written 100 2 9 begun-IsActive (omega arith) (omega (arith, begun_offset))
      (allocated 7 initialized)

read_thread_variable-Reach_example :
    read_thread_variable 100 2 (write_thread_variable 100 2 9 begun)
    ≡ (assign 100 2 9 begun_variables).own 100 2
read_thread_variable-Reach_example =
    read_thread_variable-Reach 100 loaded loaded-IsLoaded (write_thread_variable 100 2 9 begun)
      (assign 100 2 9 begun_variables) 100 2 begun-Reach written-IsActive (omega arith)
      (omega arith)

abbrev copies_vectors : System
copies_vectors = record {
  shared = record { tlv_writer_counter = tlv_grow; locked = true };
  pc = update (update (update (λ _. idle) 0 allocating) 0 growing) 0 copying;
}

copies_vectors-Reach : Writers.Reach 2 copies_vectors
unfolding atomic_cas after_first_cas
copies_vectors-Reach =
    Writers.later
      (Writers.later (Writers.later Writers.started (moves 0 (omega arith) (enters_allocate refl)))
        (moves 0 (omega arith) has_no_room))
      (moves 0 (omega arith) first_cas)

storing-copying_example : copies_vectors.pc 1 ≢ storing
storing-copying_example =
    storing-copying 2 copies_vectors 0 1 (omega arith) copies_vectors-Reach (omega arith)
      (omega arith) refl

Reach-Advances_example : (j : ℕ) × Advances 2 copies_vectors j
Reach-Advances_example =
    Reach-Advances 2 copies_vectors 0 (omega arith) copies_vectors-Reach (omega arith)
      (ground arith)
