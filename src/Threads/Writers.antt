-- ===== src/Threads/Writers.antt =====
-- How writers of thread variables and the thread that grows the vectors keep apart, by
-- tlv_writer_counter and tlv_vector_list_lock: primitive_write_thread_variable,
-- primitive_write_thread_variable_blocked, primitive_allocate_thread_variable and
-- grow_all_tlv_vectors of sources/lib/run-time/posix-threads.c, in steps; the atomic operations of
-- sources/lib/run-time/run-time.h.
pub mod Invariant
pub mod Safety
use opendylan.Prelude.{ℕ, ◌<◌, ◌≡◌, Bool, true, false, ◌&&◌, ◌==◌, if◌then◌else◌}
use opendylan.Prelude.Int.{ℤ, pos, negsuc, pos_part, neg_part, ◌+ℤ◌, ◌-ℤ◌, ltb_ℤ}
use opendylan.Prelude.Store.{update}

-- The new value, which is also what is stored.
unfoldable pub atomic_increment : ℤ → ℤ
atomic_increment var = var +ℤ pos 1

unfoldable pub atomic_decrement : ℤ → ℤ
atomic_decrement var = var -ℤ pos 1

abbrev pub eqb_ℤ : ℤ → ℤ → Bool
eqb_ℤ a b = (pos_part a == pos_part b) && (neg_part a == neg_part b)

-- The old value, and what is stored.
unfoldable pub atomic_cas : (destination exchange compare : ℤ) → ℤ × ℤ
atomic_cas destination exchange compare =
    (destination, if eqb_ℤ destination compare then exchange else destination)

-- -2000000
abbrev pub tlv_grow : ℤ
tlv_grow = negsuc 1999999

-- Where a thread is.
pub data Pc : Type 0 where
  idle : Pc
  -- in primitive_write_thread_variable, when the increment gave no negative count
  storing : Pc
  -- in primitive_write_thread_variable_blocked: before the decrement, the lock, the unlock and the
  -- increment
  blocked : Pc
  waiting : Pc
  waited : Pc
  retrying : Pc
  -- in primitive_allocate_thread_variable, with the lock: before the test of the size, in
  -- grow_all_tlv_vectors before its first exchange, at its copies, before its second exchange, and
  -- after the test or the growth
  allocating : Pc
  growing : Pc
  copying : Pc
  restoring : Pc
  allocated : Pc

-- tlv_writer_counter, and whether tlv_vector_list_lock is held
pub record Shared : Type 0 where
  pub tlv_writer_counter : ℤ
  pub locked : Bool

-- After the increments, and after the decrement of a blocked writer.
unfoldable pub after_increment : (count : ℤ) → Pc
after_increment count = if ltb_ℤ count (pos 0) then Pc.blocked else Pc.storing

unfoldable pub after_decrement : (count : ℤ) → Pc
after_decrement count = if ltb_ℤ count (pos 0) then Pc.waiting else Pc.retrying

-- After the exchange that lets a thread grow the vectors, and after the one that ends it.
unfoldable pub after_first_cas : (old : ℤ) → Pc
after_first_cas old = if eqb_ℤ old (pos 0) then Pc.copying else Pc.growing

unfoldable pub after_second_cas : (old : ℤ) → Pc
after_second_cas old = if eqb_ℤ old tlv_grow then Pc.allocated else Pc.restoring

abbrev pub counted : Shared → ℤ → Shared
counted m count = record m { tlv_writer_counter = count }

-- One step of a thread.
pub data Move (m : Shared) : Pc → Shared → Pc → Type 0 where
  enters_write :
      Move m Pc.idle
        (counted m (atomic_increment m.tlv_writer_counter))
        (after_increment (atomic_increment m.tlv_writer_counter))
  stores : Move m Pc.storing (counted m (atomic_decrement m.tlv_writer_counter)) Pc.idle
  undoes :
      Move m Pc.blocked
        (counted m (atomic_decrement m.tlv_writer_counter))
        (after_decrement (atomic_decrement m.tlv_writer_counter))
  locks : m.locked ≡ false → Move m Pc.waiting (record m { locked = true }) Pc.waited
  unlocks : Move m Pc.waited (record m { locked = false }) Pc.retrying
  retries :
      Move m Pc.retrying
        (counted m (atomic_increment m.tlv_writer_counter))
        (after_increment (atomic_increment m.tlv_writer_counter))
  enters_allocate : m.locked ≡ false → Move m Pc.idle (record m { locked = true }) Pc.allocating
  has_room : Move m Pc.allocating m Pc.allocated
  has_no_room : Move m Pc.allocating m Pc.growing
  first_cas :
      Move m Pc.growing
        (counted m (atomic_cas m.tlv_writer_counter tlv_grow (pos 0)).1)
        (after_first_cas (atomic_cas m.tlv_writer_counter tlv_grow (pos 0)).0)
  copies : Move m Pc.copying m Pc.restoring
  second_cas :
      Move m Pc.restoring
        (counted m (atomic_cas m.tlv_writer_counter (pos 0) tlv_grow).1)
        (after_second_cas (atomic_cas m.tlv_writer_counter (pos 0) tlv_grow).0)
  leaves_allocate : Move m Pc.allocated (record m { locked = false }) Pc.idle

-- `n` threads, the numbers below `n`, in any order.
pub record System : Type 0 where
  pub shared : Shared
  pub pc : ℕ → Pc

pub data Step (n : ℕ) (s : System) : System → Type 0 where
  moves :
      (i : ℕ) {m : Shared} {p : Pc}
      → i < n
      → Move s.shared (s.pc i) m p
      → Step n s (record { shared = m; pc = update s.pc i p })

abbrev pub start : System
start = record { shared = record { tlv_writer_counter = pos 0; locked = false }; pc = λ _. Pc.idle }

pub data Reach (n : ℕ) : System → Type 0 where
  started : Reach n start
  later : {s t : System} → Reach n s → Step n s t → Reach n t
