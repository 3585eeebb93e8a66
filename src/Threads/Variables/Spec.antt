-- ===== src/Threads/Variables/Spec.antt =====
-- Thread variables without vectors: what sources/lib/run-time/posix-threads.c promises of them.
use opendylan.Prelude.{ℕ, suc, ◌+◌, ◌≤◌, ◌<◌, ◌≡◌, ◌≢◌, List, [], ◌∷◌, ◌==◌, if◌then◌else◌}
use mathlib.Core.List.{Memᴰ}
use opendylan.Prelude.Store.{Ptr, null, update}
use opendylan.Values.{Value}
use opendylan.Threads.Variables.{
  TlvVectorListElement, Tlv, make_teb, setup_tlv_vector, remove_tlv_vector,
  allocate_thread_variable, write_thread_variable, initialize_threads_primitives,
}
use opendylan.Threads.Variables.Growth.{threads}
use opendylan.Threads.Variables.Registry.{IsRegistry}

-- The variables are the numbers from 2 on, below `next`. Each has an initial value, and a value in
-- each active thread, by its TEB.
pub record Variables : Type 0 where
  pub next : ℕ
  pub initial : ℕ → Value
  pub own : Ptr → ℕ → Value
  pub active : List (Ptr × Ptr)

-- No variables, and no threads.
abbrev pub initially : (unbound : Value) → Variables
initially unbound = record { next = 2; initial = λ _. unbound; own = λ _ _. unbound; active = [] }

-- A new variable, with its initial value in all threads.
abbrev pub declare : Value → Variables → Variables
declare v a = record a {
  next = suc a.next;
  initial = update a.initial a.next v;
  own = λ t. update (a.own t) a.next v;
}

-- One thread gives one variable a value of its own.
abbrev pub assign : (teb : Ptr) (variable : ℕ) (v : Value) → Variables → Variables
assign teb i v a = record a { own = update a.own teb (update (a.own teb) i v) }

-- A new thread starts with the initial values.
abbrev pub enter : (thread teb : Ptr) → Variables → Variables
enter thread teb a = record a {
  own = update a.own teb a.initial;
  active = (thread, teb) ∷ a.active;
}

abbrev pub drop : (thread : Ptr) → List (Ptr × Ptr) → List (Ptr × Ptr)
drop thread [] = []
drop thread (x ∷ xs) = if x.0 == thread then xs else x ∷ drop thread xs

abbrev pub leave : (thread : Ptr) → Variables → Variables
leave thread a = record a { active = drop thread a.active }

-- A TEB of no active thread.
abbrev pub IsIdle : (teb : Ptr) → Tlv → Type 0
IsIdle teb s = (e : TlvVectorListElement) → Memᴰ e s.tlv_vector_list → e.teb ≢ teb

-- A TEB of an active thread.
abbrev pub IsActive : (teb : Ptr) → Tlv → Type 0
IsActive teb s = (e : TlvVectorListElement) × Memᴰ e s.tlv_vector_list × (e.teb ≡ teb)

-- What happens to thread variables, in any order: variables are allocated, active threads write
-- the variables that there are, threads start with new TEBs, are initialized again, and end.
pub data Reach (teb : Ptr) (loaded : Tlv) : Tlv → Variables → Type 0 where
  initialized :
      Reach teb loaded
        (initialize_threads_primitives teb loaded)
        (enter null teb (initially loaded.vectors.unbound))
  allocated :
      {s : Tlv} {a : Variables} (v : Value)
      → Reach teb loaded s a
      → Reach teb loaded (allocate_thread_variable v s).1 (declare v a)
  written :
      {s : Tlv} {a : Variables} (t : Ptr) (i : ℕ) (v : Value)
      → IsActive t s
      → 2 ≤ i
      → i < s.tlv_vector_offset
      → Reach teb loaded s a
      → Reach teb loaded (write_thread_variable t i v s) (assign t i v a)
  started :
      {s : Tlv} {a : Variables} (thread t : Ptr)
      → IsIdle t s
      → Reach teb loaded s a
      → Reach teb loaded (setup_tlv_vector thread t (make_teb t s)) (enter thread t a)
  initialized_again :
      {s : Tlv} {a : Variables} (thread t : Ptr)
      → IsActive t s
      → Reach teb loaded s a
      → Reach teb loaded (setup_tlv_vector thread t s) a
  ended :
      {s : Tlv} {a : Variables} (thread : Ptr)
      → Reach teb loaded s a
      → Reach teb loaded (remove_tlv_vector thread s).1 (leave thread a)

-- The slots hold what the variables have.
pub record Represents (s : Tlv) (a : Variables) : Type 0 where
  pub registry : IsRegistry s
  pub low : 2 ≤ s.tlv_vector_offset
  pub bounded : s.tlv_vector_offset ≤ (s.vectors.at s.default_tlv_vector).size + 2
  pub next : s.tlv_vector_offset ≡ a.next
  pub active : threads s.tlv_vector_list ≡ a.active
  pub initial :
      (i : ℕ)
      → 2 ≤ i
      → i < s.tlv_vector_offset
      → (s.vectors.at s.default_tlv_vector).slot i ≡ a.initial i
  pub own :
      (e : TlvVectorListElement)
      → Memᴰ e s.tlv_vector_list
      → (i : ℕ) → 2 ≤ i
      → i < s.tlv_vector_offset
      → (s.vectors.at e.tlv_vector).slot i ≡ a.own e.teb i
