-- ===== src/Dispatch/Generic/Stack.antt =====
-- Vectors on the stack, and the arguments that lists and vectors carry.
use opendylan.Prelude.{
  ℕ, zero, suc, ◌≤◌, ◌<◌, ◌≡◌, ◌≢◌, refl, ap, ◌∙◌, List, [], ◌∷◌, arith, length, get_or,
}
use opendylan.Prelude.Loops.{fill, fill-inside}
use opendylan.Prelude.Store.{update, update_self, update-ne}
use opendylan.Values.{Value}
use opendylan.Calls.{Words, Vector, err, call_check, argument_count_error, max_arguments}
use opendylan.Dispatch.{Heap, spread}
use opendylan.Dispatch.Tree.{Carries}
use opendylan.Dispatch.Generic.{
  basic_required_call_check, basic_optional_call_check, def_stack_vector, vector_ref_setter,
}

pub length-spread : (n : ℕ) (a : Words) → length (spread n a) ≡ n
unfolding spread
length-spread zero a = refl
length-spread (suc n) a = ap suc (length-spread n λ i. a (suc i))

pub get_or-spread : (n : ℕ) (a : Words) (i : ℕ) → i < n → get_or (spread n a) i 0 ≡ a i
unfolding spread
get_or-spread zero a i range = absurd (omega arith)
get_or-spread (suc n) a zero range = refl
get_or-spread (suc n) a (suc i) range = get_or-spread n (λ j. a (suc j)) i (omega arith)

-- The vector that is made on the stack.
module _ (name : Value) (size : ℕ) (buffer : Words) (n : ℕ) (h : Heap) where
  pub stack_vector_self :
      (def_stack_vector name size buffer n h).vector name
      ≡ record { size = size; elements = fill 0 buffer n 0 (h.vector name).elements }
  unfolding def_stack_vector
  stack_vector_self = update_self h.vector name _

  pub stack_vector_object : (def_stack_vector name size buffer n h).object ≡ h.object
  unfolding def_stack_vector
  stack_vector_object = refl

  pub stack_vector_size : ((def_stack_vector name size buffer n h).vector name).size ≡ size
  stack_vector_size = ap (λ (v : Vector). v.size) stack_vector_self

  pub stack_vector_words :
      (i : ℕ) → i < n → ((def_stack_vector name size buffer n h).vector name).elements i ≡ buffer i
  stack_vector_words i range =
      ap (λ (v : Vector). v.elements i) stack_vector_self
      ∙ ap (fill 0 buffer n 0 (h.vector name).elements) (omega arith)
      ∙ fill-inside 0 buffer n 0 (h.vector name).elements i (omega arith) (omega arith)

  pub stack_vector_other :
      (x : Value) → x ≢ name → (def_stack_vector name size buffer n h).vector x ≡ h.vector x
  unfolding def_stack_vector
  stack_vector_other x ne = update-ne h.vector name _ x ne

-- The vector that an element is written to.
module _ (x v : Value) (offset : ℕ) (h : Heap) where
  pub element_set_self :
      (vector_ref_setter x v offset h).vector v
      ≡ record { size = (h.vector v).size; elements = update (h.vector v).elements offset x }
  unfolding vector_ref_setter
  element_set_self = update_self h.vector v _

  pub element_set_other :
      (w : Value) → w ≢ v → (vector_ref_setter x v offset h).vector w ≡ h.vector w
  unfolding vector_ref_setter
  element_set_other w ne = update-ne h.vector v _ w ne

  pub element_set_object : (vector_ref_setter x v offset h).object ≡ h.object
  unfolding vector_ref_setter
  element_set_object = refl

-- Spread arguments carry parameters, when there are at most seven.
pub Carries-few :
    (h : Heap) (n : ℕ) (p : Words) (args : List Value)
    → n ≤ 7
    → length args ≡ n
    → ((i : ℕ) → i < n → get_or args i 0 ≡ p i)
    → Carries h n p args
Carries-few h n p args few count words = record {
  spread_length = λ _. count;
  spread_words = λ _. words;
  boxed = λ many. absurd (omega arith);
  boxed_size = λ many. absurd (omega arith);
  boxed_words = λ many. absurd (omega arith);
}

-- A vector of them carries parameters, when there are more.
pub Carries-many :
    (h : Heap) (n : ℕ) (p : Words) (v : Value)
    → 7 < n
    → (h.vector v).size ≡ n
    → ((i : ℕ) → i < n → (h.vector v).elements i ≡ p i)
    → Carries h n p (v ∷ [])
Carries-many h n p v many count words = record {
  spread_length = λ few. absurd (omega arith);
  spread_words = λ few. absurd (omega arith);
  boxed = λ _. refl;
  boxed_size = λ _. count;
  boxed_words = λ _. words;
}

pub basic_required_call_check-fails :
    (nr n : ℕ)
    → n ≤ max_arguments
    → n ≢ nr
    → basic_required_call_check nr n ≡ err (argument_count_error n)
unfolding basic_required_call_check call_check
basic_required_call_check-fails nr n small wrong = ground arith

pub basic_optional_call_check-fails :
    (nr n : ℕ)
    → n ≤ max_arguments
    → n < nr
    → basic_optional_call_check nr n ≡ err (argument_count_error n)
unfolding basic_optional_call_check call_check
basic_optional_call_check-fails nr n small few = ground arith
