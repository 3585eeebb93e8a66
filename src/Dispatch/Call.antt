-- ===== src/Dispatch/Call.antt =====
-- Whole calls of generic functions: from the external entry point to the method.
use opendylan.Prelude.{ℕ, ◌+◌, ◌-◌, ◌≤◌, ◌<◌, ◌≡◌, ◌≢◌, sym, subst, List, length, get_or, arith}
use opendylan.Prelude.Store.{update}
use opendylan.Values.{Value}
use opendylan.Calls.{Words, Result, ok, max_arguments}
use opendylan.Dispatch.{
  Heap, State, Dispatcher, GenericFunction, signature_number_required, signature_optionals_p,
}
use opendylan.Dispatch.Tree.{Tree, select, depth, Represents}
use opendylan.Dispatch.Tree.Reach.{continue}
use opendylan.Dispatch.Select.{Finds, Enters, call_root-Enters}
use opendylan.Dispatch.Generic.{Started, call_generic_function, generic_function_xep}
use opendylan.Dispatch.Generic.Enter.{
  Starts, call_generic_function-Starts, call_generic_function-StartsOptional,
}

-- A generic function at an address, whose nodes are a tree, and a call of it.
module _ (d : Dispatcher) (h : Heap) (fuel : ℕ) (fn : Value) (gf : GenericFunction) (t : Tree)
    (new_arguments rest_arguments : Value) (arguments : Words) (args : List Value) (s : State) where
  abbrev nr : ℕ
  nr = signature_number_required gf.signature

  abbrev n : ℕ
  n = length args

  abbrev call : Result Started
  call =
      call_generic_function fn gf new_arguments rest_arguments arguments h args s
        (generic_function_xep gf.signature)

  -- The call returns no error and goes on to a method's code.
  pub record Dispatches (count : ℕ) (p : Words) (method_fn next_methods : Value) (code : ℕ)
      : Type 0 where
    pub started : Started
    pub returned : call ≡ ok started
    pub enters :
        Enters count p method_fn next_methods code
          (continue d started.heap fuel (depth t p 2) started.tail)

  starts-Dispatches :
      (count : ℕ) (p : Words) {m nm : Value} {c : ℕ}
      → Starts fn gf new_arguments rest_arguments arguments h args s count p call
      → count ≤ 64
      → Represents d h.object count t gf.engine fn
      → Finds h.object count (select t p fn).0 (select t p fn).1 m nm c
      → Dispatches count p m nm c
  starts-Dispatches count p starts small tree found = record {
    started = starts.started;
    returned = starts.returned;
    enters =
        subst
          (λ tail. Enters count p _ _ _ (continue d starts.started.heap fuel (depth t p 2) tail))
          (sym starts.entered)
          (call_root-Enters d starts.started.heap fuel count p starts.passed starts.carried small t
            gf.engine fn starts.state
            (subst (λ object. Represents d object count t gf.engine fn) (sym starts.objects) tree)
            (subst (λ object. Finds object count _ _ _ _ _) (sym starts.objects) found));
  }

  -- A generic function without optionals whose nodes represent a tree, called with as many arguments as
  -- it requires, at most 64, enters the method that the tree finds for the arguments, with all
  -- of them first among the method's arguments and with its next methods.
  pub call_generic_function-Dispatches :
      {m nm : Value} {c : ℕ}
      → signature_optionals_p gf.signature ≡ 0
      → n ≡ nr
      → nr ≤ 64
      → Represents d h.object nr t gf.engine fn
      → Finds h.object nr
          (select t (λ i. get_or args i 0) fn).0
          (select t (λ i. get_or args i 0) fn).1
          m
          nm
          c
      → Dispatches nr (λ i. get_or args i 0) m nm c
  call_generic_function-Dispatches plain count small tree found =
      starts-Dispatches nr _
        (call_generic_function-Starts fn gf new_arguments rest_arguments arguments h args s plain
          count (omega arith))
        small tree found

  abbrev optional_parameters : Words
  optional_parameters = update (λ i. get_or args i 0) nr rest_arguments

  -- What a call with optionals enters, and the #rest vector that it passes.
  pub record DispatchesOptional (method_fn next_methods : Value) (code : ℕ) : Type 0 where
    pub dispatches : Dispatches (nr + 1) optional_parameters method_fn next_methods code
    pub rest_size : (dispatches.started.heap.vector rest_arguments).size ≡ n - nr
    pub rest_words :
        (i : ℕ)
        → i < n - nr
        → (dispatches.started.heap.vector rest_arguments).elements i ≡ get_or args (nr + i) 0

  -- A generic function with optionals whose nodes represent a tree, called with at least as many
  -- arguments as it requires (fewer than 64) and with at most 256, enters the method that the tree
  -- finds, with the required arguments and a #rest vector that holds the others in order.
  pub call_generic_function-DispatchesOptional :
      {m nm : Value} {c : ℕ}
      → signature_optionals_p gf.signature ≡ 1
      → rest_arguments ≢ new_arguments
      → nr ≤ n
      → n ≤ max_arguments
      → nr < 64
      → Represents d h.object (nr + 1) t gf.engine fn
      → Finds h.object
          (nr + 1)
          (select t optional_parameters fn).0
          (select t optional_parameters fn).1
          m
          nm
          c
      → DispatchesOptional m nm c
  unfolding starts-Dispatches
  call_generic_function-DispatchesOptional optional apart enough few small tree found =
      let o =
        call_generic_function-StartsOptional fn gf new_arguments rest_arguments arguments h args s
          optional apart enough few in
      record {
        dispatches =
            starts-Dispatches (nr + 1) optional_parameters o.starts (omega arith) tree found;
        rest_size = o.rest_size;
        rest_words = o.rest_words;
      }
