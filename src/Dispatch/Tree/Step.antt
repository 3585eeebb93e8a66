-- ===== src/Dispatch/Tree/Step.antt =====
-- One node of a decision tree: what its entry point does with a call that reaches it.
use opendylan.Prelude.{
  ap, ==_iff, ==_ne, if◌then◌else◌, ℕ, zero, suc, ◌+◌, ◌-◌, ◌≤◌, ◌<◌, ◌≡◌, refl, sym, ◌∙◌, inl, inr,
  true, false, some, List, arith, leb, ◌==◌, get_or, Bool-cases,
}
use mathlib.Core.Option.{some-injective}
use opendylan.Values.{Value}
use opendylan.Calls.{Words}
use opendylan.Dispatch.{
  discriminate_engine_n_n, monomorphic_discriminator_engine_n_n, if_type_discriminator_engine_n_n,
  typecheck_discriminator_engine_n_n, Code, Engine, Heap, State, Dispatcher, entry_type,
  discriminate_engine, monomorphic_discriminator_engine, if_type_discriminator_engine,
  typecheck_discriminator_engine,
}
use opendylan.Dispatch.Nodes.{
  monomorphic_next, if_type_next, typecheck_next, discriminate_next, discriminate_engine_numbered,
  discriminate_engine_vector, node_engine,
}
use opendylan.Dispatch.Install.{
  discriminator_handler, discriminator_switch, if_type_handler, typecheck_handler,
  monomorphic_handler, discriminate_handler, engine_if_type, engine_typecheck, engine_monomorphic,
}
use opendylan.Dispatch.Tree.{
  IsDiscriminator, Carries, advance, Installed, by_if_type, by_typecheck, by_class, by_callback,
  Chooses, of_type, of_other_type, of_checked_type, of_refused_type, of_class, of_other_class,
  called_back,
}

module _ (numbered : (argnum nargs : ℕ) → Code) (n_n : Code) where
  switch_near :
      (n i : ℕ) → n ≤ 7 → i < n → discriminator_switch numbered n_n n i ≡ some (numbered (i + 1) n)
  unfolding discriminator_switch
  switch_near zero i few range = absurd (omega arith)
  switch_near (suc zero) zero few range = refl
  switch_near (suc zero) (suc i) few range = absurd (omega arith)
  switch_near (suc (suc n)) i few range = ground arith

  switch_far : (n i : ℕ) → 7 < n → discriminator_switch numbered n_n n i ≡ some n_n
  unfolding discriminator_switch
  switch_far n i many = ground arith

  pub switch_all :
      (n i : ℕ)
      → i < n
      → discriminator_switch numbered n_n n i ≡ some (if leb n 7 then numbered (i + 1) n else n_n)
  switch_all n i range = elim (Bool-cases (leb n 7)) [
    | inl near ↦ rw near (switch_near n i (ground (arith, near)) range)
    | inr far ↦ rw far (switch_far n i (ground (arith, far)))
  ]

module _ (d : Dispatcher) where
  -- The next node of a discriminator as the code gives it, by its kind.
  unfoldable discriminator_next : (node parent : Value) → Engine → Value → Value
  unfolding entry_type monomorphic_next if_type_next typecheck_next discriminate_next
  discriminator_next node parent e arg =
      if entry_type e.properties == engine_if_type
      then if_type_next d e arg
      else if entry_type e.properties == engine_typecheck
      then typecheck_next d e arg
      else if entry_type e.properties == engine_monomorphic
      then monomorphic_next d e arg
      else discriminate_next d node parent e arg

  Chooses-next :
      (node parent : Value) (e : Engine) (arg next : Value)
      → Chooses d node parent e arg next
      → discriminator_next node parent e arg ≡ next
  unfolding discriminator_next if_type_next typecheck_next monomorphic_next discriminate_next
  Chooses-next node parent e arg _ (of_type k is) = rw (k, is) refl
  Chooses-next node parent e arg _ (of_other_type k is) = rw (k, is) refl
  Chooses-next node parent e arg _ (of_checked_type k is) = rw (k, is) refl
  Chooses-next node parent e arg _ (of_refused_type k is) = rw (k, is) refl
  Chooses-next node parent e arg _ (of_class k is) = rw (k, (==_iff _ _).1 is) refl
  Chooses-next node parent e arg _ (of_other_class k is) = rw (k, ==_ne _ _ is) refl
  Chooses-next node parent e arg _ (called_back a b c) =
      rw (==_ne _ _ a, ==_ne _ _ b, ==_ne _ _ c) refl

module _ (d : Dispatcher) (h : Heap) (n i : ℕ) (p : Words) (e : Engine) (args : List Value)
    (s : State) (disc : IsDiscriminator n i e) (c : Carries h n p args) where
  numbered-advance :
      (choose : Engine → Value → Value)
      → n ≤ 7
      → discriminate_engine_numbered d h choose (i + 1) args e s
        ≡ advance h n s.next_methods (choose e (p i)) args s
  unfolding discriminate_engine_numbered advance
  numbered-advance choose small =
      let near : leb n 7 ≡ true = ground arith in
      let same : (i + 1) - 1 ≡ i = omega arith in
      let word : get_or args ((i + 1) - 1) 0 ≡ p i =
        rw same (c.spread_words small i disc.in_range) in
      rw (word, near) refl

  vector-advance :
      (choose : Engine → Value → Value)
      → 7 < n
      → discriminate_engine_vector d h choose (get_or args 0 0) e s
        ≡ advance h n s.next_methods (choose e (p i)) args s
  unfolding discriminate_engine_vector advance
  vector-advance choose big =
      let far : leb n 7 ≡ false = ground arith in
      rw (far, disc.tested, c.boxed_words big i disc.in_range) refl

  -- A family of discriminators does what its choice says, for each number of arguments.
  family-advance :
      (numbered : (argnum nargs : ℕ) → Code) (n_n : Code) (choose : Engine → Value → Value)
      (fuel : ℕ)
      → ((j k : ℕ)
          → node_engine d h fuel (numbered j k) args e s
            ≡ discriminate_engine_numbered d h choose j args e s)
      → (node_engine d h fuel n_n args e s
          ≡ discriminate_engine_vector d h choose (get_or args 0 0) e s)
      → (code : Code) → discriminator_switch numbered n_n n i ≡ some code
      → node_engine d h fuel code args e s ≡ advance h n s.next_methods (choose e (p i)) args s
  family-advance numbered n_n choose fuel small big code eq = elim (Bool-cases (leb n 7)) [
    | inl near ↦
        let few : n ≤ 7 = ground arith in
        let same = some-injective _ _ (sym eq ∙ switch_near numbered n_n n i few disc.in_range) in
        rw (same, small (i + 1) n) (numbered-advance choose few)
    | inr far ↦
        let many : 7 < n = ground arith in
        let same = some-injective _ _ (sym eq ∙ switch_far numbered n_n n i many) in
        rw (same, big) (vector-advance choose many)
  ]

  handler-advance :
      (fuel : ℕ) (code : Code)
      → discriminator_handler e.properties ≡ some code
      → node_engine d h fuel code args e s
        ≡ advance h n s.next_methods (discriminator_next d s.function s.next_methods e (p i)) args s
  unfolding discriminator_next discriminator_handler if_type_handler typecheck_handler
      monomorphic_handler discriminate_handler node_engine
  handler-advance fuel code eq =
      let eq' = rw (disc.tested, disc.arguments) at eq in
      elim (Bool-cases (entry_type e.properties == engine_if_type)) [
        | inl k ↦ rw k (
            family-advance if_type_discriminator_engine _ (if_type_next d) fuel (λ _ _. refl) refl
              code (rw k at eq'))
        | inr k ↦ elim (Bool-cases (entry_type e.properties == engine_typecheck)) [
          | inl l ↦
              rw (k, l)
                (family-advance typecheck_discriminator_engine _ (typecheck_next d) fuel
                  (λ _ _. refl) refl code (rw (k, l) at eq'))
          | inr l ↦ elim (Bool-cases (entry_type e.properties == engine_monomorphic)) [
            | inl m ↦
                rw (k, l, m)
                  (family-advance monomorphic_discriminator_engine _ (monomorphic_next d) fuel
                    (λ _ _. refl) refl code (rw (k, l, m) at eq'))
            | inr m ↦
                rw (k, l, m)
                  (family-advance discriminate_engine _
                    (discriminate_next d s.function s.next_methods) fuel (λ _ _. refl) refl code
                    (rw (k, l, m) at eq'))
          ]
        ]
      ]

  handler-Installed : Installed n i e → discriminator_handler e.properties ≡ some e.entry_point
  unfolding discriminator_handler if_type_handler typecheck_handler monomorphic_handler
      discriminate_handler
  handler-Installed (by_if_type k same) =
      rw (k, disc.tested, disc.arguments)
        (switch_all if_type_discriminator_engine if_type_discriminator_engine_n_n n i disc.in_range
          ∙ ap some (sym same))
  handler-Installed (by_typecheck k same) =
      rw (k, disc.tested, disc.arguments)
        (switch_all typecheck_discriminator_engine typecheck_discriminator_engine_n_n n i
            disc.in_range
          ∙ ap some (sym same))
  handler-Installed (by_class k same) =
      rw (k, disc.tested, disc.arguments)
        (switch_all monomorphic_discriminator_engine monomorphic_discriminator_engine_n_n n i
            disc.in_range
          ∙ ap some (sym same))
  handler-Installed (by_callback x y z same) =
      rw (==_ne _ _ x, ==_ne _ _ y, ==_ne _ _ z, disc.tested, disc.arguments)
        (switch_all discriminate_engine discriminate_engine_n_n n i disc.in_range
          ∙ ap some (sym same))

  -- The entry point of an initialized discriminator goes on to the node that is to be chosen, by the
  -- argument that it tests, with the parent and the arguments unchanged.
  pub discriminator-advance :
      (fuel : ℕ) (next : Value)
      → Chooses d s.function s.next_methods e (p i) next
      → node_engine d h fuel e.entry_point args e s ≡ advance h n s.next_methods next args s
  discriminator-advance fuel next chosen =
      handler-advance fuel e.entry_point (handler-Installed disc.installed)
      ∙ ap (λ x. advance h n s.next_methods x args s)
          (Chooses-next d s.function s.next_methods e (p i) next chosen)
