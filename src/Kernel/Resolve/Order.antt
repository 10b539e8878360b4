-- ===== src/Kernel/Resolve/Order.antt =====
-- What `_topological` of src/aurora_kernel/resolve.py returns.
use aurora_bot.Prelude.{
  ℕ, suc, ◌≡◌, ◌⊎◌, refl, ap, sym, ◌∙◌, subst, String, true, false, not, ◌&&◌, some, List, [], ◌∷◌,
  eq_iff, string_eq, nat_eq, ◌==◌, ==_cases, arith, length, map, keep, any, get_elem?, contains,
  contains-keep, minus, contains-minus, nat_beq, nat_beq_iff, Distinct, is_empty, All, leb,
  contains-sorted, sorted-Distinct, if◌then◌else◌, if_case, Bool-cases, inl, inr, Result, ok, err,
}
use aurora_bot.Prelude.Dict
use aurora_bot.Prelude.Dict.{Dict}
use aurora_bot.Prelude.Sets.{Distinct-keep, length-le_of_subset, contains_of_length}
use aurora_bot.Kernel.Declaration.{ModuleSpec}
use aurora_bot.Kernel.Optional.{identities}
use aurora_bot.Kernel.Resolve.Checks.{ResolveError, cycle}
use aurora_bot.Kernel.Resolve.Topological.{
  position_of, resolved_names, resolve_names, in_degrees, ready_positions, topological,
}
use aurora_bot.Kernel.Resolve.Release.{position_of-injective}
use aurora_bot.Kernel.Resolve.Search.{InOrder, Inv, deps, waiting}
use aurora_bot.Kernel.Resolve.Loop.{
  length-identities, search_order-Inv, InOrder-weaken, any-minus, is_empty-minus,
}

module _ {C : Type 0} (specs : List (ModuleSpec C)) (dependencies : Dict String (List String)) where
  -- What a module waits for: its dependencies among the other modules.
  abbrev pub waits_for : String → List String
  waits_for n = resolved_names (identities specs) (Dict.get_or dependencies n []) n

  resolved : Dict String (List String)
  resolved = resolve_names (identities specs) dependencies (identities specs)

  get_or-resolve_names :
      (names : List String) (n : String)
      → Dict.get_or (resolve_names (identities specs) dependencies names) n []
        ≡ (if contains names n then waits_for n else [])
  unfolding resolve_names Dict.get_or
  get_or-resolve_names [] n = refl
  get_or-resolve_names (x ∷ names) n = elim (==_cases x n) [
    | inl (t, p) ↦ rw t (ap waits_for p)
    | inr (f, p) ↦ rw f (get_or-resolve_names names n)
  ]

  get_or-in_degrees :
      (d : Dict String (List String)) (n : String)
      → Dict.get_or (in_degrees d) n 0 ≡ length (Dict.get_or d n [])
  unfolding in_degrees Dict.get_or
  get_or-in_degrees [] n = refl
  get_or-in_degrees ((k, v) ∷ d) n = ground (arith, get_or-in_degrees d n)

  minus_none : (xs : List String) → minus xs [] ≡ xs
  minus_none [] = refl
  minus_none (x ∷ xs) = ap (◌∷◌ x) (minus_none xs)

  keys-in_degrees :
      (names : List String)
      → Dict.keys (in_degrees (resolve_names (identities specs) dependencies names)) ≡ names
  unfolding in_degrees resolve_names
  keys-in_degrees [] = refl
  keys-in_degrees (x ∷ names) = ap (◌∷◌ x) (keys-in_degrees names)

  -- The positions before they are made a heap.
  positions : Dict String ℕ → List ℕ
  positions d =
      map (λ entry. position_of (identities specs) entry.0) (keep (λ entry. nat_beq entry.1 0) d)

  positions_only :
      (d : Dict String ℕ) (p : ℕ)
      → Distinct (Dict.keys d)
      → contains (positions d) p ≡ true
      → (n : String) × (p ≡ position_of (identities specs) n)
        × (contains (Dict.keys d) n ≡ true)
        × (Dict.get_or d n 0 ≡ 0)
  unfolding positions Dict.get_or
  positions_only [] p k h = absurd (cc)
  positions_only ((n, m) ∷ d) p k h =
      elim (Bool-cases (nat_beq m 0 && nat_beq (position_of (identities specs) n) p)) [
        | inl t ↦ (
          n,
          ground (arith, nat_beq_iff (position_of (identities specs) n) p),
          ground (arith, eq_iff n n),
          ground (arith, eq_iff n n),
        )
        | inr f ↦
            let (j, e, c, z) = positions_only d p k.1 (ground arith) in
            (j, e, ground arith, ground (arith, eq_iff n j, ap (contains (Dict.keys d))))
      ]

  positions_all :
      (d : Dict String ℕ) (n : String)
      → contains (Dict.keys d) n ≡ true
      → Dict.get_or d n 0 ≡ 0
      → contains (positions d) (position_of (identities specs) n) ≡ true
  unfolding positions Dict.get_or
  positions_all [] n c z = absurd (cc)
  positions_all ((k, m) ∷ d) n c z = ground (
    arith,
    positions_all d n,
    eq_iff k n,
    ap (position_of (identities specs)),
    nat_beq_iff (position_of (identities specs) k) (position_of (identities specs) n),
  )

  positions-Distinct :
      (d : Dict String ℕ)
      → Distinct (Dict.keys d)
      → ((n : String) → contains (Dict.keys d) n ≡ true → contains (identities specs) n ≡ true)
      → Distinct (positions d)
  unfolding positions
  positions-Distinct [] k i = tt
  positions-Distinct ((n, m) ∷ d) k i = elim (Bool-cases (nat_beq m 0)) [
    | inl b ↦ rw b (fresh, positions-Distinct d k.1 (λ j c. i j (ground arith)))
    | inr b ↦ rw b (positions-Distinct d k.1 (λ j c. i j (ground arith)))
  ]
    where
      fresh : contains (positions d) (position_of (identities specs) n) ≡ false
      fresh = elim (Bool-cases (contains (positions d) (position_of (identities specs) n))) [
        | inl t ↦
            let (j, e, c, z) = positions_only d _ k.1 t in
            absurd (
              cc (
                k.0,
                c,
                position_of-injective (identities specs) n j (i n (ground (arith, eq_iff n n)))
                    (i j (ground arith)) e,
              ))
        | inr f ↦ f
      ]

  -- What is said of the outcome: an order of all the modules, each after those that it waits for;
  -- or some modules of which each waits for another one of them.
  abbrev pub Outcome : Result ResolveError (List (ModuleSpec C)) → Type 0
  Outcome (ok order) =
      ((n : String) → contains (identities order) n ≡ contains (identities specs) n)
      × Distinct (identities order)
      × All (λ s. get_elem? specs (position_of (identities specs) s.module_id) ≡ some s) order
      × InOrder waits_for [] (identities order)
  Outcome (err e) =
      (e ≡ cycle)
      × (stuck : List String) × (is_empty stuck ≡ false)
      × ((n : String) → contains stuck n ≡ true → contains (identities specs) n ≡ true)
      × ((n : String) → contains stuck n ≡ true → any (λ d. contains stuck d) (waits_for n) ≡ true)

  module _ (names_differ : Distinct (identities specs))
      (sets : (n : String) → Distinct (Dict.get_or dependencies n [])) where
    deps-waits_for :
        (n : String) → contains (identities specs) n ≡ true → deps specs resolved n ≡ waits_for n
    unfolding resolved
    deps-waits_for n i = get_or-resolve_names (identities specs) n ∙ rw i

    deps_differ : (n : String) → Distinct (deps specs resolved n)
    unfolding resolved resolved_names
    deps_differ n = rw (get_or-resolve_names (identities specs) n) (
        if_case Distinct (contains (identities specs) n) _ _ (λ b. Distinct-keep _ _ (sets n))
          (λ b. tt))

    keys-degrees : Dict.keys (in_degrees resolved) ≡ identities specs
    unfolding resolved
    keys-degrees = keys-in_degrees (identities specs)

    keys_differ : Distinct (Dict.keys (in_degrees resolved))
    keys_differ = rw keys-degrees names_differ

    start :
        Inv specs resolved
          (in_degrees resolved)
          (ready_positions (identities specs) (in_degrees resolved))
          []
    unfolding ready_positions positions identities
    start = record {
      degree = λ n i.
          get_or-in_degrees resolved n ∙ ap length (sym (minus_none (deps specs resolved n)));
      queued = λ p h. from_heap p (
          positions_only (in_degrees resolved) p keys_differ
            (sym (contains-sorted leb (positions (in_degrees resolved)) p) ∙ h));
      single = sorted-Distinct leb _ (
          positions-Distinct (in_degrees resolved) keys_differ
            (λ n c. subst (λ k. contains k n ≡ true) keys-degrees c));
      ready = λ n i w. inr (
          contains-sorted leb (positions (in_degrees resolved)) (position_of (identities specs) n)
          ∙ positions_all (in_degrees resolved) n (rw keys-degrees i) (
              get_or-in_degrees resolved n
              ∙ ap length (sym (minus_none (deps specs resolved n)))
              ∙ w));
      inside = λ n h. absurd (cc);
      once = tt;
      ordered = tt;
      placed = tt;
    }
      where
        from_heap :
            (p : ℕ)
            → (n : String) × (p ≡ position_of (identities specs) n)
              × (contains (Dict.keys (in_degrees resolved)) n ≡ true)
              × (Dict.get_or (in_degrees resolved) n 0 ≡ 0)
            → (n : String) × (p ≡ position_of (identities specs) n)
              × (contains (identities specs) n ≡ true)
              × (contains (identities {C = C} []) n ≡ false)
              × (waiting specs resolved (identities {C = C} []) n ≡ 0)
        from_heap p (n, e, c, z) = (
          n,
          e,
          subst (λ k. contains k n ≡ true) keys-degrees c,
          unfold identities in refl,
          unfold identities in
              (ap length (minus_none (deps specs resolved n))
                ∙ sym (get_or-in_degrees resolved n)
                ∙ z),
        )

    -- The search ends in one of the two ways.
    concluded :
        (degrees : Dict String ℕ) (result : List (ModuleSpec C))
        → Inv specs resolved degrees [] result
        → Outcome (if nat_beq (length result) (length specs) then ok result else err cycle)
    concluded degrees result v =
        if_case Outcome (nat_beq (length result) (length specs)) _ _
          (λ b. (
            same b,
            v.once,
            v.placed,
            InOrder-weaken (deps specs resolved) waits_for [] (identities result)
                (λ n d c h.
                  subst (λ k. contains k d ≡ true) (sym (deps-waits_for n (v.inside n c))) h)
                v.ordered,
          ))
          (λ b. (
            refl,
            stuck,
            nonempty b,
            (λ n c. ground (arith, contains-minus (identities specs) (identities result) n)),
            waits,
          ))
      where
        stuck : List String
        stuck = minus (identities specs) (identities result)

        same :
            nat_beq (length result) (length specs) ≡ true
            → (n : String) → contains (identities result) n ≡ contains (identities specs) n
        same b n = ground (
          arith,
          v.inside n,
          contains_of_length (identities result) (identities specs) n v.once v.inside,
          length-identities result,
          length-identities specs,
        )

        nonempty : nat_beq (length result) (length specs) ≡ false → is_empty stuck ≡ false
        nonempty b = elim (Bool-cases (is_empty stuck)) [
          | inl t ↦ absurd (
              ground (
                arith,
                length-le_of_subset (identities specs) (identities result) names_differ
                    (λ n c. is_empty-minus (identities specs) (identities result) n t c),
                length-le_of_subset (identities result) (identities specs) v.once v.inside,
                length-identities result,
                length-identities specs,
              ))
          | inr f ↦ f
        ]

        inside :
            (n d : String) → contains (waits_for n) d ≡ true → contains (identities specs) d ≡ true
        inside n d h =
            unfold resolved_names in
            ground (
              arith,
              contains-keep (λ k. contains (identities specs) k && not (k == n))
                  (Dict.get_or dependencies n []) d,
            )

        waits :
            (n : String)
            → contains stuck n ≡ true
            → any (λ d. contains stuck d) (waits_for n) ≡ true
        waits n c =
            elim (any-minus (waits_for n) (identities specs) (identities result) (inside n)) [
              | inl z ↦ absurd (
                  done_already (
                    v.ready n in_names (
                      ap (λ k. length (minus k (identities result))) (deps-waits_for n in_names)
                      ∙ z)))
              | inr a ↦ a
            ]
          where
            in_names : contains (identities specs) n ≡ true
            in_names = ground (arith, contains-minus (identities specs) (identities result) n)

            done_already :
                (contains (identities result) n ≡ true)
                  ⊎ (contains {A = ℕ} [] (position_of (identities specs) n) ≡ true)
                → ⊥
            done_already (inl d) =
                ground (arith, contains-minus (identities specs) (identities result) n)
            done_already (inr q) = cc

    -- For modules with different identities and dependencies that are sets, `_topological` either
    -- orders them or finds a cycle. An order has exactly the given modules, each once, and each
    -- module stands after every other module that it depends on. A cycle is reported only where there is
    -- a non-empty set of modules of which each depends on another one of the set.
    pub topological-Outcome : Outcome (topological specs dependencies)
    unfolding topological resolved
    topological-Outcome =
        let r =
          search_order-Inv specs resolved names_differ deps_differ (suc (length specs))
            (in_degrees resolved) (ready_positions (identities specs) (in_degrees resolved)) []
            start (omega arith) in
        concluded r.0 _ r.1
