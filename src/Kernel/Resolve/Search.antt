-- ===== src/Kernel/Resolve/Search.antt =====
-- The loop of `_topological` of src/aurora_kernel/resolve.py keeps what it knows about degrees,
-- heap and result.
use aurora_bot.Prelude.{
  ℕ, suc, ◌-◌, ◌≡◌, ◌⊎◌, refl, ap, sym, ◌∙◌, subst, String, true, false, ◌&&◌, some, List, [], ◌∷◌,
  ◌++◌, eq_iff, string_eq, nat_eq, ==_cases, arith, length, get_elem?, contains, contains-append,
  contains-keep, minus, nat_beq, nat_beq_iff, Distinct, All, All-append, if◌then◌else◌, Bool-cases,
  inl, inr,
}
use aurora_bot.Prelude.Dict
use aurora_bot.Prelude.Dict.{Dict}
use aurora_bot.Prelude.Sets.{Distinct-snoc, minus-add_other, length-minus-add, Distinct-keep}
use aurora_bot.Kernel.Declaration.{ModuleSpec}
use aurora_bot.Kernel.Optional.{identities}
use aurora_bot.Kernel.Resolve.Topological.{position_of, release, dependents_of}
use aurora_bot.Kernel.Resolve.Release.{
  position_of-injective, get_elem?-position_of, degree-release, release_keeps, release_adds,
  release_only, release-Distinct,
}

-- Every name comes after those that it waits for.
abbrev pub InOrder : (String → List String) → List String → List String → Type 0
InOrder deps seen [] = Unit
InOrder deps seen (n ∷ rest) =
    ((d : String) → contains (deps n) d ≡ true → contains seen d ≡ true)
    × InOrder deps (seen ++ n ∷ []) rest

InOrder-append :
    (deps : String → List String) (seen done : List String) (n : String)
    → InOrder deps seen done
    → ((d : String) → contains (deps n) d ≡ true → contains (seen ++ done) d ≡ true)
    → InOrder deps seen (done ++ n ∷ [])
InOrder-append deps seen [] n o f = (λ d h. ground (arith, f d, contains-append seen [] d), tt)
InOrder-append deps seen (x ∷ done) n o f = (
  o.0,
  InOrder-append deps (seen ++ x ∷ []) done n o.1 (λ d h. ground (
    arith,
    f d,
    contains-append seen (x ∷ done) d,
    contains-append (seen ++ x ∷ []) done d,
    contains-append seen (x ∷ []) d,
  )),
)

InOrder-contains :
    (deps : String → List String) (seen done : List String) (n d : String)
    → InOrder deps seen done
    → contains done n ≡ true
    → contains (deps n) d ≡ true
    → contains (seen ++ done) d ≡ true
InOrder-contains deps seen [] n d o h c = absurd (cc)
InOrder-contains deps seen (x ∷ done) n d o h c = elim (==_cases x n) [
  | inl (t, p) ↦ ground (arith, o.0 d, contains-append seen (x ∷ done) d, ap deps p)
  | inr (f, p) ↦ ground (
    arith,
    InOrder-contains deps (seen ++ x ∷ []) done n d o.1,
    contains-append seen (x ∷ done) d,
    contains-append (seen ++ x ∷ []) done d,
    contains-append seen (x ∷ []) d,
  )
]

-- Nothing of a list is left over: it is all there.
contains_of_minus :
    (xs done : List String) (a : String)
    → length (minus xs done) ≡ 0
    → contains xs a ≡ true
    → contains done a ≡ true
contains_of_minus [] done a h c = absurd (cc)
contains_of_minus (x ∷ xs) done a h c =
    ground (arith, contains_of_minus xs done a, eq_iff x a, ap (contains done))

pub identities-append :
    {C : Type 0} (xs ys : List (ModuleSpec C))
    → identities (xs ++ ys) ≡ identities xs ++ identities ys
unfolding identities
identities-append [] ys = refl
identities-append (x ∷ xs) ys = ap (◌∷◌ x.module_id) (identities-append xs ys)

module _ {C : Type 0} (specs : List (ModuleSpec C)) (resolved : Dict String (List String)) where
  abbrev pub deps : String → List String
  deps n = Dict.get_or resolved n []

  -- How many of the names that a name waits for are not done.
  abbrev pub waiting : List String → String → ℕ
  waiting done n = length (minus (deps n) done)

  -- A position in the heap is that of a name that waits for nothing and is not done.
  abbrev Queued : List String → ℕ → Type 0
  Queued done p =
      (n : String) × (p ≡ position_of (identities specs) n)
      × (contains (identities specs) n ≡ true)
      × (contains done n ≡ false)
      × (waiting done n ≡ 0)

  pub record Inv (degrees : Dict String ℕ) (queue : List ℕ) (result : List (ModuleSpec C))
      : Type 0 where
    pub degree :
        (n : String)
        → contains (identities specs) n ≡ true
        → Dict.get_or degrees n 0 ≡ waiting (identities result) n
    pub queued : (p : ℕ) → contains queue p ≡ true → Queued (identities result) p
    pub single : Distinct queue
    pub ready :
        (n : String)
        → contains (identities specs) n ≡ true
        → waiting (identities result) n ≡ 0
        → (contains (identities result) n ≡ true)
          ⊎ (contains queue (position_of (identities specs) n) ≡ true)
    pub inside :
        (n : String) → contains (identities result) n ≡ true → contains (identities specs) n ≡ true
    pub once : Distinct (identities result)
    pub ordered : InOrder deps [] (identities result)
    pub placed :
        All (λ s. get_elem? specs (position_of (identities specs) s.module_id) ≡ some s) result

  module _ (names_differ : Distinct (identities specs))
      (deps_differ : (n : String) → Distinct (deps n)) where
    -- the round that adds one name to those that are done
    module _ (degrees : Dict String ℕ) (p : ℕ) (queue : List ℕ) (result : List (ModuleSpec C))
        (v : Inv degrees (p ∷ queue) result) (spec : ModuleSpec C)
        (found : get_elem? specs p ≡ some spec) where
      abbrev names : List String
      names = identities specs

      abbrev done : List String
      done = identities result

      abbrev id : String
      id = spec.module_id

      abbrev ds : List String
      ds = dependents_of names resolved id

      here :
          (p ≡ position_of names id)
          × (contains names id ≡ true)
          × (contains done id ≡ false)
          × (waiting done id ≡ 0)
      here = go (v.queued p (ground (arith, nat_beq_iff p p)))
        where
          go :
              Queued done p
              → (p ≡ position_of names id)
                × (contains names id ≡ true)
                × (contains done id ≡ false)
                × (waiting done id ≡ 0)
          go (n, e, i, f, w) = named (get_elem?-position_of specs n i)
            where
              named :
                  (s : ModuleSpec C) × (get_elem? specs (position_of names n) ≡ some s)
                    × (s.module_id ≡ n)
                  → (p ≡ position_of names id)
                    × (contains names id ≡ true)
                    × (contains done id ≡ false)
                    × (waiting done id ≡ 0)
              named (s, g, h) =
                  subst
                    (λ k.
                      (p ≡ position_of names k)
                      × (contains names k ≡ true)
                      × (contains done k ≡ false)
                      × (waiting done k ≡ 0))
                    (sym same) (e, i, f, w)
                where
                  same : id ≡ n
                  same = cc (found, e, g, h)

      done-next : identities (result ++ spec ∷ []) ≡ done ++ id ∷ []
      done-next = identities-append result (spec ∷ []) ∙ unfold identities in refl

      contains-ds : (n : String) → contains ds n ≡ (contains (deps n) id && contains names n)
      unfolding dependents_of
      contains-ds n = contains-keep (λ k. contains (deps k) id) names n

      -- Exactly the dependents wait for one name less.
      waiting-next :
          (n : String)
          → contains names n ≡ true
          → waiting done n ≡ (
              if contains ds n
              then suc (waiting (done ++ id ∷ []) n)
              else waiting (done ++ id ∷ []) n)
      waiting-next n i = elim (Bool-cases (contains (deps n) id)) [
        | inl t ↦
            rw (contains-ds n, t, i) (length-minus-add (deps n) done id (deps_differ n) here.2 t)
        | inr f ↦ rw (contains-ds n, f) (ap length (sym (minus-add_other (deps n) done id f)))
      ]

      ds_differ : Distinct ds
      unfolding dependents_of
      ds_differ = Distinct-keep (λ n. contains (deps n) id) names names_differ

      degrees-next :
          (n : String)
          → contains names n ≡ true
          → Dict.get_or (release names ds degrees queue).0 n 0 ≡ waiting (done ++ id ∷ []) n
      degrees-next n i =
          degree-release names ds degrees queue n ds_differ
          ∙ ground (arith, v.degree n i, waiting-next n i)

      -- What waits for nothing now and did before was done or in the heap, or is the one added.
      queue-next :
          (q : ℕ)
          → contains (release names ds degrees queue).1 q ≡ true
          → Queued (done ++ id ∷ []) q
      queue-next q h = elim (release_only names ds degrees queue q ds_differ h) [
        | inl c ↦ old c (v.queued q (ground arith))
        | inr (n, c, e, z) ↦ (n, e, inside n c, fresh n c, waits n c z)
      ]
        where
          inside : (n : String) → contains ds n ≡ true → contains names n ≡ true
          inside n c = ground (arith, contains-ds n)

          waits :
              (n : String)
              → contains ds n ≡ true
              → Dict.get_or degrees n 0 - 1 ≡ 0
              → waiting (done ++ id ∷ []) n ≡ 0
          waits n c z = ground (arith, waiting-next n (inside n c), v.degree n (inside n c))

          fresh : (n : String) → contains ds n ≡ true → contains (done ++ id ∷ []) n ≡ false
          fresh n c =
              contains-append done (id ∷ []) n
              ∙ ground
                  (arith, eq_iff id n, contains-ds n, not_done, ap (contains done), here.2, own)
            where
              not_done : contains done n ≡ true → contains done id ≡ true
              not_done t =
                  InOrder-contains deps [] done n id v.ordered t (ground (arith, contains-ds n))

              own : id ≡ n → contains done id ≡ true
              own e =
                  contains_of_minus (deps id) done id here.3 (
                    subst (λ k. contains (deps k) id ≡ true) (sym e)
                      (ground (arith, contains-ds n)))

          old : contains queue q ≡ true → Queued done q → Queued (done ++ id ∷ []) q
          old c (n, e, i, f, w) = (
            n,
            e,
            i,
            contains-append done (id ∷ []) n ∙ ground (arith, eq_iff id n, other),
            ground (arith, waiting-next n i),
          )
            where
              other : id ≡ n → contains queue p ≡ true
              other k =
                  subst (λ x. contains queue x ≡ true) (e ∙ sym (here.0 ∙ ap (position_of names) k))
                    c

      ready-next :
          (n : String)
          → contains names n ≡ true
          → waiting (done ++ id ∷ []) n ≡ 0
          → (contains (done ++ id ∷ []) n ≡ true)
            ⊎ (contains (release names ds degrees queue).1 (position_of names n) ≡ true)
      ready-next n i w = elim (Bool-cases (contains ds n)) [
        | inl t ↦ inr (
            release_adds names ds degrees queue n ds_differ t
              (ground (arith, waiting-next n i, v.degree n i)))
        | inr f ↦ elim (v.ready n i (ground (arith, waiting-next n i))) [
          | inl d ↦ inl (contains-append done (id ∷ []) n ∙ ground (arith))
          | inr q ↦ elim (Bool-cases (nat_beq p (position_of names n))) [
            | inl e ↦ inl (
                contains-append done (id ∷ []) n
                ∙ ground (
                  arith,
                  eq_iff id n,
                  nat_beq_iff p (position_of names n),
                  here.0,
                  position_of-injective names id n here.1 i,
                ))
            | inr e ↦
                inr (release_keeps names ds degrees queue (position_of names n) (ground arith))
          ]
        ]
      ]

      single-next : Distinct (release names ds degrees queue).1
      single-next = release-Distinct names ds degrees queue ds_differ inside fresh v.single.1
        where
          inside : (n : String) → contains ds n ≡ true → contains names n ≡ true
          inside n c = ground (arith, contains-ds n)

          -- What waits for the name that is taken is not in the heap yet.
          fresh : (n : String) → contains ds n ≡ true → contains queue (position_of names n) ≡ false
          fresh n c = elim (Bool-cases (contains queue (position_of names n))) [
            | inl q ↦ absurd (busy (v.queued (position_of names n) (ground arith)))
            | inr f ↦ f
          ]
            where
              busy : Queued done (position_of names n) → ⊥
              busy (m, e, i, f, w) = cc (
                here.2,
                contains_of_minus (deps n) done id
                    (subst (λ k. waiting done k ≡ 0)
                      (sym (position_of-injective names n m (inside n c) i e)) w)
                    (ground (arith, contains-ds n)),
              )

      pub Inv-next :
          Inv
            (release names ds degrees queue).0
            (release names ds degrees queue).1
            (result ++ spec ∷ [])
      Inv-next = record {
        degree = λ n i. rw done-next (degrees-next n i);
        queued = λ q h. rw done-next (queue-next q h);
        single = single-next;
        ready = λ n i w. rw done-next (ready-next n i (subst (λ k. waiting k n ≡ 0) done-next w));
        inside = λ n h. inside n (subst (λ k. contains k n ≡ true) done-next h);
        once = rw done-next (Distinct-snoc done id v.once here.2);
        ordered = rw done-next (
            InOrder-append deps [] done id v.ordered
              (λ d h. contains_of_minus (deps id) done d here.3 h));
        placed =
            All-append _ result (spec ∷ []) v.placed
              (ap (get_elem? specs) (sym here.0) ∙ found, tt);
      }
        where
          inside : (n : String) → contains (done ++ id ∷ []) n ≡ true → contains names n ≡ true
          inside n h = ground (
            arith,
            contains-append done (id ∷ []) n,
            v.inside n,
            here.1,
            eq_iff id n,
            ap (contains names),
          )
