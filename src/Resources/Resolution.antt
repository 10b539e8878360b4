-- ===== src/Resources/Resolution.antt =====
-- What `ResourceCatalog.resolve` finds, in terms of the declared definitions and aliases
-- (src/aurora_bot/resources/catalog.py).
use aurora_bot.Prelude.{
  String, ◌≡◌, ◌≢◌, ◌∙◌, sym, ap, Option, none, some, List, [], ◌∷◌, ◌==◌, Result, ok, err, ◌>>=◌,
  ◌>>◌, refuse_if, bind-eq-ok, keep, first, arith, Option-cases, fun_ext, subst, ok-injective,
  >>=-assoc, inl, inr,
}
use aurora_bot.Resources.Keys.{
  ResourceKey, ResourceRef, ResourceDescriptor, ResourceAlias, key_eq, ref_eq,
}
use aurora_bot.Resources.Catalog.{
  Catalog, CatalogError, entry, bound_or_only, missing, build, target_of, resolve, only_version,
  lacks, wrong_contract,
}
use aurora_bot.Resources.Building.{or_target, Built, build-Built}

module _ {M : Type 0} where
  -- The definition that was declared with a reference.
  abbrev pub declared :
      List (ResourceDescriptor M) → ResourceRef → Result CatalogError (ResourceDescriptor M)
  declared ds ref = elim (first (λ d. d.ref == ref) ds) [ none ↦ err missing | some d ↦ ok d ]

  abbrev pub aliased :
      List (ResourceDescriptor M)
      → ResourceKey
      → Option ResourceAlias
      → Result CatalogError (ResourceDescriptor M)
  aliased ds key (some a) = declared ds a.target
  aliased ds key none = do
    target ← only_version (keep (λ d. d.ref.key == key) ds)
    declared ds target

  -- A version is looked up, and a name without one is an alias or has one version only.
  abbrev pub meaning :
      List (ResourceDescriptor M)
      → List ResourceAlias
      → ResourceRef
      → Result CatalogError (ResourceDescriptor M)
  meaning ds as' ref = elim ref.revision [
    | some revision ↦ declared ds ref
    | none ↦ aliased ds ref.key (first (λ a. a.key == ref.key) as')
  ]

  entry-declared :
      (ds : List (ResourceDescriptor M)) (as' : List ResourceAlias) (c : Catalog M)
      → Built ds as' c
      → (r : ResourceRef) → entry c r ≡ declared ds r
  entry-declared ds as' c b r =
      ap
        (λ (o : Option (ResourceDescriptor M)).
          let found : Result CatalogError (ResourceDescriptor M) = elim o [
            | none ↦ err missing
            | some d ↦ ok d
          ] in
          found)
        (b.found r)

  -- The name of a version is looked up among the aliases, and then among the declared versions.
  named :
      (ds : List (ResourceDescriptor M)) (as' : List ResourceAlias) (c : Catalog M)
      → Built ds as' c
      → (key : ResourceKey) (o : Option ResourceAlias)
      → (bound_or_only c key (or_target none o) >>= entry c) ≡ aliased ds key o
  named ds as' c b key (some a) = entry-declared ds as' c b a.target
  named ds as' c b key none = rw b.listed (
      ap (λ f. only_version (keep (λ d. d.ref.key == key) ds) >>= f)
        (fun_ext (entry-declared ds as' c b)))

  target-meaning :
      (ds : List (ResourceDescriptor M)) (as' : List ResourceAlias) (c : Catalog M)
      → Built ds as' c
      → (ref : ResourceRef) → (target_of c ref >>= entry c) ≡ meaning ds as' ref
  unfolding target_of
  target-meaning ds as' c b ref = elim (Option-cases ref.revision) [
    | inl e ↦
        rw (e, target_of, meaning, b.bound)
          (named ds as' c b ref.key (first (λ a. a.key == ref.key) as'))
    | inr (v, e) ↦ rw (e, target_of, meaning) (entry-declared ds as' c b ref)
  ]

  -- In a catalog that was built, a reference is resolved to its meaning, subject to the contract
  -- that is asked for.
  pub resolve-meaning :
      (ds : List (ResourceDescriptor M)) (as' : List ResourceAlias) (c : Catalog M)
      → build ds as' ≡ ok c
      → (ref : ResourceRef) (contract : Option ResourceRef)
      → resolve c ref contract
        ≡ (do d ← meaning ds as' ref; refuse_if (lacks contract d) wrong_contract; ok d)
  unfolding resolve target_of
  resolve-meaning ds as' c h ref contract =
      >>=-assoc (target_of c ref) (entry c) _
      ∙ ap (λ m. m >>= λ d. refuse_if (lacks contract d) wrong_contract >> ok d)
          (target-meaning ds as' c (build-Built ds as' c h) ref)

  first-test :
      (r : ResourceRef) (ds : List (ResourceDescriptor M)) (d : ResourceDescriptor M)
      → first (λ d. d.ref == r) ds ≡ some d
      → d.ref ≡ r
  first-test r [] d h = absurd (cc)
  first-test r (e ∷ ds) d h = ground (arith, ref_eq.test_iff e.ref r, first-test r ds d)

  declared_again :
      (ds : List (ResourceDescriptor M)) (r : ResourceRef) (d : ResourceDescriptor M)
      → declared ds r ≡ ok d
      → declared ds d.ref ≡ ok d
  declared_again ds r d h = elim (Option-cases (first (λ d. d.ref == r) ds)) [
    | inl e ↦ absurd (ground (arith, e, h))
    | inr (x, e) ↦
        let p : x ≡ d = ground (arith, e, h) in
        subst (λ k. declared ds k ≡ ok d)
          (sym (ap (λ (y : ResourceDescriptor M). y.ref) (sym p) ∙ first-test r ds x e)) h
  ]

  aliased-declared :
      (ds : List (ResourceDescriptor M)) (key : ResourceKey) (o : Option ResourceAlias)
      (d : ResourceDescriptor M)
      → aliased ds key o ≡ ok d
      → declared ds d.ref ≡ ok d
  aliased-declared ds key (some a) d h = declared_again ds a.target d h
  aliased-declared ds key none d h =
      let (r, p, q) = bind-eq-ok (only_version (keep (λ d. d.ref.key == key) ds)) (declared ds) h in
      declared_again ds r d q

  meaning-declared :
      (ds : List (ResourceDescriptor M)) (as' : List ResourceAlias) (ref : ResourceRef)
      (d : ResourceDescriptor M)
      → meaning ds as' ref ≡ ok d
      → declared ds d.ref ≡ ok d
  meaning-declared ds as' ref d h = elim (Option-cases ref.revision) [
    | inl e ↦
        aliased-declared ds ref.key (first (λ a. a.key == ref.key) as') d (rw (e, meaning) at h)
    | inr (v, e) ↦ declared_again ds ref d (rw (e, meaning) at h)
  ]

  abbrev checked :
      Option ResourceRef → ResourceDescriptor M → Result CatalogError (ResourceDescriptor M)
  checked contract d = refuse_if (lacks contract d) wrong_contract >> ok d

  meaning_versioned :
      (ds : List (ResourceDescriptor M)) (as' : List ResourceAlias) (r : ResourceRef)
      → r.revision ≢ none
      → meaning ds as' r ≡ declared ds r
  meaning_versioned ds as' r v = elim (Option-cases r.revision) [
    | inl n ↦ absurd (v n)
    | inr (w, n) ↦
        ap
          (λ (o : Option String).
            let found : Result CatalogError (ResourceDescriptor M) = elim o [
              | some revision ↦ declared ds r
              | none ↦ aliased ds r.key (first (λ a. a.key == r.key) as')
            ] in
            found)
          n
  ]

  -- The reference of a definition that was resolved, where it has a version, is resolved to the
  -- same definition again.
  pub resolve_frozen :
      (ds : List (ResourceDescriptor M)) (as' : List ResourceAlias) (c : Catalog M)
      → build ds as' ≡ ok c
      → (ref : ResourceRef) (contract : Option ResourceRef) (d : ResourceDescriptor M)
      → resolve c ref contract ≡ ok d
      → d.ref.revision ≢ none
      → resolve c d.ref contract ≡ ok d
  resolve_frozen ds as' c h ref contract d r v =
      let (e, m, t) =
        bind-eq-ok (meaning ds as' ref) (checked contract)
          (sym (resolve-meaning ds as' c h ref contract) ∙ r) in
      let (u, p, q) = bind-eq-ok (refuse_if (lacks contract e) wrong_contract) (λ u. ok e) t in
      let same : e ≡ d = ok-injective q in
      resolve-meaning ds as' c h d.ref contract
      ∙ ap (λ x. x >>= checked contract)
          (meaning_versioned ds as' d.ref v ∙ meaning-declared ds as' ref d (m ∙ ap ok same))
      ∙ subst (λ x. checked contract x ≡ ok d) same t
