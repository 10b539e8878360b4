-- ===== src/Resources/Building.antt =====
-- What a catalog holds once it is built (src/aurora_bot/resources/catalog.py).
use aurora_bot.Prelude.{
  not, ◌||◌, ◌≡◌, ◌∙◌, ap, Option, none, some, List, [], ◌∷◌, ◌++◌, ◌==◌, ok, bind-eq-ok, contains,
  keep, first, arith, append-nil, append_assoc, Bool-cases, inl, inr,
}
use aurora_bot.Prelude.Dict
use aurora_bot.Prelude.Dict.{Dict, get-put, get-absent, get_or-put, contains-keys-put}
use aurora_bot.Resources.Keys.{
  ResourceKey, ResourceRef, ResourceDescriptor, ResourceAlias, key_eq, ref_eq,
}
use aurora_bot.Resources.Catalog.{Catalog, empty, add_definitions, add_aliases, build}

-- What a dictionary of aliases gives after more aliases were added.
abbrev pub or_target : Option ResourceRef → Option ResourceAlias → Option ResourceRef
or_target (some r) o = some r
or_target none (some a) = some a.target
or_target none none = none

module _ {M : Type 0} where
  abbrev or_first :
      Option (ResourceDescriptor M) → Option (ResourceDescriptor M) → Option (ResourceDescriptor M)
  or_first (some d) o = some d
  or_first none o = o

  record Added (ds : List (ResourceDescriptor M)) (c c' : Catalog M) : Type 0 where
    found :
        (r : ResourceRef)
        → Dict.get c'.entries r ≡ or_first (Dict.get c.entries r) (first (λ d. d.ref == r) ds)
    listed :
        (k : ResourceKey)
        → Dict.get_or c'.versions k []
          ≡ Dict.get_or c.versions k [] ++ keep (λ d. d.ref.key == k) ds
    unbound : c'.bindings ≡ c.bindings

  add_definitions-Added :
      (ds : List (ResourceDescriptor M)) (c c' : Catalog M)
      → add_definitions ds c ≡ ok c'
      → Added ds c c'
  unfolding add_definitions
  add_definitions-Added [] c c' h = record {
    found = λ r. ground arith;
    listed = λ k. ground (arith, append-nil (Dict.get_or c.versions k []));
    unbound = ground arith;
  }
  add_definitions-Added (d ∷ ds) c c' h = elim (Bool-cases (contains (Dict.keys c.entries) d.ref)) [
    | inl t ↦ absurd (ground (arith, t, h))
    | inr f ↦
        let g = rw f at h in
        let rest =
          add_definitions-Added ds
            (record c {
              entries = Dict.put c.entries d.ref d;
              versions =
                  Dict.put c.versions d.ref.key (Dict.get_or c.versions d.ref.key [] ++ (d ∷ []));
            })
            c' g in
        record {
          found = λ r. ground (
            arith,
            rest.found r,
            get-put c.entries d.ref r d,
            get-absent c.entries d.ref f,
            ref_eq.test_iff d.ref r,
            ap (Dict.get c.entries),
          );
          listed = λ k. ground (
            arith,
            rest.listed k,
            get_or-put c.versions d.ref.key k (Dict.get_or c.versions d.ref.key [] ++ (d ∷ [])) [],
            key_eq.test_iff d.ref.key k,
            ap (λ j. Dict.get_or c.versions j []),
            append_assoc (Dict.get_or c.versions d.ref.key []) (d ∷ [])
                (keep (λ d. d.ref.key == k) ds),
          );
          unbound = rest.unbound;
        }
  ]

  record Bound (as' : List ResourceAlias) (c c' : Catalog M) : Type 0 where
    bound :
        (k : ResourceKey)
        → Dict.get c'.bindings k ≡ or_target (Dict.get c.bindings k) (first (λ a. a.key == k) as')
    same_entries : c'.entries ≡ c.entries
    same_versions : c'.versions ≡ c.versions

  add_aliases-Bound :
      (as' : List ResourceAlias) (c c' : Catalog M) → add_aliases as' c ≡ ok c' → Bound as' c c'
  unfolding add_aliases
  add_aliases-Bound [] c c' h = record {
    bound = λ k. ground arith;
    same_entries = ground arith;
    same_versions = ground arith;
  }
  add_aliases-Bound (a ∷ as') c c' h =
      elim (Bool-cases
        (contains (Dict.keys c.bindings) a.key || contains (Dict.keys c.versions) a.key)) [
          | inl t ↦ absurd (ground (arith, t, h))
          | inr f ↦ elim (Bool-cases (not (contains (Dict.keys c.entries) a.target))) [
            | inl t ↦ absurd (ground (arith, f, t, h))
            | inr g ↦
                let rest =
                  add_aliases-Bound as' (record c { bindings = Dict.put c.bindings a.key a.target })
                    c' (rw (f, g) at h) in
                record {
                  bound = λ k. ground (
                    arith,
                    rest.bound k,
                    get-put c.bindings a.key k a.target,
                    get-absent c.bindings a.key (ground (arith, f)),
                    key_eq.test_iff a.key k,
                    ap (Dict.get c.bindings),
                  );
                  same_entries = rest.same_entries;
                  same_versions = rest.same_versions;
                }
          ]
        ]

  pub record Built (ds : List (ResourceDescriptor M)) (as' : List ResourceAlias) (c : Catalog M)
      : Type 0 where
    pub found : (r : ResourceRef) → Dict.get c.entries r ≡ first (λ d. d.ref == r) ds
    pub listed : (k : ResourceKey) → Dict.get_or c.versions k [] ≡ keep (λ d. d.ref.key == k) ds
    pub bound :
        (k : ResourceKey) → Dict.get c.bindings k ≡ or_target none (first (λ a. a.key == k) as')

  pub build-Built :
      (ds : List (ResourceDescriptor M)) (as' : List ResourceAlias) (c : Catalog M)
      → build ds as' ≡ ok c
      → Built ds as' c
  unfolding build Dict.get Dict.get_or
  build-Built ds as' c h =
      let (b, p, q) = bind-eq-ok (add_definitions ds empty) (add_aliases as') h in
      let one = add_definitions-Added ds empty b p in
      let two = add_aliases-Bound as' b c q in
      record {
        found = λ r. ap (λ d. Dict.get d r) two.same_entries ∙ one.found r;
        listed = λ k. ap (λ d. Dict.get_or d k []) two.same_versions ∙ one.listed k;
        bound = λ k. ground (arith, two.bound k, ap (λ d. Dict.get d k) one.unbound);
      }
