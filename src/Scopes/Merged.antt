-- ===== src/Scopes/Merged.antt =====
-- The catalog that `merge_scope_catalog` (src/aurora_bot/contracts/scope.py) builds.
use aurora_bot.Prelude.{
  All, ap₂, ◌≡◌, ◌↔◌, refl, sym, ap, ◌∙◌, subst, String, true, some, List, [], first, contains,
  Distinct, sorted, string_eq, ok, ◌>>=◌, ◌>>◌, bind-eq-ok, ok-injective,
}
use aurora_bot.Prelude.Dict
use aurora_bot.Prelude.Dict.{Dict}
use aurora_bot.Scopes.Patterns.{ScopeDeclaration, declaration_eq, matches}
use aurora_bot.Scopes.Catalog.{
  ScopeCatalog, scope_catalog, declaration, collect, by_pattern, set_defaults, more_specific,
  merge_scope_catalog,
}
use aurora_bot.Scopes.Sorting.{
  find_pattern, patterns, sorted-more_specific, find_pattern-sorted, Distinct-patterns-sorted,
  first-most_specific,
}
use aurora_bot.Scopes.Merging.{
  or_else, or_else-none, collect-IsKeyed, by_pattern-IsKeyed, set_defaults-IsKeyed,
  by_pattern-Distinct, set_defaults-Distinct, find_pattern-values, patterns-values,
  get-set_defaults, get-by_pattern,
}
use aurora_bot.Scopes.Collecting.{
  IsConsistent, get-collect, collect-get, collect-total, check_patterns-Distinct,
}

-- The combined declarations, before they are sorted.
abbrev combined : ScopeCatalog → Dict String ScopeDeclaration → Dict String ScopeDeclaration
combined configured declared = set_defaults declared (by_pattern configured.declarations [])

abbrev merged : ScopeCatalog → Dict String ScopeDeclaration → ScopeCatalog
merged configured declared = record {
  declarations = sorted more_specific (Dict.values (combined configured declared));
}

module _ (configured : ScopeCatalog) (defaults : List ScopeDeclaration)
    (declared : Dict String ScopeDeclaration) (c : collect defaults [] ≡ ok declared) where
  combined-IsKeyed : All (λ p. p.1.pattern_text ≡ p.0) (combined configured declared)
  combined-IsKeyed =
      set_defaults-IsKeyed declared _ (collect-IsKeyed defaults [] declared tt c)
        (by_pattern-IsKeyed configured.declarations [] tt)

  merged-Distinct : Distinct (patterns (merged configured declared).declarations)
  merged-Distinct = Distinct-patterns-sorted (Dict.values (combined configured declared)) (
      subst Distinct (sym (patterns-values (combined configured declared) combined-IsKeyed))
        (set_defaults-Distinct declared _ (by_pattern-Distinct configured.declarations [] tt)))

  merge-collect : merge_scope_catalog configured defaults ≡ ok (merged configured declared)
  unfolding merge_scope_catalog scope_catalog
  merge-collect =
      ap (λ r. r >>= λ d. scope_catalog (merged configured d).declarations) c
      ∙ ap (λ r. r >> ok (merged configured declared))
          (check_patterns-Distinct (merged configured declared).declarations [] merged-Distinct
            (λ p m. refl))

  find_pattern-merged :
      (p : String)
      → Distinct (patterns configured.declarations)
      → find_pattern (merged configured declared).declarations p
        ≡ or_else (find_pattern configured.declarations p) (find_pattern defaults p)
  unfolding Dict.get
  find_pattern-merged p h =
      find_pattern-sorted (Dict.values (combined configured declared)) p
      ∙ find_pattern-values (combined configured declared) p combined-IsKeyed
      ∙ get-set_defaults declared (by_pattern configured.declarations []) p
      ∙ ap₂ or_else (get-by_pattern configured.declarations [] p h ∙ or_else-none _)
          (get-collect defaults [] declared p c)

some-injective : {a b : ScopeDeclaration} → some a ≡ some b → a ≡ b
some-injective p = cc

module _ (configured : ScopeCatalog) (defaults : List ScopeDeclaration) where
  merge_collected :
      (catalog : ScopeCatalog)
      → merge_scope_catalog configured defaults ≡ ok catalog
      → (declared : Dict String ScopeDeclaration) × (collect defaults [] ≡ ok declared)
        × (merged configured declared ≡ catalog)
  unfolding merge_scope_catalog
  merge_collected catalog m =
      let r = bind-eq-ok (collect defaults []) _ m in
      (r.0, r.1, ok-injective (sym (merge-collect configured defaults r.0 r.1) ∙ m))

  -- A merged catalog, when the configured one has no two declarations of one pattern, has none
  -- either; it holds of each pattern the configured declaration, else the first default, else none;
  -- and what it finds for a scope is at least as specific as each of its declarations that match.
  pub merge-meaning :
      (catalog : ScopeCatalog)
      → Distinct (patterns configured.declarations)
      → merge_scope_catalog configured defaults ≡ ok catalog
      → Distinct (patterns catalog.declarations)
        × ((p : String)
            → find_pattern catalog.declarations p
              ≡ or_else (find_pattern configured.declarations p) (find_pattern defaults p))
        × ((scope : String) (a d : ScopeDeclaration)
            → declaration catalog scope ≡ some a
            → contains catalog.declarations d ≡ true
            → matches d scope ≡ true
            → more_specific a d ≡ true)
  unfolding declaration
  merge-meaning catalog h m =
      let r = merge_collected catalog m in
      subst
        (λ (k : ScopeCatalog).
          Distinct (patterns k.declarations)
          × ((p : String)
              → find_pattern k.declarations p
                ≡ or_else (find_pattern configured.declarations p) (find_pattern defaults p))
          × ((scope : String) (a d : ScopeDeclaration)
              → first (λ item. matches item scope) k.declarations ≡ some a
              → contains k.declarations d ≡ true
              → matches d scope ≡ true
              → more_specific a d ≡ true))
        r.2
        (
          merged-Distinct configured defaults r.0 r.1,
          λ p. find_pattern-merged configured defaults r.0 r.1 p h,
          λ scope a d.
              first-most_specific (λ item. matches item scope)
                (sorted more_specific (Dict.values (combined configured r.0))) a d
                (sorted-more_specific (Dict.values (combined configured r.0))),
        )

  -- The merge of the defaults into a configured catalog returns a catalog exactly if any two
  -- defaults of the same pattern are equal.
  pub merge-IsConsistent :
      ((catalog : ScopeCatalog) × (merge_scope_catalog configured defaults ≡ ok catalog))
      ↔ IsConsistent defaults
  unfolding Dict.get
  merge-IsConsistent = (
    λ m a b x y p.
        let r = merge_collected m.0 m.1 in
        some-injective (
          sym (collect-get defaults [] r.0 a r.1 x)
          ∙ ap (Dict.get r.0) p
          ∙ collect-get defaults [] r.0 b r.1 y),
    λ k.
        let r = collect-total defaults [] (λ a m. refl) k in
        (merged configured r.0, merge-collect configured defaults r.0 r.1),
  )
