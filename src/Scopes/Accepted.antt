-- ===== src/Scopes/Accepted.antt =====
-- When `_create_default` (src/aurora_bot/scopes/module.py) accepts the declarations of the modules.
use aurora_bot.Prelude.{
  false, ◌||◌, any, ==_refl, ◌≡◌, ◌↔◌, refl, sym, ap, ◌∙◌, subst, String, true, false, not, ◌&&◌,
  List, [], ◌∷◌, keep, contains, contains-sorted, contains-dedup, contains-keep, dedup, str_le,
  Distinct, arith, string_eq, Result, ok, ◌>>=◌, ◌>>◌, refuse_if, bind-eq-ok, ok-injective,
  is_empty,
}
use aurora_bot.Scopes.Patterns.{
  ScopeDeclaration, ScopeError, undeclared_scopes, declaration_eq, matches,
}
use aurora_bot.Scopes.Catalog.{
  ScopeCatalog, declaration, is_none, undeclared, merge_scope_catalog, ModuleScopes, all_scopes,
  all_patterns, create_default,
}
use aurora_bot.Scopes.Sorting.{patterns}
use aurora_bot.Scopes.Merged.{merge-IsConsistent}
use aurora_bot.Scopes.Coverage.{
  covered, is_none-first, not-not, covered-merged, covered-all_scopes, contains-all_scopes,
  contains-all_patterns,
}

-- What a catalog leaves undeclared of some scopes: those of them that no declaration matches.
contains-undeclared :
    (c : ScopeCatalog) (scopes : List String) (s : String)
    → contains (undeclared c scopes) s ≡ (is_none (declaration c s) && contains scopes s)
unfolding undeclared
contains-undeclared c scopes s =
    contains-sorted str_le (dedup (keep (λ x. is_none (declaration c x)) scopes)) s
    ∙ contains-dedup (keep (λ x. is_none (declaration c x)) scopes) s
    ∙ contains-keep (λ x. is_none (declaration c x)) scopes s

is_empty-contains : (xs : List String) → ((s : String) → contains xs s ≡ false) → is_empty xs ≡ true
is_empty-contains [] h = refl
is_empty-contains (x ∷ xs) h = absurd (ground (arith, h x, ==_refl x))

contains-is_empty : (xs : List String) (s : String) → is_empty xs ≡ true → contains xs s ≡ false
contains-is_empty [] s h = refl
contains-is_empty (x ∷ xs) s h = absurd (cc)

-- Every scope that some module owns or observes is declared.
abbrev IsDeclared : ScopeCatalog → List ModuleScopes → Type 0
IsDeclared c modules =
    (s : String) → contains (all_patterns modules) s ≡ true → is_none (declaration c s) ≡ false

accepted :
    {A : Type 0} (xs : List String) (a b : A)
    → (refuse_if (not (is_empty xs)) (undeclared_scopes xs) >> ok a) ≡ ok b
    → (is_empty xs ≡ true) × (a ≡ b)
accepted [] a b h = (refl, ok-injective h)
accepted (x ∷ xs) a b h = absurd (cc)

accepts :
    {A : Type 0} (xs : List String) (a : A)
    → is_empty xs ≡ true
    → (refuse_if (not (is_empty xs)) (undeclared_scopes xs) >> ok a) ≡ ok a
accepts [] a h = refl
accepts (x ∷ xs) a h = absurd (cc)

checked : List ModuleScopes → ScopeCatalog → Result ScopeError ScopeCatalog
checked modules c =
    refuse_if (not (is_empty (undeclared c (all_patterns modules))))
      (undeclared_scopes (undeclared c (all_patterns modules)))
    >> ok c

create_default-IsDeclared :
    (configured c : ScopeCatalog) (modules : List ModuleScopes)
    → (create_default configured modules ≡ ok c)
      ↔ ((merge_scope_catalog configured (all_scopes modules) ≡ ok c) × IsDeclared c modules)
unfolding create_default checked
create_default-IsDeclared configured c modules = (
  λ h.
      let r = bind-eq-ok (merge_scope_catalog configured (all_scopes modules)) _ h in
      let a = accepted (undeclared r.0 (all_patterns modules)) r.0 c r.2 in
      (
        r.1 ∙ ap ok a.1,
        λ s m.
            subst (λ k. is_none (declaration k s) ≡ false) a.1
              (ground (
                arith,
                contains-undeclared r.0 (all_patterns modules) s,
                contains-is_empty (undeclared r.0 (all_patterns modules)) s a.0,
              )),
      ),
  λ h.
      ap (λ r. r >>= checked modules) h.0
      ∙ accepts (undeclared c (all_patterns modules)) c (
          is_empty-contains (undeclared c (all_patterns modules))
            (λ s. ground (arith, contains-undeclared c (all_patterns modules) s, h.1 s))),
)

-- Any two declarations of one pattern, in whichever modules, are equal.
abbrev pub Agree : List ModuleScopes → Type 0
Agree modules =
    (a b : ScopeDeclaration)
    → any (λ m. contains m.scopes a) modules ≡ true
    → any (λ m. contains m.scopes b) modules ≡ true
    → a.pattern_text ≡ b.pattern_text
    → a ≡ b

-- Each scope that some module owns or observes is matched by a declaration, configured or of some
-- module.
abbrev pub AllCovered : ScopeCatalog → List ModuleScopes → Type 0
AllCovered configured modules =
    (s : String)
    → any (λ m. contains m.owned_scopes s || contains m.observes_scopes s) modules ≡ true
    → (any (λ d. matches d s) configured.declarations
        || any (λ m. any (λ d. matches d s) m.scopes) modules)
      ≡ true

module _ (configured : ScopeCatalog) (modules : List ModuleScopes)
    (d : Distinct (patterns configured.declarations)) where
  declared_all :
      (c : ScopeCatalog)
      → merge_scope_catalog configured (all_scopes modules) ≡ ok c
      → (s : String)
      → not (is_none (declaration c s))
        ≡ (covered configured.declarations s || any (λ m. covered m.scopes s) modules)
  unfolding declaration
  declared_all c m s =
      ap not (is_none-first (λ d. matches d s) c.declarations)
      ∙ not-not (covered c.declarations s)
      ∙ covered-merged configured (all_scopes modules) c s d m
      ∙ ap (λ b. covered configured.declarations s || b) (covered-all_scopes modules s)

  -- Where the configured catalog has no two declarations of one pattern: the scope module accepts
  -- the modules exactly if any two of their declarations of one pattern are equal and each scope that
  -- some module owns or observes is matched by a declaration, configured or of some module.
  pub create_default-Agree :
      ((c : ScopeCatalog) × (create_default configured modules ≡ ok c))
      ↔ (Agree modules × AllCovered configured modules)
  create_default-Agree = (
    λ h.
        let (m, all) = (create_default-IsDeclared configured h.0 modules).0 h.1 in
        let equal = (merge-IsConsistent configured (all_scopes modules)).0 (h.0, m) in
        (
          λ a b x y.
              equal a b (contains-all_scopes modules a ∙ x) (contains-all_scopes modules b ∙ y),
          λ s o. sym (declared_all h.0 m s) ∙ ap not (all s (contains-all_patterns modules s ∙ o)),
        ),
    λ h.
        let (c, m) = (merge-IsConsistent configured (all_scopes modules)).1 (λ a b x y.
          h.0 a b (sym (contains-all_scopes modules a) ∙ x)
            (sym (contains-all_scopes modules b) ∙ y)) in
        (
          c,
          (create_default-IsDeclared configured c modules).1 (
            m,
            λ s o.
                let named = h.1 s (sym (contains-all_patterns modules s) ∙ o) in
                sym (not-not (is_none (declaration c s))) ∙ ap not (declared_all c m s ∙ named),
          ),
        ),
  )
