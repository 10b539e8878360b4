-- ===== src/Scopes/Coverage.antt =====
-- The scopes that lists of declarations match, before and after the merge
-- (src/aurora_bot/contracts/scope.py).
use aurora_bot.Prelude.{
  Bool, Option, none, false, ◌||◌, any, Bool-cases, inl, inr, ==_cases, if◌then◌else◌, ◌==◌, ◌++◌,
  contains-append, ==_refl, ap₂, ◌≡◌, refl, sym, ap, ◌∙◌, subst, String, true, false, not, ◌&&◌,
  some, List, [], ◌∷◌, first, contains, Distinct, arith, string_eq, ok,
}
use aurora_bot.Scopes.Patterns.{ScopeDeclaration, declaration_eq, run, matches, owner_of}
use aurora_bot.Scopes.Catalog.{
  ScopeCatalog, is_none, merge_scope_catalog, ModuleScopes, all_scopes, all_patterns,
}
use aurora_bot.Scopes.Sorting.{find_pattern, patterns}
use aurora_bot.Scopes.Merged.{merge-meaning}
use aurora_bot.Scopes.Merging.{or_else}

-- A scope is matched by a declaration of the list.
abbrev pub covered : List ScopeDeclaration → String → Bool
covered ds s = any (λ d. matches d s) ds

pub is_none-first :
    (f : ScopeDeclaration → Bool) (ds : List ScopeDeclaration)
    → is_none (first f ds) ≡ not (any f ds)
is_none-first f [] = refl
is_none-first f (d ∷ ds) = ground (arith, is_none-first f ds)

-- A declaration as good as any other of its pattern.
abbrev of_pattern : String → ScopeDeclaration
of_pattern p = record { pattern_text = p; kind = run; description = "" }

one_of : ScopeDeclaration → List ScopeDeclaration → String → Bool → Bool
one_of d ds p same = is_none (if same then some d else first (λ x. x.pattern_text == p) ds)

found-covered :
    (ds : List ScopeDeclaration) (s p : String)
    → is_none (find_pattern ds p) ≡ false
    → matches (of_pattern p) s ≡ true
    → covered ds s ≡ true
unfolding find_pattern matches owner_of one_of
found-covered [] s p h m = absurd (cc)
found-covered (d ∷ ds) s p h m = elim (==_cases d.pattern_text p) [
  | inl (t, e) ↦
      let here : matches d s ≡ true = subst (λ q. matches (of_pattern q) s ≡ true) (sym e) m in
      ground arith
  | inr (f, n) ↦ ground (arith, found-covered ds s p (ap (one_of d ds p) (sym f) ∙ h) m)
]

covered-found :
    (ds : List ScopeDeclaration) (s : String)
    → covered ds s ≡ true
    → (p : String) × (is_none (find_pattern ds p) ≡ false) × (matches (of_pattern p) s ≡ true)
unfolding find_pattern matches owner_of one_of
covered-found [] s h = absurd (cc)
covered-found (d ∷ ds) s h = elim (Bool-cases (matches d s)) [
  | inl t ↦ (d.pattern_text, ap (one_of d ds d.pattern_text) (==_refl d.pattern_text), t)
  | inr f ↦
      let (p, n, m) = covered-found ds s (ground arith) in
      (
        p,
        elim (==_cases d.pattern_text p) [
          | inl (t, e) ↦ ap (one_of d ds p) t
          | inr (g, x) ↦ ap (one_of d ds p) g ∙ n
        ],
        m,
      )
]

is_none-or_else : (a b : Option ScopeDeclaration) → is_none (or_else a b) ≡ (is_none a && is_none b)
is_none-or_else none b = refl
is_none-or_else (some a) b = refl

any-append :
    (f : ScopeDeclaration → Bool) (xs ys : List ScopeDeclaration)
    → any f (xs ++ ys) ≡ (any f xs || any f ys)
any-append f [] ys = refl
any-append f (x ∷ xs) ys = ground (arith, any-append f xs ys)

pub covered-all_scopes :
    (modules : List ModuleScopes) (s : String)
    → covered (all_scopes modules) s ≡ any (λ m. covered m.scopes s) modules
covered-all_scopes [] s = refl
covered-all_scopes (m ∷ modules) s =
    any-append (λ d. matches d s) m.scopes (all_scopes modules)
    ∙ ap (λ b. covered m.scopes s || b) (covered-all_scopes modules s)

pub contains-all_scopes :
    (modules : List ModuleScopes) (d : ScopeDeclaration)
    → contains (all_scopes modules) d ≡ any (λ m. contains m.scopes d) modules
contains-all_scopes [] d = refl
contains-all_scopes (m ∷ modules) d =
    contains-append m.scopes (all_scopes modules) d
    ∙ ap (λ b. contains m.scopes d || b) (contains-all_scopes modules d)

pub contains-all_patterns :
    (modules : List ModuleScopes) (s : String)
    → contains (all_patterns modules) s
      ≡ any (λ m. contains m.owned_scopes s || contains m.observes_scopes s) modules
contains-all_patterns [] s = refl
contains-all_patterns (m ∷ modules) s =
    contains-append (m.owned_scopes ++ m.observes_scopes) (all_patterns modules) s
    ∙ ap₂ ◌||◌ (contains-append m.owned_scopes m.observes_scopes s)
        (contains-all_patterns modules s)

both_true : (a b : Bool) → (a ≡ true → b ≡ true) → (b ≡ true → a ≡ true) → a ≡ b
both_true true b f g = sym (f refl)
both_true false true f g = g refl
both_true false false f g = refl

found_either :
    (configured : ScopeCatalog) (defaults : List ScopeDeclaration) (c : ScopeCatalog)
    → Distinct (patterns configured.declarations)
    → merge_scope_catalog configured defaults ≡ ok c
    → (p : String)
    → is_none (find_pattern c.declarations p)
      ≡ (is_none (find_pattern configured.declarations p) && is_none (find_pattern defaults p))
found_either configured defaults c d m p =
    ap is_none ((merge-meaning configured defaults c d m).1 p)
    ∙ is_none-or_else (find_pattern configured.declarations p) (find_pattern defaults p)

-- What the merge declares is what was configured and what the modules declare.
pub covered-merged :
    (configured : ScopeCatalog) (defaults : List ScopeDeclaration) (c : ScopeCatalog) (s : String)
    → Distinct (patterns configured.declarations)
    → merge_scope_catalog configured defaults ≡ ok c
    → covered c.declarations s ≡ (covered configured.declarations s || covered defaults s)
covered-merged configured defaults c s d m =
    let found = found_either configured defaults c d m in
    both_true (covered c.declarations s) (covered configured.declarations s || covered defaults s)
      (λ h.
        let (p, n, q) = covered-found c.declarations s h in
        let given = found-covered configured.declarations s p in
        let default = found-covered defaults s p in ground (arith, found p, given, default))
      (λ h. elim (Bool-cases (covered configured.declarations s)) [
        | inl t ↦
            let (p, n, q) = covered-found configured.declarations s t in
            found-covered c.declarations s p (ground (arith, found p)) q
        | inr f ↦
            let (p, n, q) = covered-found defaults s (ground arith) in
            found-covered c.declarations s p (ground (arith, found p)) q
      ])

pub not-not : (b : Bool) → not (not b) ≡ b
not-not true = refl
not-not false = refl
