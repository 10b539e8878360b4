-- ===== src/Scopes/Sorting.antt =====
-- Sorting the declarations by specificity, as `merge_scope_catalog` of
-- src/aurora_bot/contracts/scope.py does: it is an order, it keeps the patterns apart, and the first
-- declaration of a sorted list that passes a test is the most specific one that does.
use aurora_bot.Prelude.{
  ==_cases, subst, ◌≡◌, refl, sym, ap, ◌∙◌, String, Bool, true, false, ◌||◌, Option, none, some,
  List, [], ◌∷◌, map, keep, first, contains, Distinct, insert_sorted, sorted, arith, ◌==◌,
  string_eq, eq_iff, if◌then◌else◌, All, Bool-cases, inl, inr,
}
use aurora_bot.Prelude.Order.{Ordered, sorted-Ordered, keep-sorted}
use aurora_bot.Scopes.Patterns.{ScopeDeclaration, declaration_eq}
use aurora_bot.Scopes.Catalog.{Specificity, specificity, specificity_le, more_specific}

specificity_le_total : (a b : Specificity) → specificity_le a b ≡ false → specificity_le b a ≡ true
unfolding specificity_le
specificity_le_total a b h = ground arith

specificity_le_trans :
    (a b c : Specificity)
    → specificity_le a b ≡ true
    → specificity_le b c ≡ true
    → specificity_le a c ≡ true
unfolding specificity_le
specificity_le_trans a b c h g = ground arith

specificity_le_refl : (a : Specificity) → specificity_le a a ≡ true
unfolding specificity_le
specificity_le_refl a = ground arith

pub sorted-more_specific :
    (ds : List ScopeDeclaration) → Ordered more_specific (sorted more_specific ds)
unfolding more_specific
sorted-more_specific =
    sorted-Ordered more_specific (λ a b. specificity_le_total (specificity a) (specificity b))
      (λ a b c. specificity_le_trans (specificity a) (specificity b) (specificity c))

-- The declaration of a pattern.
unfoldable pub find_pattern : List ScopeDeclaration → String → Option ScopeDeclaration
find_pattern ds p = first (λ d. d.pattern_text == p) ds

same_specificity :
    (a b : ScopeDeclaration) → a.pattern_text ≡ b.pattern_text → more_specific a b ≡ true
unfolding more_specific specificity
same_specificity a b p =
    ap (λ t. more_specific a (record b { pattern_text = t })) (sym p)
    ∙ specificity_le_refl (specificity a)

head_of : List ScopeDeclaration → Option ScopeDeclaration
head_of [] = none
head_of (d ∷ ds) = some d

first-keep :
    (p : ScopeDeclaration → Bool) (ds : List ScopeDeclaration) → first p ds ≡ head_of (keep p ds)
unfolding head_of
first-keep p [] = refl
first-keep p (d ∷ ds) = ground (arith, first-keep p ds)

-- Sorting leaves each pattern's declaration the same.
pub find_pattern-sorted :
    (ds : List ScopeDeclaration) (p : String)
    → find_pattern (sorted more_specific ds) p ≡ find_pattern ds p
unfolding find_pattern
find_pattern-sorted ds p =
    first-keep _ (sorted more_specific ds)
    ∙ ap head_of (
        keep-sorted more_specific (λ d. d.pattern_text == p) ds
          (λ x y h g.
            same_specificity x y
              ((eq_iff x.pattern_text p).0 h ∙ sym ((eq_iff y.pattern_text p).0 g))))
    ∙ sym (first-keep _ ds)

abbrev pub patterns : List ScopeDeclaration → List String
patterns = map (λ d. d.pattern_text)

contains-patterns-insert_sorted :
    (a : ScopeDeclaration) (ds : List ScopeDeclaration) (p : String)
    → contains (patterns (insert_sorted more_specific a ds)) p
      ≡ (a.pattern_text == p || contains (patterns ds) p)
unfolding insert_sorted
contains-patterns-insert_sorted a [] p = refl
contains-patterns-insert_sorted a (d ∷ ds) p =
    ground (arith, contains-patterns-insert_sorted a ds p)

contains-patterns-sorted :
    (ds : List ScopeDeclaration) (p : String)
    → contains (patterns (sorted more_specific ds)) p ≡ contains (patterns ds) p
unfolding sorted
contains-patterns-sorted [] p = refl
contains-patterns-sorted (d ∷ ds) p =
    contains-patterns-insert_sorted d (sorted more_specific ds) p
    ∙ ap (λ b. d.pattern_text == p || b) (contains-patterns-sorted ds p)

Distinct-patterns-insert_sorted :
    (a : ScopeDeclaration) (ds : List ScopeDeclaration)
    → contains (patterns ds) a.pattern_text ≡ false
    → Distinct (patterns ds)
    → Distinct (patterns (insert_sorted more_specific a ds))
unfolding insert_sorted
Distinct-patterns-insert_sorted a [] h d = (refl, tt)
Distinct-patterns-insert_sorted a (x ∷ ds) h d = ground (
  arith,
  Distinct-patterns-insert_sorted a ds,
  contains-patterns-insert_sorted a ds x.pattern_text,
  eq_iff a.pattern_text x.pattern_text,
  eq_iff x.pattern_text a.pattern_text,
)

pub Distinct-patterns-sorted :
    (ds : List ScopeDeclaration)
    → Distinct (patterns ds)
    → Distinct (patterns (sorted more_specific ds))
unfolding sorted
Distinct-patterns-sorted [] d = tt
Distinct-patterns-sorted (x ∷ ds) d =
    Distinct-patterns-insert_sorted x (sorted more_specific ds)
      (contains-patterns-sorted ds x.pattern_text ∙ d.0) (Distinct-patterns-sorted ds d.1)

first-All :
    (f : ScopeDeclaration → Bool) (a d : ScopeDeclaration) (ds : List ScopeDeclaration)
    → All (λ x. more_specific a x ≡ true) ds
    → contains ds d ≡ true
    → more_specific a d ≡ true
first-All f a d [] h c = absurd (cc)
first-All f a d (x ∷ ds) h c =
    ground (arith, first-All f a d ds h.1, declaration_eq.test_iff x d, ap (more_specific a))

pick :
    (ScopeDeclaration → Bool)
    → List ScopeDeclaration
    → ScopeDeclaration
    → Bool
    → Option ScopeDeclaration
pick f ds x b = if b then some x else first f ds

some-injective : {a b : ScopeDeclaration} → some a ≡ some b → a ≡ b
some-injective p = cc

-- What is found first in an ordered list is as specific as whatever passes.
pub first-most_specific :
    (f : ScopeDeclaration → Bool) (ds : List ScopeDeclaration) (a d : ScopeDeclaration)
    → Ordered more_specific ds
    → first f ds ≡ some a
    → contains ds d ≡ true
    → f d ≡ true
    → more_specific a d ≡ true
unfolding pick
first-most_specific f [] a d o h c g = absurd (cc)
first-most_specific f (x ∷ ds) a d o h c g = elim (Bool-cases (f x)) [
  | inl t ↦
      subst (λ y. more_specific y d ≡ true) (some-injective (sym (ap (pick f ds x) t) ∙ h))
        (elim (==_cases x d) [
          | inl (q, p) ↦ same_specificity x d (ap (λ e. e.pattern_text) p)
          | inr (q, n) ↦ first-All f x d ds o.0 (ground arith)
        ])
  | inr n ↦
      first-most_specific f ds a d o.1 (sym (ap (pick f ds x) n) ∙ h)
        (elim (==_cases x d) [
          | inl (q, p) ↦ absurd (ground (arith, ap f p))
          | inr (q, m) ↦ ground arith
        ])
        g
]
