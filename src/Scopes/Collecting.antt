-- ===== src/Scopes/Collecting.antt =====
-- What the loop over the defaults in `merge_scope_catalog` (src/aurora_bot/contracts/scope.py)
-- collects, when it raises nothing, and the check for repeated patterns.
use aurora_bot.Prelude.{
  ==_refl, if_case, subst, ==_cases, ◌≡◌, refl, sym, ap, ◌∙◌, String, Bool, true, false, Option,
  none, some, List, [], ◌∷◌, contains, Distinct, arith, ◌==◌, string_eq, eq_iff, if◌then◌else◌, inl,
  inr, ok, ◌>>◌, refuse_if, ok-injective,
}
use aurora_bot.Prelude.Dict
use aurora_bot.Prelude.Dict.{Dict, get-put, contains-keys-put, put-Distinct}
use aurora_bot.Scopes.Patterns.{ScopeDeclaration, inconsistent, duplicate_pattern, declaration_eq}
use aurora_bot.Scopes.Catalog.{check_patterns, differs, collect}
use aurora_bot.Scopes.Sorting.{find_pattern, patterns}
use aurora_bot.Scopes.Merging.{or_else, or_else-none, passed}

-- The defaults of one pattern agree.
abbrev pub IsConsistent : List ScopeDeclaration → Type 0
IsConsistent ds =
    (a b : ScopeDeclaration)
    → contains ds a ≡ true
    → contains ds b ≡ true
    → a.pattern_text ≡ b.pattern_text
    → a ≡ b

agreed_value :
    (a b : Option ScopeDeclaration) (x : ScopeDeclaration) (same : Bool)
    → (same ≡ true → differs a x ≡ false)
    → or_else (if same then some x else a) b ≡ or_else a (if same then some x else b)
agreed_value none b x true h = refl
agreed_value none b x false h = refl
agreed_value (some a) b x true h =
    ap some (sym ((declaration_eq.test_iff a x).0 (ground (arith, h refl))))
agreed_value (some a) b x false h = refl

pub get-collect :
    (ds : List ScopeDeclaration) (d declared : Dict String ScopeDeclaration) (p : String)
    → collect ds d ≡ ok declared
    → Dict.get declared p ≡ or_else (Dict.get d p) (find_pattern ds p)
unfolding collect find_pattern
get-collect [] d declared p c = ap (λ r. Dict.get r p) (sym (ok-injective c)) ∙ sym (or_else-none _)
get-collect (x ∷ ds) d declared p c =
    let s = passed _ inconsistent _ c in
    get-collect ds _ declared p s.1
    ∙ ap (λ r. or_else r (find_pattern ds p)) (get-put d x.pattern_text p x)
    ∙ agreed_value (Dict.get d p) (find_pattern ds p) x (x.pattern_text == p)
        (λ t. subst (λ q. differs (Dict.get d q) x ≡ false) ((eq_iff x.pattern_text p).0 t) s.0)

pub collect-get :
    (ds : List ScopeDeclaration) (d declared : Dict String ScopeDeclaration) (a : ScopeDeclaration)
    → collect ds d ≡ ok declared
    → contains ds a ≡ true
    → Dict.get declared a.pattern_text ≡ some a
unfolding collect
collect-get [] d declared a c h = absurd (cc)
collect-get (x ∷ ds) d declared a c h = elim (==_cases x a) [
  | inl (t, e) ↦
      get-collect ds _ declared a.pattern_text (passed _ inconsistent _ c).1
      ∙ ap (λ r. or_else r (find_pattern ds a.pattern_text))
          (get-put d x.pattern_text a.pattern_text x
            ∙ ap (λ b. if b then some x else Dict.get d a.pattern_text)
                ((eq_iff x.pattern_text a.pattern_text).1 (ap (λ y. y.pattern_text) e)))
      ∙ ap some e
  | inr (f, n) ↦ collect-get ds _ declared a (passed _ inconsistent _ c).1 (ground arith)
]

pub collect-total :
    (ds : List ScopeDeclaration) (d : Dict String ScopeDeclaration)
    → ((a : ScopeDeclaration)
        → contains ds a ≡ true
        → differs (Dict.get d a.pattern_text) a ≡ false)
    → IsConsistent ds
    → (declared : Dict String ScopeDeclaration) × (collect ds d ≡ ok declared)
unfolding collect
collect-total [] d h k = (d, refl)
collect-total (x ∷ ds) d h k =
    let first_of : contains (x ∷ ds) x ≡ true = ground (arith, ==_refl x) in
    let rest =
      collect-total ds (Dict.put d x.pattern_text x)
        (λ a m.
          ap (λ r. differs r a) (get-put d x.pattern_text a.pattern_text x)
          ∙ if_case (λ r. differs r a ≡ false) (x.pattern_text == a.pattern_text) _ _
              (λ t. ground (
                arith,
                declaration_eq.test_iff x a,
                k x a first_of (ground arith) ((eq_iff x.pattern_text a.pattern_text).0 t),
              ))
              (λ f. h a (ground arith)))
        (λ a b m n. k a b (ground arith) (ground arith)) in
    (
      rest.0,
      ap (λ b. refuse_if b inconsistent >> collect ds (Dict.put d x.pattern_text x)) (h x first_of)
          ∙ rest.1,
    )

pub check_patterns-Distinct :
    (ds : List ScopeDeclaration) (seen : List String)
    → Distinct (patterns ds)
    → ((p : String) → contains (patterns ds) p ≡ true → contains seen p ≡ false)
    → check_patterns ds seen ≡ ok tt
unfolding check_patterns
check_patterns-Distinct [] seen d h = refl
check_patterns-Distinct (x ∷ ds) seen d h =
    ap (λ b. refuse_if b duplicate_pattern >> check_patterns ds (x.pattern_text ∷ seen))
      (h x.pattern_text (ground (arith, ==_refl x.pattern_text)))
    ∙ check_patterns-Distinct ds (x.pattern_text ∷ seen) d.1
        (λ p m. ground (arith, h p, ap (contains (patterns ds)), eq_iff x.pattern_text p))
