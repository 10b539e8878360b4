-- ===== src/Scopes/Merging.antt =====
-- What the dictionaries of `merge_scope_catalog` (src/aurora_bot/contracts/scope.py) hold of each
-- pattern.
use aurora_bot.Prelude.{
  if_case, ap₂, subst, ◌≡◌, refl, sym, ap, ◌∙◌, String, Bool, true, false, not, Option, none, some,
  List, [], ◌∷◌, contains, Distinct, arith, ◌==◌, string_eq, eq_iff, if◌then◌else◌, All, Result, ok,
  ◌>>◌, refuse_if, ok-injective,
}
use aurora_bot.Prelude.Dict
use aurora_bot.Prelude.Dict.{Dict, get-put, contains-keys-put, put-Distinct}
use aurora_bot.Scopes.Patterns.{ScopeDeclaration, ScopeError, inconsistent, declaration_eq}
use aurora_bot.Scopes.Catalog.{is_none, collect, by_pattern, set_defaults}
use aurora_bot.Scopes.Sorting.{find_pattern, patterns}

abbrev pub or_else : {A : Type 0} → Option A → Option A → Option A
or_else none b = b
or_else (some a) b = some a

-- Each key is the pattern of its declaration.
abbrev pub IsKeyed : Dict String ScopeDeclaration → Type 0
IsKeyed = All (λ p. p.1.pattern_text ≡ p.0)

put-IsKeyed :
    (d : Dict String ScopeDeclaration) (item : ScopeDeclaration)
    → IsKeyed d
    → IsKeyed (Dict.put d item.pattern_text item)
unfolding Dict.put
put-IsKeyed [] item h = (refl, tt)
put-IsKeyed ((p, x) ∷ d) item h = ground (arith, put-IsKeyed d item, eq_iff p item.pattern_text)

pub by_pattern-IsKeyed :
    (items : List ScopeDeclaration) (d : Dict String ScopeDeclaration)
    → IsKeyed d
    → IsKeyed (by_pattern items d)
unfolding by_pattern
by_pattern-IsKeyed [] d h = h
by_pattern-IsKeyed (item ∷ items) d h = by_pattern-IsKeyed items _ (put-IsKeyed d item h)

pub passed :
    {B : Type 0} (bad : Bool) (e : ScopeError) (rest : Result ScopeError B) {r : B}
    → (refuse_if bad e >> rest) ≡ ok r
    → (bad ≡ false) × (rest ≡ ok r)
passed true e rest h = absurd (cc)
passed false e rest h = (refl, h)

pub collect-IsKeyed :
    (ds : List ScopeDeclaration) (d declared : Dict String ScopeDeclaration)
    → IsKeyed d
    → collect ds d ≡ ok declared
    → IsKeyed declared
unfolding collect
collect-IsKeyed [] d declared h c = subst IsKeyed (ok-injective c) h
collect-IsKeyed (x ∷ ds) d declared h c =
    collect-IsKeyed ds _ declared (put-IsKeyed d x h) (passed _ inconsistent _ c).1

pub set_defaults-IsKeyed :
    (declared d : Dict String ScopeDeclaration)
    → IsKeyed declared
    → IsKeyed d
    → IsKeyed (set_defaults declared d)
unfolding set_defaults
set_defaults-IsKeyed [] d k h = h
set_defaults-IsKeyed ((p, x) ∷ declared) d k h = set_defaults-IsKeyed declared _ k.1 (
    if_case IsKeyed (contains (Dict.keys d) p) _ _ (λ t. h)
      (λ f. subst (λ q. IsKeyed (Dict.put d q x)) k.0 (put-IsKeyed d x h)))

pub set_defaults-Distinct :
    (declared d : Dict String ScopeDeclaration)
    → Distinct (Dict.keys d)
    → Distinct (Dict.keys (set_defaults declared d))
unfolding set_defaults
set_defaults-Distinct [] d h = h
set_defaults-Distinct ((p, x) ∷ declared) d h = set_defaults-Distinct declared _ (
    if_case (λ (r : Dict String ScopeDeclaration). Distinct (Dict.keys r))
      (contains (Dict.keys d) p) _ _ (λ t. h) (λ f. put-Distinct d p x h))

pub by_pattern-Distinct :
    (items : List ScopeDeclaration) (d : Dict String ScopeDeclaration)
    → Distinct (Dict.keys d)
    → Distinct (Dict.keys (by_pattern items d))
unfolding by_pattern
by_pattern-Distinct [] d h = h
by_pattern-Distinct (x ∷ items) d h =
    by_pattern-Distinct items _ (put-Distinct d x.pattern_text x h)

pub find_pattern-values :
    (d : Dict String ScopeDeclaration) (p : String)
    → IsKeyed d
    → find_pattern (Dict.values d) p ≡ Dict.get d p
unfolding find_pattern Dict.get
find_pattern-values [] p h = refl
find_pattern-values ((q, x) ∷ d) p h =
    ground (arith, find_pattern-values d p h.1, h.0, ap (λ t. t == p))

pub patterns-values :
    (d : Dict String ScopeDeclaration) → IsKeyed d → patterns (Dict.values d) ≡ Dict.keys d
patterns-values [] h = refl
patterns-values ((q, x) ∷ d) h = ap₂ ◌∷◌ h.0 (patterns-values d h.1)

present-get :
    (d : Dict String ScopeDeclaration) (p : String)
    → contains (Dict.keys d) p ≡ not (is_none (Dict.get d p))
unfolding Dict.get
present-get [] p = refl
present-get ((q, x) ∷ d) p = ground (arith, present-get d p)

-- The entry of a key after one default, where the default's key is this one or another, and is
-- present or not.
default_value :
    (a b : Option ScopeDeclaration) (x : ScopeDeclaration) (same present : Bool)
    → (same ≡ true → present ≡ not (is_none a))
    → or_else (if present then a else if same then some x else a) b
      ≡ or_else a (if same then some x else b)
default_value none b x true true h = absurd (cc (h refl))
default_value none b x true false h = refl
default_value none b x false true h = refl
default_value none b x false false h = refl
default_value (some a) b x true true h = refl
default_value (some a) b x true false h = absurd (cc (h refl))
default_value (some a) b x false true h = refl
default_value (some a) b x false false h = refl

get-choice :
    (d : Dict String ScopeDeclaration) (p q : String) (x : ScopeDeclaration) (present : Bool)
    → Dict.get (if present then d else Dict.put d q x) p
      ≡ (if present then Dict.get d p else if q == p then some x else Dict.get d p)
get-choice d p q x true = refl
get-choice d p q x false = get-put d q p x

pub or_else-none : (a : Option ScopeDeclaration) → or_else a none ≡ a
or_else-none none = refl
or_else-none (some a) = refl

pub get-set_defaults :
    (declared d : Dict String ScopeDeclaration) (p : String)
    → Dict.get (set_defaults declared d) p ≡ or_else (Dict.get d p) (Dict.get declared p)
unfolding set_defaults Dict.get
get-set_defaults [] d p = sym (or_else-none (Dict.get d p))
get-set_defaults ((q, x) ∷ declared) d p =
    get-set_defaults declared _ p
    ∙ (ap (λ r. or_else r (Dict.get declared p)) (get-choice d p q x (contains (Dict.keys d) q))
        ∙ default_value (Dict.get d p) (Dict.get declared p) x (q == p) (contains (Dict.keys d) q)
            (λ t. ap (contains (Dict.keys d)) ((eq_iff q p).0 t) ∙ present-get d p))

find_pattern-absent :
    (items : List ScopeDeclaration) (p : String)
    → contains (patterns items) p ≡ false
    → find_pattern items p ≡ none
unfolding find_pattern
find_pattern-absent [] p h = refl
find_pattern-absent (x ∷ items) p h = ground (arith, find_pattern-absent items p)

last_value :
    (a b : Option ScopeDeclaration) (x : ScopeDeclaration) (same : Bool)
    → (same ≡ true → a ≡ none)
    → or_else a (if same then some x else b) ≡ or_else (if same then some x else a) b
last_value none b x true h = refl
last_value none b x false h = refl
last_value (some a) b x true h = absurd (cc (h refl))
last_value (some a) b x false h = refl

-- Among declarations of different patterns, the last of a pattern is the only one.
pub get-by_pattern :
    (items : List ScopeDeclaration) (d : Dict String ScopeDeclaration) (p : String)
    → Distinct (patterns items)
    → Dict.get (by_pattern items d) p ≡ or_else (find_pattern items p) (Dict.get d p)
unfolding by_pattern find_pattern
get-by_pattern [] d p h = refl
get-by_pattern (x ∷ items) d p h =
    get-by_pattern items _ p h.1
    ∙ ap (or_else (find_pattern items p)) (get-put d x.pattern_text p x)
    ∙ last_value (find_pattern items p) (Dict.get d p) x (x.pattern_text == p) (λ t.
      find_pattern-absent items p
        (subst (λ q. contains (patterns items) q ≡ false) ((eq_iff x.pattern_text p).0 t) h.0))
