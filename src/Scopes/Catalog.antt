-- ===== src/Scopes/Catalog.antt =====
-- `ScopeCatalog` and `merge_scope_catalog` of src/aurora_bot/contracts/scope.py, and the catalog
-- that src/aurora_bot/scopes/module.py freezes. A set of texts that is sorted at once is a list.
use aurora_bot.Prelude.{
  ◌+◌, ℕ, String, Bool, true, false, not, ◌&&◌, ◌||◌, Option, none, some, List, [], ◌∷◌, ◌++◌, keep,
  first, contains, dedup, sorted, str_le, string_eq, ◌==◌, Result, ok, ◌>>=◌, ◌>>◌, refuse_if,
  codes, ltb, nat_beq, if◌then◌else◌, is_empty,
}
use aurora_bot.Prelude.Dict
use aurora_bot.Prelude.Dict.{Dict}
use aurora_bot.Scopes.Patterns.{
  ScopeKind, ScopeDeclaration, ScopeError, duplicate_pattern, inconsistent, undeclared_scopes,
  declaration_eq, kind_test, partition, same_text, star, matches,
}

-- ScopeCatalog
pub record ScopeCatalog : Type 0 where
  pub declarations : List ScopeDeclaration

-- the loop of ScopeCatalog.__post_init__
unfoldable pub check_patterns : List ScopeDeclaration → List String → Result ScopeError (Unit {0})
check_patterns [] seen = ok tt
check_patterns (item ∷ items) seen = do
  refuse_if (contains seen item.pattern_text) duplicate_pattern
  check_patterns items (item.pattern_text ∷ seen)

-- ScopeCatalog(declarations)
unfoldable pub scope_catalog : List ScopeDeclaration → Result ScopeError ScopeCatalog
unfolding check_patterns
scope_catalog items = do check_patterns items []; ok (record { declarations = items })

-- declaration
unfoldable pub declaration : ScopeCatalog → String → Option ScopeDeclaration
declaration c scope = first (λ item. matches item scope) c.declarations

-- classify
unfoldable pub classify : ScopeCatalog → String → Option ScopeKind
unfolding declaration
classify c scope = elim (declaration c scope) [ none ↦ none | some found ↦ some found.kind ]

-- describe
unfoldable pub describe : ScopeCatalog → String → Option String
unfolding declaration
describe c scope = elim (declaration c scope) [ none ↦ none | some found ↦ some found.description ]

-- of_kind
unfoldable pub of_kind : ScopeCatalog → ScopeKind → List ScopeDeclaration
of_kind c kind = keep (λ item. kind_test item.kind kind) c.declarations

abbrev pub is_none : {A : Type 0} → Option A → Bool
is_none none = true
is_none (some a) = false

-- undeclared
unfoldable pub undeclared : ScopeCatalog → List String → List String
unfolding declaration
undeclared c scopes = sorted str_le (dedup (keep (λ scope. is_none (declaration c scope)) scopes))

-- existing is not None and existing != declaration
abbrev pub differs : Option ScopeDeclaration → ScopeDeclaration → Bool
differs none d = false
differs (some existing) d = not (existing == d)

-- the loop over the defaults
unfoldable pub collect :
    List ScopeDeclaration
    → Dict String ScopeDeclaration
    → Result ScopeError (Dict String ScopeDeclaration)
collect [] declared = ok declared
collect (d ∷ ds) declared = do
  refuse_if (differs (Dict.get declared d.pattern_text) d) inconsistent
  collect ds (Dict.put declared d.pattern_text d)

-- {declaration.pattern: declaration for declaration in items}
unfoldable pub by_pattern :
    List ScopeDeclaration → Dict String ScopeDeclaration → Dict String ScopeDeclaration
by_pattern [] d = d
by_pattern (item ∷ items) d = by_pattern items (Dict.put d item.pattern_text item)

-- the loop over declared.items()
unfoldable pub set_defaults :
    Dict String ScopeDeclaration → Dict String ScopeDeclaration → Dict String ScopeDeclaration
set_defaults [] combined = combined
set_defaults ((pattern_text, d) ∷ declared) combined = set_defaults declared (
    if contains (Dict.keys combined) pattern_text
    then combined
    else Dict.put combined pattern_text d)

-- len(path.replace("*", ""))
abbrev pub literals : List ℕ → ℕ
literals [] = 0
literals (c ∷ s) = (if nat_beq c star then 0 else 1) + literals s

-- path.count("*")
abbrev pub stars : List ℕ → ℕ
stars [] = 0
stars (c ∷ s) = (if nat_beq c star then 1 else 0) + stars s

pub record Specificity : Type 0 where
  pub literal_length : ℕ
  pub star_count : ℕ
  pub any_namespace : Bool

-- _specificity, with the length of the literal for its negation
unfoldable pub specificity : ScopeDeclaration → Specificity
unfolding partition
specificity d =
    let parts = partition (codes d.pattern_text) in
    record {
      literal_length = literals parts.path;
      star_count = stars parts.path;
      any_namespace = same_text parts.owner (star ∷ []);
    }

-- a <= b of the tuples
unfoldable pub specificity_le : Specificity → Specificity → Bool
specificity_le a b =
    ltb b.literal_length a.literal_length
    || nat_beq a.literal_length b.literal_length
      && (ltb a.star_count b.star_count
          || nat_beq a.star_count b.star_count && (not a.any_namespace || b.any_namespace))

unfoldable pub more_specific : ScopeDeclaration → ScopeDeclaration → Bool
unfolding specificity specificity_le
more_specific a b = specificity_le (specificity a) (specificity b)

-- merge_scope_catalog
unfoldable pub merge_scope_catalog :
    ScopeCatalog → List ScopeDeclaration → Result ScopeError ScopeCatalog
unfolding collect by_pattern set_defaults more_specific scope_catalog
merge_scope_catalog configured defaults = do
  declared ← collect defaults []
  scope_catalog (
      sorted more_specific
        (Dict.values (set_defaults declared (by_pattern configured.declarations []))))

-- What a module declares about scopes.
pub record ModuleScopes : Type 0 where
  pub scopes : List ScopeDeclaration
  pub owned_scopes : List String
  pub observes_scopes : List String

abbrev pub all_scopes : List ModuleScopes → List ScopeDeclaration
all_scopes [] = []
all_scopes (spec ∷ specs) = spec.scopes ++ all_scopes specs

abbrev pub all_patterns : List ModuleScopes → List String
all_patterns [] = []
all_patterns (spec ∷ specs) = (spec.owned_scopes ++ spec.observes_scopes) ++ all_patterns specs

-- _create_default, where the settings resolve to `configured`
unfoldable pub create_default : ScopeCatalog → List ModuleScopes → Result ScopeError ScopeCatalog
unfolding merge_scope_catalog undeclared
create_default configured modules = do
  catalog ← merge_scope_catalog configured (all_scopes modules)
  let missing = undeclared catalog (all_patterns modules)
  refuse_if (not (is_empty missing)) (undeclared_scopes missing)
  ok catalog

-- prepare and build: what was provided before wins
unfoldable pub frozen_catalog :
    Option ScopeCatalog → ScopeCatalog → List ModuleScopes → Result ScopeError ScopeCatalog
unfolding create_default
frozen_catalog (some catalog) configured modules = ok catalog
frozen_catalog none configured modules = create_default configured modules
