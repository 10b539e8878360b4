-- ===== src/Scopes/Tests.antt =====
-- Concrete scopes, and the theorems at them.
use aurora_bot.Prelude.{
  ◌≡◌, ◌↔◌, refl, String, true, false, some, List, [], ◌∷◌, contains, Distinct, codes, string_eq,
  sorted, ok, err,
}
use aurora_bot.Prelude.Dict
use aurora_bot.Scopes.Patterns.{
  declaration_test, ScopeDeclaration, resource, run, declare, bad_namespace, untrimmed, matches,
  declaration_eq, undeclared_scopes,
}
use aurora_bot.Scopes.Matching.{IsDivided, IsCovered, matches-IsCovered}
use aurora_bot.Scopes.Catalog.{
  ScopeCatalog, declaration, merge_scope_catalog, more_specific, ModuleScopes, create_default,
}
use aurora_bot.Scopes.Sorting.{find_pattern, patterns}
use aurora_bot.Scopes.Merging.{or_else}
use aurora_bot.Scopes.Collecting.{IsConsistent}
use aurora_bot.Scopes.Merged.{merge-meaning, merge-IsConsistent}
use aurora_bot.Scopes.Accepted.{Agree, AllCovered, create_default-Agree}

abbrev notes : ScopeDeclaration
notes = record { pattern_text = "memory:notes/*"; kind = resource; description = "notes" }

abbrev everything : ScopeDeclaration
everything = record { pattern_text = "*:*"; kind = run; description = "all" }

abbrev settings : ScopeCatalog
settings = record { declarations = everything ∷ [] }

abbrev effective : ScopeCatalog
effective = record { declarations = notes ∷ everything ∷ [] }

abbrev memory_module : ModuleScopes
memory_module = record {
  scopes = notes ∷ [];
  owned_scopes = "memory:notes/today" ∷ [];
  observes_scopes = "clock:tick" ∷ [];
}

matches_deep : matches notes "memory:notes/a/b" ≡ true
unfolding matches
matches_deep = refl

matches_empty : matches notes "memory:notes/" ≡ false
unfolding matches
matches_empty = refl

-- A line break in the path: no star takes it.
matches_lines : matches notes "memory:notes/a\nb" ≡ false
unfolding matches
matches_lines = refl

matches_owner : matches notes "clock:notes/a" ≡ false
unfolding matches
matches_owner = refl

declare-notes : declare notes ≡ ok notes
unfolding declare
declare-notes = refl

declare_wild_owner : declare (record notes { pattern_text = "mem*:notes" }) ≡ err bad_namespace
unfolding declare
declare_wild_owner = refl

declare_untrimmed : declare (record notes { pattern_text = " memory:notes" }) ≡ err untrimmed
unfolding declare
declare_untrimmed = refl

merged_example : merge_scope_catalog settings (notes ∷ notes ∷ []) ≡ ok effective
unfolding merge_scope_catalog Dict.get Dict.put declaration_test sorted
merged_example = refl

rejected_example :
    create_default (record { declarations = [] }) (memory_module ∷ [])
    ≡ err (undeclared_scopes ("clock:tick" ∷ []))
unfolding create_default Dict.get Dict.put declaration_test sorted matches
rejected_example = refl

matches-IsCovered_example : (matches notes "memory:notes/a" ≡ true) ↔ (
    (owner : List _) × (path : List _) × IsDivided (codes "memory:notes/a") owner path
    × IsCovered (codes "memory") (codes "notes/*") owner path)
matches-IsCovered_example =
    matches-IsCovered notes "memory:notes/a" (codes "memory") (codes "notes/*") (refl, refl)

merge-meaning_example :
    Distinct (patterns effective.declarations)
    × ((p : String)
        → find_pattern effective.declarations p
          ≡ or_else (find_pattern settings.declarations p) (find_pattern (notes ∷ notes ∷ []) p))
    × ((scope : String) (a d : ScopeDeclaration)
        → declaration effective scope ≡ some a
        → contains effective.declarations d ≡ true
        → matches d scope ≡ true
        → more_specific a d ≡ true)
merge-meaning_example =
    merge-meaning settings (notes ∷ notes ∷ []) effective (refl, tt) merged_example

merge-IsConsistent_example :
    ((catalog : ScopeCatalog) × (merge_scope_catalog settings (notes ∷ notes ∷ []) ≡ ok catalog))
    ↔ IsConsistent (notes ∷ notes ∷ [])
merge-IsConsistent_example = merge-IsConsistent settings (notes ∷ notes ∷ [])

create_default-Agree_example :
    ((c : ScopeCatalog) × (create_default settings (memory_module ∷ []) ≡ ok c))
    ↔ (Agree (memory_module ∷ []) × AllCovered settings (memory_module ∷ []))
create_default-Agree_example = create_default-Agree settings (memory_module ∷ []) (refl, tt)
