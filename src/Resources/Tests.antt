-- ===== src/Resources/Tests.antt =====
-- The catalog of resources at concrete inputs.
use aurora_bot.Prelude.{
  ℕ, String, ◌≡◌, ◌≢◌, refl, some, none, List, [], ◌∷◌, ok, err, ◌>>=◌, ◌>>◌, refuse_if, nat_eq,
}
use aurora_bot.Prelude.Dict
use aurora_bot.Resources.Keys.{
  ResourceKey, ResourceRef, ResourceDescriptor, ResourceAlias, key_eq, ref_eq, option_eq,
  option_test, key_test, ref_test,
}
use aurora_bot.Resources.Catalog.{Catalog, ambiguous, wrong_contract, build, resolve, lacks}
use aurora_bot.Resources.Resolution.{meaning, resolve-meaning, resolve_frozen}

abbrev find_key : ResourceKey
find_key = record { namespace = "aurora"; domain = "resources"; kind = "query"; path = "find" }

abbrev search_key : ResourceKey
search_key = record { namespace = "aurora"; domain = "resources"; kind = "query"; path = "search" }

abbrev at_version : ResourceKey → String → ResourceRef
at_version key revision = record { key = key; revision = some revision }

abbrev definition_of : ResourceRef → ResourceDescriptor ℕ
definition_of ref = record { ref = ref; description = "find"; contract = none; metadata = 0 }

abbrev definitions : List (ResourceDescriptor ℕ)
definitions = definition_of (at_version find_key "1") ∷ definition_of (at_version find_key "2") ∷ []

abbrev aliases : List ResourceAlias
aliases = record { key = search_key; target = at_version find_key "2" } ∷ []

abbrev catalog : Catalog ℕ
catalog = record {
  entries =
      (at_version find_key "1", definition_of (at_version find_key "1"))
      ∷ (at_version find_key "2", definition_of (at_version find_key "2"))
      ∷ [];
  versions = (find_key, definitions) ∷ [];
  bindings = (search_key, at_version find_key "2") ∷ [];
}

is_built : build definitions aliases ≡ ok catalog
unfolding build key_test ref_test option_test Dict.put Dict.get_or
is_built = refl

-- A name with two versions is ambiguous, and an alias is not.
is_ambiguous : resolve catalog (record { key = find_key; revision = none }) none ≡ err ambiguous
unfolding resolve key_test Dict.get Dict.get_or
is_ambiguous = refl

is_bound :
    resolve catalog (record { key = search_key; revision = none }) none
    ≡ ok (definition_of (at_version find_key "2"))
unfolding resolve key_test ref_test option_test Dict.get Dict.get_or
is_bound = refl

resolve-meaning_example : resolve catalog (record { key = search_key; revision = none }) none ≡ (do
  d ← meaning definitions aliases (record { key = search_key; revision = none })
  refuse_if (lacks none d) wrong_contract
  ok d)
resolve-meaning_example =
    resolve-meaning definitions aliases catalog is_built
      (record { key = search_key; revision = none }) none

has_version : (definition_of (at_version find_key "2")).ref.revision ≢ none
has_version = λ h. cc

resolve_frozen_example :
    resolve catalog (at_version find_key "2") none ≡ ok (definition_of (at_version find_key "2"))
resolve_frozen_example =
    resolve_frozen definitions aliases catalog is_built
      (record { key = search_key; revision = none }) none (definition_of (at_version find_key "2"))
      is_bound has_version
