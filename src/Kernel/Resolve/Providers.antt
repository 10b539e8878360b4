-- ===== src/Kernel/Resolve/Providers.antt =====
-- The providers and the dependencies of src/aurora_kernel/resolve.py.
use aurora_bot.Prelude.{
  String, Bool, false, not, ◌&&◌, ◌||◌, Option, none, some, List, [], ◌∷◌, ◌++◌, string_eq, ◌==◌,
  is_empty, any, map, dedup, sorted, str_le, if◌then◌else◌, Result, ok, err, ◌>>=◌, traverse,
}
use aurora_bot.Prelude.Dict
use aurora_bot.Prelude.Dict.{Dict}
use aurora_bot.Prelude.Int.{int_beq, int_lt}
use aurora_bot.Kernel.Declaration.{Phase, Ordering, ModuleSpec}
use aurora_bot.Kernel.Phases.{phase_beq}
use aurora_bot.Kernel.Optional.{identities}
use aurora_bot.Kernel.Resolve.Checks.{ResolveError, tied_providers, target_of}

-- the loop of _ordering_dependencies
unfoldable pub ordering_names : Phase → List Ordering → List String
ordering_names phase [] = []
ordering_names phase (ordering ∷ rest) =
    let others = ordering_names phase rest in
    if phase_beq ordering.phase phase && phase_beq (target_of ordering) phase
    then ordering.after ++ others
    else others

module _ {C : Type 0} where
  -- grouped.setdefault(key, []).append(spec) for each key
  unfoldable pub group_under :
      List String
      → ModuleSpec C
      → Dict String (List (ModuleSpec C))
      → Dict String (List (ModuleSpec C))
  group_under [] spec groups = groups
  group_under (key ∷ rest) spec groups =
      group_under rest spec (Dict.put groups key (Dict.get_or groups key [] ++ spec ∷ []))

  -- the first loop of _providers
  unfoldable pub candidates :
      List (ModuleSpec C) → Dict String (List (ModuleSpec C)) → Dict String (List (ModuleSpec C))
  unfolding group_under
  candidates [] groups = groups
  candidates (spec ∷ rest) groups = candidates rest (group_under spec.provides spec groups)

  -- key=lambda spec: (-spec.priority, spec.module_id)
  abbrev pub preferred : ModuleSpec C → ModuleSpec C → Bool
  preferred a b =
      int_lt b.priority a.priority
      || int_beq a.priority b.priority && str_le a.module_id b.module_id

  -- the choice between several candidates, in order
  unfoldable pub choose_first : List (ModuleSpec C) → Result ResolveError (ModuleSpec C)
  choose_first [] = err tied_providers
  choose_first (a ∷ []) = ok a
  choose_first (a ∷ b ∷ rest) = if int_beq a.priority b.priority then err tied_providers else ok a

  -- A group is never empty.
  unfoldable pub choose : List (ModuleSpec C) → Result ResolveError (ModuleSpec C)
  unfolding choose_first
  choose [] = err tied_providers
  choose (a ∷ []) = ok a
  choose (a ∷ b ∷ rest) = choose_first (sorted preferred (a ∷ b ∷ rest))

  -- _providers
  unfoldable pub providers_of :
      List (ModuleSpec C) → Result ResolveError (Dict String (ModuleSpec C))
  unfolding candidates choose
  providers_of specs =
      traverse (λ entry. do spec ← choose entry.1; ok (entry.0, spec)) (candidates specs [])

  -- providers[item].module_id == spec.module_id
  abbrev pub is_provider : Option (ModuleSpec C) → String → Bool
  is_provider none id = false
  is_provider (some spec) id = spec.module_id == id

  -- active: the modules that some other module does not stand in for
  unfoldable pub is_active : Dict String (ModuleSpec C) → ModuleSpec C → Bool
  is_active providers spec =
      is_empty spec.provides
      || not (is_empty spec.contributes)
      || not (is_empty spec.handlers)
      || not (is_empty spec.points)
      || any (λ item. is_provider (Dict.get providers item) spec.module_id) spec.provides

  -- _contributors
  unfoldable pub contributors_of :
      List (ModuleSpec C) → Dict String (List (ModuleSpec C)) → Dict String (List (ModuleSpec C))
  unfolding group_under
  contributors_of [] groups = groups
  contributors_of (spec ∷ rest) groups =
      contributors_of rest (group_under spec.contributes spec groups)

  -- {providers[requirement].module_id ...}; a requirement has a provider by then
  unfoldable pub provider_ids : Dict String (ModuleSpec C) → List String → List String
  provider_ids providers [] = []
  provider_ids providers (item ∷ rest) =
      let others = provider_ids providers rest in
      elim (Dict.get providers item) [ none ↦ others | some spec ↦ spec.module_id ∷ others ]

  unfoldable pub contributor_ids : Dict String (List (ModuleSpec C)) → List String → List String
  unfolding identities
  contributor_ids contributors [] = []
  contributor_ids contributors (key ∷ rest) =
      identities (Dict.get_or contributors key []) ++ contributor_ids contributors rest

  -- the set of _construction_dependencies for one module
  unfoldable pub dependencies_of :
      Dict String (ModuleSpec C) → Dict String (List (ModuleSpec C)) → ModuleSpec C → List String
  unfolding provider_ids contributor_ids
  dependencies_of providers contributors spec = dedup (
      spec.depends
      ++ provider_ids providers spec.requires
      ++ contributor_ids contributors spec.consumes)

  -- _construction_dependencies
  unfoldable pub construction_dependencies :
      List (ModuleSpec C)
      → Dict String (ModuleSpec C)
      → Dict String (List (ModuleSpec C))
      → Dict String (List String)
  unfolding dependencies_of
  construction_dependencies specs providers contributors =
      map (λ spec. (spec.module_id, dependencies_of providers contributors spec)) specs

  -- _ordering_dependencies
  unfoldable pub ordering_dependencies :
      ModuleSpec C → Phase → Dict String (ModuleSpec C) → List String
  unfolding ordering_names provider_ids
  ordering_dependencies spec phase providers =
      dedup (provider_ids providers (ordering_names phase spec.order))
