-- ===== src/Kernel/Resolve/Plan.antt =====
-- The phase plan of src/aurora_kernel/resolve.py, and `resolve`. Where two phases of a set have the
-- same order and name, Python leaves open which comes first; here it is the one found first.
use aurora_bot.Prelude.{
  String, Bool, not, ◌&&◌, ◌||◌, none, some, List, [], ◌∷◌, string_eq, ◌==◌, keep, map, add, any,
  reverse, sorted, str_le, if◌then◌else◌, contains, Result, ok, err, ◌>>=◌, ◌>>◌, refuse_if,
  traverse,
}
use aurora_bot.Prelude.Dict.{Dict}
use aurora_bot.Prelude.Int.{int_lt, int_le, int_beq}
use aurora_bot.Kernel.Declaration.{Phase, Ordering, Manifest, ModuleSpec}
use aurora_bot.Kernel.Phases.{phase_eq, prepare, construct, builtin_phases, is_construction}
use aurora_bot.Kernel.Optional.{drop_unsatisfied_optional}
use aurora_bot.Kernel.Resolve.Checks.{
  ResolveError, late_construction, late_running, cycle, validate_module_api, validate_identities,
  validate_requires, validate_declarations, validate_orderings,
}
use aurora_bot.Kernel.Resolve.Providers.{
  providers_of, is_active, contributors_of, construction_dependencies, ordering_dependencies,
}
use aurora_bot.Kernel.Resolve.Topological.{topological}

-- phases.add(ordering.phase), phases.add(ordering.after_phase)
unfoldable pub add_orderings : List Ordering → List Phase → List Phase
add_orderings [] phases = phases
add_orderings (ordering ∷ rest) phases =
    let phases' = add ordering.phase phases in
    add_orderings rest
      (elim ordering.after_phase [ none ↦ phases' | some phase ↦ add phase phases' ])

unfoldable pub add_phases : List Phase → List Phase → List Phase
add_phases [] phases = phases
add_phases (phase ∷ rest) phases = add_phases rest (add phase phases)

-- key=lambda phase: (phase.order, phase.name)
abbrev pub earlier : Phase → Phase → Bool
earlier p q = int_lt p.order q.order || int_beq p.order q.order && str_le p.name q.name

-- max(orders of one group) >= min(orders of a later one), for some pair of them
unfoldable pub overlaps : List Phase → List Phase → Bool
overlaps first second = any (λ p. any (λ q. int_le q.order p.order) second) first

-- _validate_phase_groups
unfoldable pub validate_phase_groups : List Phase → Result ResolveError (Unit {0})
unfolding overlaps
validate_phase_groups phases = do
  let construction = keep is_construction phases
  let startup = keep (λ phase. not (is_construction phase) && not phase.shutdown) phases
  let shutdown = keep (λ phase. phase.shutdown) phases
  refuse_if (overlaps construction startup) late_construction
  refuse_if (overlaps startup shutdown) late_running

pub record PhaseStep (C : Type 0) : Type 0 where
  pub phase : Phase
  pub modules : List (ModuleSpec C)

pub record Resolution (C : Type 0) : Type 0 where
  pub phases : List (PhaseStep C)
  pub providers : Dict String String
  pub modules : List (ModuleSpec C)

module _ {C : Type 0} where
  -- spec.participates
  abbrev pub participates : ModuleSpec C → Phase → Bool
  participates spec phase = contains (map (λ entry. entry.0) spec.hooks) phase

  -- the loop of _collect_phases
  unfoldable pub phases_of : List (ModuleSpec C) → List Phase → List Phase
  unfolding add_orderings add_phases
  phases_of [] phases = phases
  phases_of (spec ∷ rest) phases =
      phases_of rest
        (add_orderings spec.order (add_phases (map (λ entry. entry.0) spec.hooks) phases))

  -- _collect_phases
  unfoldable pub collect_phases : List (ModuleSpec C) → List Phase
  unfolding phases_of sorted
  collect_phases specs = sorted earlier (phases_of specs builtin_phases)

  -- _phase_modules
  unfoldable pub phase_modules :
      Phase
      → Dict String (ModuleSpec C)
      → List (ModuleSpec C)
      → Result ResolveError (List (ModuleSpec C))
  unfolding topological ordering_dependencies
  phase_modules phase providers construction =
      if phase == construct
      then ok construction
      else if phase == prepare
      then ok (keep (λ spec. participates spec prepare) construction)
      else let base = if phase.shutdown then reverse construction else construction in
        let participants = keep (λ spec. participates spec phase) base in
        topological participants
          (map (λ spec. (spec.module_id, ordering_dependencies spec phase providers)) participants)

  unfoldable pub phase_step :
      Dict String (ModuleSpec C) → List (ModuleSpec C) → Phase → Result ResolveError (PhaseStep C)
  unfolding phase_modules
  phase_step providers construction phase = do
    modules ← phase_modules phase providers construction
    ok (record { phase = phase; modules = modules })

  -- resolve, from the list without unsatisfied optional modules on
  unfoldable pub resolve_available : List (ModuleSpec C) → Result ResolveError (Resolution C)
  unfolding providers_of is_active validate_requires contributors_of validate_declarations
      validate_orderings construction_dependencies topological collect_phases validate_phase_groups
      phase_step
  resolve_available available = do
    providers ← providers_of available
    let active = keep (is_active providers) available
    validate_requires active providers
    let contributors = contributors_of active []
    validate_declarations active available
    validate_orderings active
    construction ←
        topological (sorted (λ a b. str_le a.module_id b.module_id) active)
          (construction_dependencies active providers contributors)
    let phases = collect_phases active
    validate_phase_groups phases
    steps ← traverse (phase_step providers construction) phases
    ok (record {
      phases = steps;
      providers = map (λ entry. (entry.0, entry.1.module_id)) providers;
      modules = available;
    })

  -- resolve; the loop over the optional modules always ends
  unfoldable pub resolve :
      (Manifest → Bool) → List (ModuleSpec C) → Result ResolveError (Resolution C)
  unfolding validate_module_api validate_identities drop_unsatisfied_optional resolve_available
  resolve accepts specs = do
    validate_module_api accepts specs
    validate_identities specs
    elim (drop_unsatisfied_optional specs) [
      | none ↦ err cycle
      | some available ↦ resolve_available available
    ]
