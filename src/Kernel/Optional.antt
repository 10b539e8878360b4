-- ===== src/Kernel/Optional.antt =====
-- `_drop_unsatisfied_optional` of src/aurora_kernel/resolve.py.
use aurora_bot.Prelude.{
  ℕ, zero, suc, String, Bool, not, ◌&&◌, ◌||◌, Option, none, some, List, [], ◌∷◌, ◌++◌, length,
  keep, any, is_empty, contains, string_eq, if◌then◌else◌,
}
use aurora_bot.Kernel.Declaration.{ModuleSpec}

-- bool(set(wanted) - available)
abbrev pub lacks : List String → List String → Bool
lacks wanted available = any (λ name. not (contains available name)) wanted

module _ {C : Type 0} where
  -- {capability for spec in remaining for capability in spec.provides}
  unfoldable pub provided : List (ModuleSpec C) → List String
  provided [] = []
  provided (spec ∷ rest) = spec.provides ++ provided rest

  unfoldable pub identities : List (ModuleSpec C) → List String
  identities [] = []
  identities (spec ∷ rest) = spec.module_id ∷ identities rest

  -- _is_unsatisfied
  unfoldable pub is_unsatisfied : ModuleSpec C → List String → List String → Bool
  is_unsatisfied spec available namespaces =
      spec.optional && (lacks spec.requires available || lacks spec.depends namespaces)

  -- A module among others that its requirements are looked up in.
  unfoldable pub is_left_out : List (ModuleSpec C) → ModuleSpec C → Bool
  unfolding is_unsatisfied provided identities
  is_left_out remaining spec = is_unsatisfied spec (provided remaining) (identities remaining)

  unfoldable pub skipped : List (ModuleSpec C) → List String
  unfolding is_left_out identities
  skipped remaining = identities (keep (is_left_out remaining) remaining)

  unfoldable pub without : List String → List (ModuleSpec C) → List (ModuleSpec C)
  without names remaining = keep (λ spec. not (contains names spec.module_id)) remaining

  -- while True; `none` when the fuel is spent
  unfoldable pub drop_loop : ℕ → List (ModuleSpec C) → Option (List (ModuleSpec C))
  unfolding skipped without
  drop_loop zero remaining = none
  drop_loop (suc fuel) remaining =
      let rest = drop_loop fuel (without (skipped remaining) remaining) in
      if is_empty (skipped remaining) then some remaining else rest

  -- Each round but the last drops a module.
  unfoldable pub drop_unsatisfied_optional : List (ModuleSpec C) → Option (List (ModuleSpec C))
  unfolding drop_loop
  drop_unsatisfied_optional specs = drop_loop (suc (length specs)) specs
