-- ===== src/Kernel/Resolve/Checks.antt =====
-- The checks of src/aurora_kernel/resolve.py on the declared modules.
use aurora_bot.Prelude.{
  String, Bool, not, none, some, List, [], ◌∷◌, ◌++◌, string_eq, length, leb, contains, any, Result,
  ok, ◌>>◌, refuse_if,
}
use aurora_bot.Prelude.Dict
use aurora_bot.Prelude.Dict.{Dict}
use aurora_bot.Prelude.Int.{int_lt}
use aurora_bot.Kernel.Declaration.{Phase, Ordering, Manifest, ModuleSpec}
use aurora_bot.Kernel.Optional.{identities}

pub data ResolveError : Type 0 where
  incompatible_api repeated_module tied_providers self_dependency missing_namespace : ResolveError
  missing_capability undeclared_points repeated_declaration late_ordering : ResolveError
  late_construction late_running cycle : ResolveError

-- for key in spec.declares
unfoldable pub declare_all :
    String → List String → Dict String (List String) → Dict String (List String)
declare_all module_id [] declared = declared
declare_all module_id (key ∷ rest) declared =
    declare_all module_id rest
      (Dict.put declared key (Dict.get_or declared key [] ++ module_id ∷ []))

-- ordering.after_phase or ordering.phase
abbrev pub target_of : Ordering → Phase
target_of ordering = elim ordering.after_phase [ none ↦ ordering.phase | some phase ↦ phase ]

module _ {C : Type 0} where
  -- _validate_module_api; whether a version meets a specifier is the packaging library's part
  unfoldable pub validate_module_api :
      (Manifest → Bool) → List (ModuleSpec C) → Result ResolveError (Unit {0})
  validate_module_api accepts specs =
      refuse_if (any (λ spec. not (accepts spec.manifest)) specs) incompatible_api

  -- the loop of _validate_identities
  unfoldable pub check_identities :
      List String → List (ModuleSpec C) → Result ResolveError (Unit {0})
  check_identities seen [] = ok tt
  check_identities seen (spec ∷ rest) = do
    refuse_if (contains seen spec.module_id) repeated_module
    check_identities (spec.module_id ∷ seen) rest

  unfoldable pub validate_identities : List (ModuleSpec C) → Result ResolveError (Unit {0})
  unfolding check_identities
  validate_identities specs = check_identities [] specs

  -- the loop of _validate_requires
  unfoldable pub check_requires :
      List String → List String → List (ModuleSpec C) → Result ResolveError (Unit {0})
  check_requires available capabilities [] = ok tt
  check_requires available capabilities (spec ∷ rest) = do
    refuse_if (contains spec.depends spec.module_id) self_dependency
    refuse_if (any (λ name. not (contains available name)) spec.depends) missing_namespace
    refuse_if (any (λ name. not (contains capabilities name)) spec.requires) missing_capability
    check_requires available capabilities rest

  unfoldable pub validate_requires :
      List (ModuleSpec C) → Dict String (ModuleSpec C) → Result ResolveError (Unit {0})
  unfolding check_requires identities
  validate_requires specs providers = check_requires (identities specs) (Dict.keys providers) specs

  -- referenced
  unfoldable pub referenced : List (ModuleSpec C) → List String
  referenced [] = []
  referenced (spec ∷ rest) = spec.contributes ++ spec.consumes ++ referenced rest

  unfoldable pub declared_by :
      List (ModuleSpec C) → Dict String (List String) → Dict String (List String)
  unfolding declare_all
  declared_by [] declared = declared
  declared_by (spec ∷ rest) declared =
      declared_by rest (declare_all spec.module_id spec.declares declared)

  -- _validate_declarations
  unfoldable pub validate_declarations :
      List (ModuleSpec C) → List (ModuleSpec C) → Result ResolveError (Unit {0})
  unfolding referenced declared_by
  validate_declarations specs owners = do
    let declared = declared_by owners []
    refuse_if (any (λ key. not (contains (Dict.keys declared) key)) (referenced specs))
        undeclared_points
    refuse_if (any (λ entry. leb 2 (length entry.1)) declared) repeated_declaration

  -- _validate_orderings
  unfoldable pub validate_orderings : List (ModuleSpec C) → Result ResolveError (Unit {0})
  validate_orderings specs =
      refuse_if
        (any
          (λ spec.
            any (λ ordering. int_lt ordering.phase.order (target_of ordering).order) spec.order)
          specs)
        late_ordering
