-- ===== src/Operations/Registry.antt =====
-- `OperationRegistry` of src/aurora_bot/operations/registry.py before a request is carried out:
-- its construction, and the checks of a request. The JSON schema validator is a parameter.
use aurora_bot.Prelude.{
  String, Bool, not, Option, none, some, List, [], ◌∷◌, Eq, ◌==◌, string_eq, contains, Result, ok,
  err, ◌>>=◌, ◌>>◌, refuse_if,
}
use aurora_bot.Prelude.Dict
use aurora_bot.Prelude.Dict.{Dict}
use aurora_bot.Resources.Keys.{ResourceRef, ResourceDescriptor, ref_eq, descriptor_test}
use aurora_bot.Resources.Catalog.{Catalog, CatalogError, resolve}
use aurora_bot.Operations.Definitions.{OperationDefinition, OperationRequest, is_kind, resource_of}

pub data RegistryError : Type 0 where
  duplicate_operation other_resource unusable_schema : RegistryError
  catalog : CatalogError → RegistryError

-- Why a request is not carried out.
pub data Refusal : Type 0 where
  foreign_bot other_kind no_handler : Refusal
  unresolved : CatalogError → Refusal
  bad_arguments : String → Refusal

-- What the code relies on of the JSON schema library, and the names in the metadata of a resource.
pub record Schemas (J : Type 0) : Type 0 where
  pub describe : J → Option String → Bool → J
  -- _validate_local_schema and check_schema
  pub is_usable : J → Bool
  -- the place of the first violation, if there is one
  pub violation : J → J → Option String

pub record Registry (J : Type 0) : Type 0 where
  pub bot_id : String
  pub resources : Catalog J
  pub operations : Dict ResourceRef (OperationDefinition J)

abbrev violated : Option String → Result Refusal (Unit {0})
violated none = ok tt
violated (some place) = err (bad_arguments place)

module _ {J : Type 0} where
  abbrev resolved :
      Result CatalogError (ResourceDescriptor J) → Result RegistryError (ResourceDescriptor J)
  resolved (ok d) = ok d
  resolved (err e) = err (catalog e)

  module _ ⦃j : Eq J⦄ (schemas : Schemas J) where
    -- the loop of __init__
    unfoldable pub register :
        List (OperationDefinition J) → Registry J → Result RegistryError (Registry J)
    register [] r = ok r
    register (d ∷ ds) r = do
      refuse_if (contains (Dict.keys r.operations) d.ref) duplicate_operation
      found ← resolved (resolve r.resources d.ref none)
      refuse_if (not (descriptor_test found (resource_of schemas.describe d))) other_resource
      refuse_if (not (schemas.is_usable d.parameters)) unusable_schema
      register ds (record r { operations = Dict.put r.operations d.ref d })

    -- __init__
    unfoldable pub build_registry :
        String → List (OperationDefinition J) → Catalog J → Result RegistryError (Registry J)
    unfolding register
    build_registry bot_id definitions resources =
        register definitions (record { bot_id = bot_id; resources = resources; operations = [] })

  abbrev handler_of :
      Registry J
      → Result CatalogError (ResourceDescriptor J)
      → Result Refusal (OperationDefinition J)
  handler_of r (err e) = err (unresolved e)
  handler_of r (ok d) = elim (Dict.get r.operations d.ref) [ none ↦ err no_handler | some o ↦ ok o ]

  -- definition
  unfoldable pub definition : Registry J → ResourceRef → Result Refusal (OperationDefinition J)
  definition r ref = handler_of r (resolve r.resources ref none)

  -- _validate_identity
  unfoldable pub validate_identity :
      Registry J → OperationRequest J → OperationDefinition J → Result Refusal (Unit {0})
  validate_identity r request d = do
    refuse_if (not (request.bot_id == r.bot_id)) foreign_bot
    refuse_if (not (is_kind request.kind d)) other_kind

  -- _validate_arguments
  unfoldable pub validate_arguments :
      Schemas J → OperationRequest J → OperationDefinition J → Result Refusal (Unit {0})
  validate_arguments schemas request d = violated (schemas.violation d.parameters request.arguments)

  -- the checks of dispatch
  unfoldable pub validate :
      Schemas J → Registry J → OperationRequest J → Result Refusal (OperationDefinition J)
  unfolding definition validate_identity validate_arguments
  validate schemas r request = do
    d ← definition r request.target
    validate_identity r request d
    validate_arguments schemas request d
    ok d
