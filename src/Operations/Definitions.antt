-- ===== src/Operations/Definitions.antt =====
-- The values of src/aurora_bot/contracts/operation.py and the request's encoding
-- (src/aurora_bot/operations/codec.py). `J` is the type of JSON objects, a time is a number.
use aurora_bot.Prelude.{
  ℕ, String, Bool, Option, none, List, ◌==◌, string_eq, nat_eq, Eq, is_blank, Result, ◌>>◌,
  refuse_if, not, ◌&&◌,
}
use aurora_bot.Resources.Keys.{ResourceRef, ResourceDescriptor, option_eq, ref_eq}

-- OperationKind
pub data OperationKind : Type 0 where
  command query : OperationKind

-- the value of an OperationKind
abbrev pub kind_value : OperationKind → String
kind_value command = "command"
kind_value query = "query"

-- OperationStatus
pub data OperationStatus : Type 0 where
  succeeded failed unknown : OperationStatus

pub data DefinitionError : Type 0 where
  no_version no_kind no_description : DefinitionError

-- OperationDefinition
pub record OperationDefinition (J : Type 0) : Type 0 where
  pub ref : ResourceRef
  pub description : String
  pub parameters : J
  pub tool_name : Option String
  pub retry_safe : Bool

-- OperationRequest
pub record OperationRequest (J : Type 0) : Type 0 where
  pub request_id : String
  pub bot_id : String
  pub source : String
  pub target : ResourceRef
  pub kind : OperationKind
  pub arguments : J
  pub correlation_id : Option String
  pub caused_by : Option String
  pub deadline_at : Option ℕ

-- OperationResult; `I` is the type of the descriptions of stored content
pub record OperationResult (J I : Type 0) : Type 0 where
  pub content : J
  pub status : OperationStatus
  pub message : Option String
  pub evidence_refs : List String
  pub body_ref : Option I

module _ {J : Type 0} where
  -- OperationDefinition.__post_init__, without the check of the tool's name
  unfoldable pub check_definition : OperationDefinition J → Result DefinitionError (Unit {0})
  check_definition d = do
    refuse_if (d.ref.revision == none) no_version
    refuse_if (not (d.ref.key.kind == "command") && not (d.ref.key.kind == "query")) no_kind
    refuse_if (is_blank d.description) no_description

  -- definition.kind is kind, for a definition that was checked
  abbrev pub is_kind : OperationKind → OperationDefinition J → Bool
  is_kind kind d = d.ref.key.kind == kind_value kind

  -- OperationDefinition.resource; `describe` makes the metadata
  unfoldable pub resource_of :
      (J → Option String → Bool → J) → OperationDefinition J → ResourceDescriptor J
  resource_of describe d = record {
    ref = d.ref;
    description = d.description;
    contract = none;
    metadata = describe d.parameters d.tool_name d.retry_safe;
  }

-- request_data
pub record RequestData (J : Type 0) : Type 0 where
  pub schema_version : ℕ
  pub request_id : String
  pub bot_id : String
  pub source : String
  pub target : ResourceRef
  pub kind : String
  pub arguments : J
  pub correlation_id : Option String
  pub caused_by : Option String
  pub deadline_at : Option ℕ

unfoldable pub request_data : {J : Type 0} → OperationRequest J → RequestData J
request_data r = record {
  schema_version = 1;
  request_id = r.request_id;
  bot_id = r.bot_id;
  source = r.source;
  target = r.target;
  kind = kind_value r.kind;
  arguments = r.arguments;
  correlation_id = r.correlation_id;
  caused_by = r.caused_by;
  deadline_at = r.deadline_at;
}

-- == on two requests as data
unfoldable pub same_data : {J : Type 0} ⦃j : Eq J⦄ → RequestData J → RequestData J → Bool
same_data a b =
    a.schema_version == b.schema_version
    && a.request_id == b.request_id
    && a.bot_id == b.bot_id
    && a.source == b.source
    && a.target == b.target
    && a.kind == b.kind
    && a.arguments == b.arguments
    && a.correlation_id == b.correlation_id
    && a.caused_by == b.caused_by
    && a.deadline_at == b.deadline_at
