-- ===== src/Operations/Codec.antt =====
-- The objects of requests and results (src/aurora_bot/operations/codec.py), with the checks of
-- `OperationResult` (src/aurora_bot/contracts/operation.py, src/aurora_bot/contracts/evidence.py).
-- The data of an operation is an object; the text of a time is a parameter. A message that is
-- neither a text nor null, and evidence that is not a list, which nothing writes, are refused.
use aurora_bot.Prelude.{
  ℕ, ◌≡◌, refl, ap, ◌∙◌, String, Bool, true, false, not, ◌&&◌, Option, none, some, List, [], ◌∷◌,
  any, add, is_blank, ◌==◌, string_eq, if◌then◌else◌, Result, ok, err, ◌>>=◌, ◌>>◌, refuse_if,
}
use aurora_bot.Prelude.Int.{pos}
use aurora_bot.Resources.Keys.{ResourceRef}
use aurora_bot.Resources.Names.{print_key}
use aurora_bot.Operations.Definitions.{
  OperationRequest, OperationResult, OperationStatus, succeeded, failed, unknown, kind_value,
}
use aurora_bot.Operations.Payloads.{ArtifactInfo, PayloadError}
use aurora_bot.Operations.Wire.{
  Value, Elements, Fields, null, number, text, array, object, no_elements, element, no_fields,
  field, field_of, WireError, optional_text, texts, value_or,
}

-- ArtifactIntegrityError and the errors of reading, with what they were raised for
pub data BodyError : Type 0 where
  body : PayloadError → BodyError
  wire : WireError → BodyError
  bad_status other_status bad_schema no_reason bad_evidence bad_content bad_message : BodyError

abbrev pub wired : {A : Type 0} → Result WireError A → Result BodyError A
wired (err e) = err (wire e)
wired (ok a) = ok a

-- the value of an OperationStatus, and OperationStatus(text)
abbrev pub status_value : OperationStatus → String
status_value succeeded = "succeeded"
status_value failed = "failed"
status_value unknown = "unknown"

abbrev pub read_status : String → Option OperationStatus
read_status name =
    if name == "succeeded"
    then some succeeded
    else if name == "failed"
    then some failed
    else if name == "unknown"
    then some unknown
    else none

abbrev pub status_or : Option OperationStatus → Result BodyError OperationStatus
status_or none = err bad_status
status_or (some status) = ok status

abbrev pub status_of : Value → Result BodyError OperationStatus
status_of (text s) = status_or (read_status s)
status_of _ = err bad_status

abbrev pub is_succeeded : OperationStatus → Bool
is_succeeded succeeded = true
is_succeeded _ = false

-- message is None or not message.strip()
abbrev pub gives_no_reason : Option String → Bool
gives_no_reason none = true
gives_no_reason (some message) = is_blank message

-- tuple(dict.fromkeys(references)), where `seen` are those before
unfoldable pub from_keys : List String → List String → List String
from_keys seen [] = seen
from_keys seen (ref ∷ refs) = from_keys (add ref seen) refs

-- OperationResult(data, status, message, evidence_refs)
unfoldable pub operation_result :
    Fields
    → OperationStatus
    → Option String
    → List String
    → Result BodyError (OperationResult Fields ArtifactInfo)
unfolding from_keys is_blank
operation_result content status message evidence_refs = do
  refuse_if (not (is_succeeded status) && gives_no_reason message) no_reason
  refuse_if (any is_blank evidence_refs) bad_evidence
  ok (record {
    content = content;
    status = status;
    message = message;
    evidence_refs = from_keys [] evidence_refs;
    body_ref = none;
  })

-- result_data
unfoldable pub result_data : {I : Type 0} → OperationResult Fields I → Fields
result_data r = field "status" (text (status_value r.status)) (
    field "data" (object r.content) (
      field "message" (optional_text r.message)
        (field "evidence_refs" (array (texts r.evidence_refs)) no_fields)))

abbrev pub content_of : Value → Result BodyError Fields
content_of (object content) = ok content
content_of _ = err bad_content

abbrev pub message_of : Value → Result BodyError (Option String)
message_of null = ok none
message_of (text s) = ok (some s)
message_of _ = err bad_message

unfoldable pub texts_of : Elements → Result BodyError (List String)
texts_of no_elements = ok []
texts_of (element (text s) rest) = do ss ← texts_of rest; ok (s ∷ ss)
texts_of (element _ rest) = err bad_evidence

-- tuple(data.get("evidence_refs", ()))
abbrev pub evidence_of : Option Value → Result BodyError (List String)
evidence_of none = ok []
evidence_of (some (array items)) = texts_of items
evidence_of (some _) = err bad_evidence

-- read_result
unfoldable pub read_result : Fields → Result BodyError (OperationResult Fields ArtifactInfo)
unfolding field_of texts_of operation_result
read_result fields = do
  data_value ← wired (value_or (field_of fields "data"))
  status_text ← wired (value_or (field_of fields "status"))
  status ← status_of status_text
  message_value ← wired (value_or (field_of fields "message"))
  evidence_refs ← evidence_of (field_of fields "evidence_refs")
  content ← content_of data_value
  message ← message_of message_value
  operation_result content status message evidence_refs

-- resource_ref_data
unfoldable pub resource_ref_data : ResourceRef → Fields
unfolding print_key
resource_ref_data ref =
    field "key" (text (print_key ref.key)) (field "revision" (optional_text ref.revision) no_fields)

abbrev pub deadline_text : (ℕ → String) → Option ℕ → Value
deadline_text iso_format none = null
deadline_text iso_format (some t) = text (iso_format t)

-- request_data
unfoldable pub request_fields : (ℕ → String) → OperationRequest Fields → Fields
unfolding resource_ref_data
request_fields iso_format r = field "schema_version" (number (pos 1)) (
    field "request_id" (text r.request_id) (
      field "bot_id" (text r.bot_id) (
        field "source" (text r.source) (
          field "target" (object (resource_ref_data r.target)) (
            field "kind" (text (kind_value r.kind)) (
              field "arguments" (object r.arguments) (
                field "correlation_id" (optional_text r.correlation_id) (
                  field "caused_by" (optional_text r.caused_by)
                    (field "deadline_at" (deadline_text iso_format r.deadline_at) no_fields)))))))))

-- A result that passed the checks of its constructor.
abbrev pub IsResult : OperationResult Fields ArtifactInfo → Type 0
IsResult r =
    operation_result r.content r.status r.message r.evidence_refs
    ≡ ok (record r { body_ref = none })

pub read_status_value : (s : OperationStatus) → read_status (status_value s) ≡ some s
read_status_value succeeded = refl
read_status_value failed = refl
read_status_value unknown = refl

message_of_text : (m : Option String) → message_of (optional_text m) ≡ ok m
message_of_text none = refl
message_of_text (some s) = refl

texts_of-texts : (ss : List String) → texts_of (texts ss) ≡ ok ss
unfolding texts_of
texts_of-texts [] = refl
texts_of-texts (s ∷ ss) = ap (λ r. r >>= λ rest. ok (s ∷ rest)) (texts_of-texts ss)

-- A valid result is read from the object that it is written as.
pub read_result-result_data :
    (r : OperationResult Fields ArtifactInfo)
    → IsResult r
    → read_result (result_data r) ≡ ok (record r { body_ref = none })
unfolding read_result result_data field_of
read_result-result_data r h =
    ap
      (λ s. status_or s >>= λ status. texts_of (texts r.evidence_refs) >>= λ refs.
        message_of (optional_text r.message) >>= λ message.
        operation_result r.content status message refs)
      (read_status_value r.status)
    ∙ ap
        (λ e. e >>= λ refs. message_of (optional_text r.message) >>= λ message.
          operation_result r.content r.status message refs)
        (texts_of-texts r.evidence_refs)
    ∙ ap (λ m. m >>= λ message. operation_result r.content r.status message r.evidence_refs)
        (message_of_text r.message)
    ∙ h
