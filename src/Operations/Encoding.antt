-- ===== src/Operations/Encoding.antt =====
-- Receipts and recorded requests (src/aurora_bot/operations/receipts.py and
-- src/aurora_bot/operations/requests.py). The resource key of a body, which is made from the identity
-- of the request, is an argument.
use aurora_bot.Prelude.{
  ℕ, String, Bool, false, not, Option, none, some, ◌==◌, string_eq, Result, ok, err, ◌>>=◌, ◌>>◌,
  refuse_if, nat_beq,
}
use aurora_bot.Prelude.Int.{pos}
use aurora_bot.Resources.Keys.{ResourceKey}
use aurora_bot.Operations.Definitions.{OperationRequest, OperationResult, OperationStatus}
use aurora_bot.Operations.Payloads.{
  ArtifactInfo, ArtifactStore, Json, Body, inline, stored, PayloadError, save, load,
}
use aurora_bot.Operations.Wire.{
  Value, Fields, number, real, text, object, no_fields, field, field_of, artifact_data,
  read_artifact, value_or,
}
use aurora_bot.Operations.Codec.{
  BodyError, body, wired, other_status, bad_schema, status_value, result_data, read_result,
  request_fields,
}

-- _MEDIA_TYPE of the receipts, and that of the requests
abbrev pub result_media_type : String
result_media_type = "application/vnd.aurora.operation-result+json;version=1"

abbrev pub request_media_type : String
request_media_type = "application/vnd.aurora.operation-request+json;version=1"

-- _REFERENCE_SCHEMA
abbrev pub reference_schema : ℕ
reference_schema = 2

-- value == _REFERENCE_SCHEMA; a float is equal to the integer of its value
abbrev pub is_schema : Option Value → Bool
is_schema (some (number (pos n))) = nat_beq n reference_schema
is_schema (some (real decimal)) = decimal == "2.0"
is_schema _ = false

-- status.value == value
abbrev pub same_status : OperationStatus → Value → Bool
same_status status (text s) = status_value status == s
same_status status _ = false

abbrev pub loaded_body : Result PayloadError Fields → Result BodyError Fields
loaded_body (err e) = err (body e)
loaded_body (ok payload) = ok payload

-- what OperationReceipts.encode returns, by what was saved
unfoldable pub receipt_of :
    OperationStatus
    → Result PayloadError (Body Fields)
    → Result BodyError (Fields × Option ArtifactInfo)
unfolding artifact_data
receipt_of status (err e) = err (body e)
receipt_of status (ok (inline payload)) = ok (payload, none)
receipt_of status (ok (stored info)) = ok (
  field "schema_version" (number (pos reference_schema)) (
      field "status" (text (status_value status))
        (field "result_ref" (object (artifact_data info)) no_fields)),
  some info,
)

-- OperationReceipts.encode, at the key of the request
unfoldable pub encode_receipt :
    {I : Type 0}
    → Json Fields
    → Option ArtifactStore
    → ℕ
    → ResourceKey
    → OperationResult Fields I
    → Result BodyError (Fields × Option ArtifactInfo)
unfolding receipt_of result_data
encode_receipt json artifacts inline_bytes key result =
    receipt_of result.status
      (save json artifacts inline_bytes key (result_data result) result_media_type)

-- what OperationRequests.encode returns, by what was saved
unfoldable pub request_of : Body Fields → Fields
unfolding artifact_data
request_of (inline payload) = payload
request_of (stored info) =
    field "schema_version" (number (pos reference_schema))
      (field "request_ref" (object (artifact_data info)) no_fields)

abbrev pub saved_request : Result PayloadError (Body Fields) → Result BodyError Fields
saved_request (err e) = err (body e)
saved_request (ok b) = ok (request_of b)

-- OperationRequests.encode, at the key of the request
unfoldable pub encode_request_body :
    (ℕ → String)
    → Json Fields
    → Option ArtifactStore
    → ℕ
    → ResourceKey
    → OperationRequest Fields
    → Result BodyError Fields
unfolding request_of request_fields
encode_request_body iso_format json artifacts inline_bytes key request =
    saved_request
      (save json artifacts inline_bytes key (request_fields iso_format request) request_media_type)

module _ (json : Json Fields) (artifacts : Option ArtifactStore) where
  -- OperationReceipts.decode, by the reference that the data holds
  unfoldable pub decode_by :
      Fields → Option Value → Result BodyError (OperationResult Fields ArtifactInfo)
  unfolding field_of read_artifact read_result
  decode_by fields none = read_result fields
  decode_by fields (some reference) = do
    refuse_if (not (is_schema (field_of fields "schema_version"))) bad_schema
    info ← wired (read_artifact reference)
    payload ← loaded_body (load json artifacts info result_media_type)
    result ← read_result payload
    status ← wired (value_or (field_of fields "status"))
    refuse_if (not (same_status result.status status)) other_status
    ok (record result { body_ref = some info })

  -- OperationReceipts.decode
  unfoldable pub decode_receipt : Fields → Result BodyError (OperationResult Fields ArtifactInfo)
  unfolding decode_by
  decode_receipt fields = decode_by fields (field_of fields "result_ref")

  -- OperationRequests.decode, by the reference that the data holds
  unfoldable pub decode_request_by : Fields → Option Value → Result BodyError Fields
  unfolding field_of read_artifact
  decode_request_by fields none = ok fields
  decode_request_by fields (some reference) = do
    refuse_if (not (is_schema (field_of fields "schema_version"))) bad_schema
    info ← wired (read_artifact reference)
    loaded_body (load json artifacts info request_media_type)

  -- OperationRequests.decode
  unfoldable pub decode_request_body : Fields → Result BodyError Fields
  unfolding decode_request_by
  decode_request_body fields = decode_request_by fields (field_of fields "request_ref")
