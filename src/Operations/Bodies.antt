-- ===== src/Operations/Bodies.antt =====
-- Receipts and recorded requests are read back as they were written
-- (src/aurora_bot/operations/receipts.py and src/aurora_bot/operations/requests.py).
use aurora_bot.Prelude.{
  ℕ, ◌≡◌, refl, ap, ◌∙◌, String, not, Option, none, some, ==_refl, string_eq, Result, ok, ◌>>=◌,
  ◌>>◌, refuse_if, ok-injective,
}
use aurora_bot.Prelude.Int.{pos}
use aurora_bot.Resources.Keys.{ResourceKey}
use aurora_bot.Operations.Definitions.{OperationRequest, OperationResult, OperationStatus}
use aurora_bot.Operations.Payloads.{
  ArtifactInfo, ArtifactStore, Json, Body, inline, stored, concat, load,
}
use aurora_bot.Operations.Wire.{
  Fields, number, text, object, no_fields, field, field_of, artifact_data,
  read_artifact-artifact_data,
}
use aurora_bot.Operations.Stored.{IsKept, IsDescribed, body_of, save-body}
use aurora_bot.Operations.Codec.{
  BodyError, wired, other_status, status_value, result_data, read_result, request_fields, IsResult,
  read_result-result_data,
}
use aurora_bot.Operations.Encoding.{
  result_media_type, request_media_type, reference_schema, same_status, loaded_body, receipt_of,
  encode_receipt, request_of, saved_request, encode_request_body, decode_receipt, decode_request_by,
  decode_request_body,
}

-- the end of OperationReceipts.decode for the status that the receipt was written with
abbrev confirmed :
    OperationStatus
    → ArtifactInfo
    → OperationResult Fields ArtifactInfo
    → Result BodyError (OperationResult Fields ArtifactInfo)
confirmed status info result = do
  refuse_if (not (same_status result.status (text (status_value status)))) other_status
  ok (record result { body_ref = some info })

module _ (json : Json Fields) (artifacts : Option ArtifactStore) where
  -- What a receipt says after it was encoded from a kept body.
  receipt-body :
      (r : OperationResult Fields ArtifactInfo)
      → IsResult r
      → (b : Body Fields) → body_of json artifacts result_media_type b ≡ ok (result_data r)
      → IsDescribed b
      → (receipt : Fields) × (info : Option ArtifactInfo) × (receipt_of r.status (ok b)
          ≡ ok (receipt, info))
        × (decode_receipt json artifacts receipt ≡ ok (record r { body_ref = info }))
  unfolding decode_receipt receipt_of field_of result_data
  receipt-body r v (inline payload) h i = (
    payload,
    none,
    refl,
    ap (decode_receipt json artifacts) (ok-injective h) ∙ read_result-result_data r v,
  )
  receipt-body r v (stored info) h i = (
    field "schema_version" (number (pos reference_schema)) (
        field "status" (text (status_value r.status))
          (field "result_ref" (object (artifact_data info)) no_fields)),
    some info,
    refl,
    ap
          (λ a. wired a >>= λ found.
            loaded_body (load json artifacts found result_media_type) >>= λ payload.
            read_result payload >>= λ result. confirmed r.status found result)
          (read_artifact-artifact_data info i)
        ∙ ap
            (λ p. loaded_body p >>= λ payload.
              read_result payload >>= λ result. confirmed r.status info result)
            h
        ∙ ap (λ x. x >>= λ result. confirmed r.status info result) (read_result-result_data r v)
        ∙ ap (λ b. refuse_if (not b) other_status >> ok (record r { body_ref = some info }))
            (==_refl (status_value r.status)),
  )

  request_of-body :
      (b : Body Fields) (whole : Fields)
      → field_of whole "request_ref" ≡ none
      → body_of json artifacts request_media_type b ≡ ok whole
      → IsDescribed b
      → decode_request_body json artifacts (request_of b) ≡ ok whole
  unfolding decode_request_body request_of field_of
  request_of-body (inline payload) whole n h i =
      ap (decode_request_body json artifacts) (ok-injective h)
      ∙ ap (decode_request_by json artifacts whole) n
  request_of-body (stored info) whole n h i =
      ap (λ a. wired a >>= λ found. loaded_body (load json artifacts found request_media_type))
        (read_artifact-artifact_data info i)
      ∙ ap loaded_body h

pub decode-encode_receipt :
    (json : Json Fields) (artifacts : Option ArtifactStore) (key : ResourceKey)
    (r : OperationResult Fields ArtifactInfo)
    → IsResult r
    → json.parse (concat (json.json_bytes (result_data r))) ≡ some (result_data r)
    → ((a : ArtifactStore)
        → artifacts ≡ some a
        → IsKept a key (concat (json.json_bytes (result_data r))) result_media_type)
    → (inline_bytes : ℕ)
    → (receipt : Fields) × (info : Option ArtifactInfo) × (encode_receipt json artifacts
          inline_bytes key r
        ≡ ok (receipt, info))
      × (decode_receipt json artifacts receipt ≡ ok (record r { body_ref = info }))
unfolding encode_receipt
decode-encode_receipt json artifacts key r v parses kept inline_bytes =
    let (b, s, h, i) =
      save-body json (result_data r) parses key result_media_type artifacts kept inline_bytes in
    let (receipt, info, e, d) = receipt-body json artifacts r v b h i in
    (receipt, info, ap (receipt_of r.status) s ∙ e, d)

pub decode-encode_request :
    (iso_format : ℕ → String) (json : Json Fields) (artifacts : Option ArtifactStore)
    (key : ResourceKey) (r : OperationRequest Fields)
    → json.parse (concat (json.json_bytes (request_fields iso_format r)))
      ≡ some (request_fields iso_format r)
    → ((a : ArtifactStore)
        → artifacts ≡ some a
        → IsKept a key (concat (json.json_bytes (request_fields iso_format r))) request_media_type)
    → (inline_bytes : ℕ)
    → (written : Fields) × (encode_request_body iso_format json artifacts inline_bytes key r
        ≡ ok written)
      × (decode_request_body json artifacts written ≡ ok (request_fields iso_format r))
unfolding encode_request_body request_fields field_of
decode-encode_request iso_format json artifacts key r parses kept inline_bytes =
    let (b, s, h, i) =
      save-body json (request_fields iso_format r) parses key request_media_type artifacts kept
        inline_bytes in
    (
      request_of b,
      ap saved_request s,
      request_of-body json artifacts b (request_fields iso_format r) refl h i,
    )
