-- ===== src/Operations/BodyTests.antt =====
-- Bodies at concrete inputs: a store that keeps one body of three bytes.
use aurora_bot.Prelude.{
  ℕ, ◌≡◌, ◌≢◌, ◌∙◌, refl, ap, sym, String, Option, none, some, [], ◌∷◌, ◌++◌, subst, ok, err,
  length, take, drop,
}
use aurora_bot.Operations.Definitions.{OperationRequest, OperationResult, succeeded, command}
use aurora_bot.Operations.Payloads.{
  Bytes, ArtifactInfo, ArtifactChunk, ArtifactStore, Json, out_of_fuel, load,
}
use aurora_bot.Operations.Stored.{IsKept, load-ends}
use aurora_bot.Operations.Wire.{
  Fields, null, number, text, no_fields, field, resource_ref, artifact_info, IsInfo,
}
use aurora_bot.Operations.Codec.{
  bad_schema, operation_result, result_data, request_fields, IsResult,
}
use aurora_bot.Operations.Encoding.{
  result_media_type, request_media_type, encode_receipt, decode_receipt, encode_request_body,
  decode_request_body,
}
use aurora_bot.Operations.Bodies.{decode-encode_receipt, decode-encode_request}
use aurora_bot.Prelude.Int.{pos}
use aurora_bot.Resources.Keys.{ResourceRef}
use aurora_bot.Resources.Names.{IsKey}
use aurora_bot.Identity.Names.{is_namespace, is_path}
use aurora_bot.Operations.Tests.{send_key, send_ref}

abbrev three : Bytes
three = 1 ∷ 2 ∷ 3 ∷ []

abbrev digest : String
digest = "0123456789abcdef0123456789abcdef0123456789abcdef0123456789abcdef"

abbrev kept_ref : ResourceRef
kept_ref = record { key = send_key; revision = some digest }

abbrev store : String → ArtifactStore
store media_type = record {
  put_stream =
      λ key content media. record { ref = kept_ref; size = length content; media_type = media };
  read = λ ref offset limit. some (record {
    info = record { ref = kept_ref; size = 3; media_type = media_type };
    offset = offset;
    content = take limit (drop offset three);
  });
}

drop-append : (front rest : Bytes) → drop (length front) (front ++ rest) ≡ rest
drop-append [] rest = refl
drop-append (x ∷ front) rest = drop-append front rest

abbrev description : String → ArtifactInfo
description media_type = record { ref = kept_ref; size = 3; media_type = media_type }

send_key-IsKey : IsKey send_key
unfolding is_namespace is_path
send_key-IsKey = record { namespace_ok = refl; domain_ok = refl; kind_ok = refl; path_ok = refl }

result-IsInfo : IsInfo (description result_media_type)
unfolding resource_ref artifact_info
result-IsInfo = record { key_ok = send_key-IsKey; ref_ok = refl; info_ok = refl }

request-IsInfo : IsInfo (description request_media_type)
unfolding resource_ref artifact_info
request-IsInfo = record { key_ok = send_key-IsKey; ref_ok = refl; info_ok = refl }

store-IsKept :
    (media_type : String)
    → IsInfo (description media_type)
    → IsKept (store media_type) send_key three media_type
store-IsKept media_type valid = record {
  size-put = refl;
  info-put = valid;
  media_type-put = refl;
  read-put = λ front rest limit e.
      ap
        (λ (b : Bytes).
          let found : Option ArtifactChunk = some (record {
            info = record { ref = kept_ref; size = 3; media_type = media_type };
            offset = length front;
            content = take limit b;
          }) in
          found)
        (ap (drop (length front)) (sym e) ∙ drop-append front rest);
}

-- A JSON library that knows one text.
abbrev json : {D : Type 0} → D → Json D
json d = record { json_bytes = λ x. (1 ∷ 2 ∷ []) ∷ (3 ∷ []) ∷ []; parse = λ b. some d }

abbrev outcome : OperationResult Fields ArtifactInfo
outcome = record {
  content = field "sent" (number (pos 9)) no_fields;
  status = succeeded;
  message = none;
  evidence_refs = [];
  body_ref = none;
}

abbrev given : String → Option ArtifactStore → ArtifactStore
given media_type none = store media_type
given media_type (some a) = a

-- The store keeps the text, as the option that operations are given.
keeps :
    (media_type : String) (a : ArtifactStore)
    → IsInfo (description media_type)
    → some (store media_type) ≡ some a
    → IsKept a send_key three media_type
keeps media_type a valid e =
    subst (λ (x : ArtifactStore). IsKept x send_key three media_type) (ap (given media_type) e)
      (store-IsKept media_type valid)

outcome-IsResult : IsResult outcome
unfolding operation_result
outcome-IsResult = refl

-- A reference of another schema.
decode_schema :
    decode_receipt
      (json outcome.content)
      none
      (field "schema_version" (number (pos 1)) (field "result_ref" null no_fields))
    ≡ err bad_schema
unfolding decode_receipt
decode_schema = refl

abbrev asked : OperationRequest Fields
asked = record {
  request_id = "r1";
  bot_id = "aurora:bot/default";
  source = "test";
  target = send_ref;
  kind = command;
  arguments = field "text" (text "hello") no_fields;
  correlation_id = none;
  caused_by = none;
  deadline_at = some 7;
}

abbrev iso_format : ℕ → String
iso_format t = "2026-01-01T00:00:00+00:00"

decode-encode_receipt_example :
    (receipt : Fields) × (info : Option ArtifactInfo) × (encode_receipt
        (json (result_data outcome))
        (some (store result_media_type))
        2
        send_key
        outcome
      ≡ ok (receipt, info))
    × (decode_receipt (json (result_data outcome)) (some (store result_media_type)) receipt
        ≡ ok (record outcome { body_ref = info }))
decode-encode_receipt_example =
    decode-encode_receipt (json (result_data outcome)) (some (store result_media_type)) send_key
      outcome outcome-IsResult refl (λ a. keeps result_media_type a result-IsInfo) 2

decode-encode_request_example :
    (written : Fields) × (encode_request_body iso_format
        (json (request_fields iso_format asked))
        (some (store request_media_type))
        2
        send_key
        asked
      ≡ ok written)
    × (decode_request_body
          (json (request_fields iso_format asked))
          (some (store request_media_type))
          written
        ≡ ok (request_fields iso_format asked))
decode-encode_request_example =
    decode-encode_request iso_format (json (request_fields iso_format asked))
      (some (store request_media_type)) send_key asked refl
      (λ a. keeps request_media_type a request-IsInfo) 2

-- A store whose chunks are not those that were asked for.
load-ends_example :
    load
      (json {D = ℕ} 4)
      (some (store "text"))
      (record { ref = kept_ref; size = 3; media_type = "data" })
      "data"
    ≢ err out_of_fuel
load-ends_example =
    load-ends (json {D = ℕ} 4) (some (store "text"))
      (record { ref = kept_ref; size = 3; media_type = "data" }) "data"
