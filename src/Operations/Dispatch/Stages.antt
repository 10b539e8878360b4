-- ===== src/Operations/Dispatch/Stages.antt =====
-- One call of `dispatch` (src/aurora_bot/operations/registry.py), from each `await` to the next.
use aurora_bot.Prelude.{
  ℕ, String, Bool, false, not, ◌&&◌, Option, none, some, [], ◌∷◌, Eq, string_eq, nat_eq, Result, ok,
  err, leb, if◌then◌else◌,
}
use aurora_bot.Prelude.Dict
use aurora_bot.Prelude.Dict.{Dict}
use aurora_bot.Resources.Keys.{ResourceRef, key_eq, ref_eq, option_eq}
use aurora_bot.Operations.Definitions.{
  OperationDefinition, OperationRequest, OperationResult, OperationStatus, RequestData, failed,
  unknown, command, kind_value, is_kind, request_data, same_data,
}
use aurora_bot.Operations.Registry.{Registry, Refusal, definition, validate}
use aurora_bot.Operations.Dispatch.State.{
  RequestFact, ResultFact, Services, Stage, Journal, Reply, Reading, Next, append_fact,
  same_request_fact, same_result_fact, queued, checking, comparing, looking, decoding, recording,
  starting, handling, reporting, replied, raised, goes, returns, raises,
}

module _ {J I P : Type 0} ⦃j : Eq J⦄ ⦃p : Eq P⦄ (sv : Services J I P) (registry : Registry J) where
  open sv use {
    schemas, identity, encode_request, decode_request, encode_result, decode_result, failure_text,
    refusal_text, no_content,
  }

  -- OperationRequest.identity
  abbrev pub identity_of : OperationRequest J → String
  identity_of r = identity r.bot_id r.source r.request_id

  abbrev pub plain_result : OperationStatus → String → OperationResult J I
  plain_result status text = record {
    content = no_content;
    status = status;
    message = some text;
    evidence_refs = [];
    body_ref = none;
  }

  abbrev pub resolved_ref : Result Refusal (OperationDefinition J) → Option ResourceRef
  resolved_ref (ok d) = some d.ref
  resolved_ref (err e) = none

  abbrev pub after_request : Result Refusal (OperationDefinition J) → Stage J I P
  after_request (ok d) = starting d
  after_request (err e) = reporting (plain_result failed (refusal_text e))

  -- the commit of a request
  abbrev pub request_fact :
      OperationRequest J → Result Refusal (OperationDefinition J) → RequestFact P
  request_fact r checked = record {
    source = r.source;
    kind = kind_value r.kind;
    target = r.target.key;
    request = encode_request r;
    resolved = resolved_ref checked;
  }

  -- the commit of a result
  abbrev pub result_fact : OperationRequest J → OperationResult J I → ResultFact P
  result_fact r result = record {
    status = result.status;
    target = r.target.key;
    content = (encode_result r result).0;
  }

  -- _record_request
  unfoldable pub record_request :
      OperationRequest J → Result Refusal (OperationDefinition J) → Journal J P → Next J I P
  record_request r checked s =
      elim (append_fact same_request_fact s.requested (identity_of r) (request_fact r checked)) [
        | none ↦ raises s
        | some facts ↦ goes (after_request checked) (record s { requested = facts })
      ]

  -- _record_result
  unfoldable pub record_result : OperationRequest J → OperationResult J I → Journal J P → Next J I P
  record_result r result s =
      elim (append_fact same_result_fact s.results (identity_of r) (result_fact r result)) [
        | none ↦ raises s
        | some facts ↦
            returns (record result { body_ref = (encode_result r result).1 })
              (record s { results = facts })
      ]

  abbrev is_late : Option ℕ → ℕ → Bool
  is_late none now = false
  is_late (some deadline) now = leb deadline now

  -- _execute, up to the call of the handler
  unfoldable pub begin :
      Reading J I → OperationRequest J → OperationDefinition J → Journal J P → Next J I P
  begin reading r d s =
      if is_late r.deadline_at reading.now
      then goes (reporting (plain_result failed "操作期限已经到达，未开始执行")) s
      else goes (handling d) (record s { begun = (identity_of r, d) ∷ s.begun })

  -- a command that is not safe to retry
  abbrev pub is_single : OperationDefinition J → Bool
  is_single d = is_kind command d && not d.retry_safe

  abbrev pub resume_definition :
      Reading J I
      → OperationRequest J
      → Result Refusal (OperationDefinition J)
      → Journal J P
      → Next J I P
  resume_definition reading r (err e) s = raises s
  resume_definition reading r (ok d) s =
      if is_single d
      then goes (reporting (plain_result unknown "命令已经开始但结果未确认，请先核对实际状态")) s
      else begin reading r d s

  abbrev pub resume_target :
      Reading J I → OperationRequest J → Option ResourceRef → Journal J P → Next J I P
  resume_target reading r none s = goes (reporting (plain_result failed "操作在校验阶段中断，请使用新请求重试")) s
  resume_target reading r (some ref) s = resume_definition reading r (definition registry ref) s

  -- _resume, after the receipt was looked for
  unfoldable pub resume :
      Reading J I → OperationRequest J → RequestFact P → Journal J P → Next J I P
  unfolding begin
  resume reading r previous s = elim (Dict.get s.results (identity_of r)) [
    | some receipt ↦ goes (decoding receipt.content) s
    | none ↦ resume_target reading r previous.resolved s
  ]

  abbrev result_of : OperationDefinition J → Reply J I → OperationResult J I
  result_of d (replied result) = result
  result_of d (raised text) =
      plain_result (if is_kind command d then unknown else failed) (failure_text text)

  abbrev found_request : Option (RequestFact P) → OperationRequest J → Stage J I P
  found_request (some previous) r = comparing previous
  found_request none r = recording (validate schemas registry r)

  abbrev pub compared :
      OperationRequest J → RequestFact P → Option (RequestData J) → Journal J P → Next J I P
  compared r previous none s = raises s
  compared r previous (some original) s =
      if same_data original (request_data r) then goes (looking previous) s else raises s

  abbrev pub decoded : Option (OperationResult J I) → Journal J P → Next J I P
  decoded none s = raises s
  decoded (some result) s = returns result s

  -- One call goes on from its stage to its next await.
  unfoldable pub advance : Reading J I → OperationRequest J → Stage J I P → Journal J P → Next J I P
  unfolding record_request record_result begin resume
  advance reading r queued s = goes queued s
  advance reading r checking s = goes (found_request (Dict.get s.requested (identity_of r)) r) s
  advance reading r (comparing previous) s = compared r previous (decode_request previous.request) s
  advance reading r (looking previous) s = resume reading r previous s
  advance reading r (decoding content) s = decoded (decode_result content) s
  advance reading r (recording checked) s = record_request r checked s
  advance reading r (starting d) s = begin reading r d s
  advance reading r (handling d) s = goes (reporting (result_of d reading.reply)) s
  advance reading r (reporting result) s = record_result r result s
