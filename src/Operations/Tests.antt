-- ===== src/Operations/Tests.antt =====
-- Operations at concrete inputs: a registry with one command, called twice, interrupted and retried.
use aurora_bot.Prelude.{
  ℕ, ◌≤◌, ◌≡◌, ◌↔◌, refl, String, Bool, true, false, ◌&&◌, Option, none, some, List, [], ◌∷◌, map,
  Eq, ◌==◌, string_eq, nat_eq, nat_beq_iff, eq_iff, arith, All,
}
use aurora_bot.Prelude.Dict
use aurora_bot.Resources.Keys.{
  ResourceKey, ResourceRef, option_eq, option_test, option_test_iff, key_test, ref_test,
}
use aurora_bot.Resources.Catalog.{resolve}
use aurora_bot.Operations.Definitions.{
  OperationDefinition, OperationRequest, OperationResult, OperationStatus, succeeded, failed,
  unknown, command, query, RequestData, request_data,
}
use aurora_bot.Operations.Registry.{Registry, validate}
use aurora_bot.Operations.Dispatch.{
  System, Services, Event, arrive, proceed, lose, restart, replied, raised, Reading, run, idle,
  status_test,
}
use aurora_bot.Operations.Counting.{total}
use aurora_bot.Operations.Locking.{IsLocked, inside, run-mutual_exclusion}
use aurora_bot.Operations.Once.{times_begun, run-once}
use aurora_bot.Operations.Agreement.{IsAnswerSound, run-answers}

abbrev pub send_key : ResourceKey
send_key = record { namespace = "aurora"; domain = "mail"; kind = "command"; path = "send" }

abbrev pub send_ref : ResourceRef
send_ref = record { key = send_key; revision = some "1" }

abbrev send : OperationDefinition ℕ
send = record {
  ref = send_ref;
  description = "send a mail";
  parameters = 0;
  tool_name = none;
  retry_safe = false;
}

abbrev registry : Registry ℕ
registry = record {
  bot_id = "aurora:bot/default";
  resources = record {
    entries =
        (
          send_ref,
          record { ref = send_ref; description = "send a mail"; contract = none; metadata = 0 },
        )
        ∷ [];
    versions = [];
    bindings = [];
  };
  operations = (send_ref, send) ∷ [];
}

abbrev pub request : OperationRequest ℕ
request = record {
  request_id = "r1";
  bot_id = "aurora:bot/default";
  source = "test";
  target = send_ref;
  kind = command;
  arguments = 7;
  correlation_id = none;
  caused_by = none;
  deadline_at = none;
}

-- A payload is the result that it keeps, or what is kept of a request.
data Payload : Type 0 where
  kept : OperationStatus → ℕ → Option String → List String → Payload
  asked : String → ℕ → Payload

strings_test : List String → List String → Bool
strings_test [] [] = true
strings_test (x ∷ xs) (y ∷ ys) = x == y && strings_test xs ys
strings_test _ _ = false

strings_test_iff : (a b : List String) → (strings_test a b ≡ true) ↔ (a ≡ b)
unfolding strings_test
strings_test_iff [] [] = ground arith
strings_test_iff [] (y ∷ ys) = ground arith
strings_test_iff (x ∷ xs) [] = ground arith
strings_test_iff (x ∷ xs) (y ∷ ys) = ground (arith, eq_iff x y, strings_test_iff xs ys)

payload_test : Payload → Payload → Bool
unfolding strings_test
payload_test (kept s c m e) (kept s' c' m' e') =
    status_test s s' && c == c' && m == m' && strings_test e e'
payload_test (kept s c m e) (asked r a) = false
payload_test (asked r a) (kept s c m e) = false
payload_test (asked r a) (asked r' a') = r == r' && a == a'

payload_test_iff : (a b : Payload) → (payload_test a b ≡ true) ↔ (a ≡ b)
unfolding payload_test
payload_test_iff (kept s c m e) (kept s' c' m' e') =
    ground (arith, nat_beq_iff c c', option_test_iff m m', strings_test_iff e e')
payload_test_iff (kept s c m e) (asked r a) = ground arith
payload_test_iff (asked r a) (kept s c m e) = ground arith
payload_test_iff (asked r a) (asked r' a') = ground (arith, eq_iff r r', nat_beq_iff a a')

instance payload_eq : Eq Payload
payload_eq = record { test = payload_test; test_iff = payload_test_iff }

abbrev decode_kept : Payload → Option (OperationResult ℕ ℕ)
decode_kept (kept s c m e) =
    some (record { content = c; status = s; message = m; evidence_refs = e; body_ref = none })
decode_kept (asked r a) = none

abbrev decode_asked : Payload → Option (RequestData ℕ)
decode_asked p = some (request_data request)

abbrev services : Services ℕ ℕ Payload
services = record {
  schemas = record { describe = λ j t b. j; is_usable = λ j. true; violation = λ p a. none };
  identity = λ bot source id. id;
  encode_request = λ r. asked r.request_id r.arguments;
  decode_request = decode_asked;
  encode_result = λ r x. (kept x.status x.content x.message x.evidence_refs, none);
  decode_result = decode_kept;
  failure_text = λ t. t;
  refusal_text = λ e. "refused";
  no_content = 0;
}

abbrev sent : Reading ℕ ℕ
sent = record {
  now = 5;
  reply = replied (record {
    content = 9;
    status = succeeded;
    message = none;
    evidence_refs = [];
    body_ref = none;
  });
}

-- Two tasks ask for the same; the first is lost while the handler runs; the second goes on.
abbrev course : List (Event ℕ ℕ)
course =
    arrive 1 request
    ∷ arrive 2 request
    ∷ proceed 1 sent
    ∷ proceed 0 sent
    ∷ proceed 1 sent
    ∷ proceed 1 sent
    ∷ proceed 1 sent
    ∷ lose 1
    ∷ proceed 0 sent
    ∷ proceed 0 sent
    ∷ proceed 0 sent
    ∷ proceed 0 sent
    ∷ proceed 0 sent
    ∷ []

abbrev after : System ℕ ℕ Payload
after = run services registry course idle

-- The command was begun once, and the second caller is told that its outcome is unknown.
begun_once : times_begun services registry "r1" after ≡ 1
unfolding run validate resolve Dict.get Dict.get_or Dict.put Dict.pop key_test ref_test option_test
    payload_test aurora_bot.Operations.Dispatch.same_request_fact
    aurora_bot.Operations.Definitions.same_data aurora_bot.Operations.Definitions.request_data
begun_once = refl

-- The second caller is told that the outcome is unknown.
told_unknown : map (λ a. a.1.status) after.answered ≡ unknown ∷ []
unfolding run validate resolve Dict.get Dict.get_or Dict.put Dict.pop key_test ref_test option_test
    payload_test aurora_bot.Operations.Dispatch.same_request_fact
    aurora_bot.Operations.Definitions.same_data aurora_bot.Operations.Definitions.request_data
told_unknown = refl

-- No call is left, and no slot.
run-mutual_exclusion_example :
    IsLocked services registry "r1" after × (total (inside services registry "r1") after.calls ≤ 1)
run-mutual_exclusion_example = run-mutual_exclusion services registry "r1" course

run-once_example : times_begun services registry "r1" after ≤ 1
run-once_example = run-once services registry "r1" course

reads_back :
    (r : OperationRequest ℕ) (x : OperationResult ℕ ℕ)
    → services.decode_result (services.encode_result r x).0
      ≡ some (record x { body_ref = (services.encode_result r x).1 })
reads_back r x = refl

run-answers_example :
    All
      (IsAnswerSound services registry reads_back "r1" (Dict.get after.journal.results "r1"))
      after.answered
run-answers_example = run-answers services registry reads_back "r1" course
