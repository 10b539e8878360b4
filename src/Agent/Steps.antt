-- ===== src/Agent/Steps.antt =====
-- The methods of `Run` (src/aurora_agent/run.py) that await a service: a model step, a tool step.
use aurora_bot.Prelude.{
  ℕ, ◌+◌, String, Bool, true, false, not, ◌&&◌, ◌||◌, Option, none, some, List, [], ◌∷◌, ◌++◌,
  string_eq, contains, is_empty, leb, ltb, is_blank, if◌then◌else◌, Result, ok, err,
}
use aurora_bot.Prelude.Dict
use aurora_bot.Agent.Messages.{
  ToolCall, ChatMessage, Role, system, message, assistant, tool, validate_history, same_length,
  HistoryError,
}
use aurora_bot.Agent.State.{RunStatus, CallStatus, ToolOutput, Usage, EventKind, Run}
use aurora_bot.Agent.Action.{
  context_budget, model_error, tool_execution, tool_effect_unknown, task_cancelled, unexpected,
  emit, finish, record_output, mark_unknown, pending_calls, apply_messages, add_usage, propose,
  record_each, Flow, done, thrown, Awaited, Action, give, throw, await_on, modify, look, ◌>>=◌,
  ◌>>◌,
}

pub record ModelResponse (J : Type 0) : Type 0 where
  pub message : ChatMessage J
  pub usage : Option Usage

pub data ToolAction : Type 0 where
  allow deny reconsider : ToolAction

pub record ToolDecision : Type 0 where
  pub action : ToolAction
  pub content : String

-- What a run is built over. The services are the host's: the assembler, the model, the policy, the
-- tools, the schema validator, and the size of a request as JSON text.
pub record Services (J : Type 0) : Type 0 where
  pub max_model_calls : ℕ
  pub max_tool_calls : ℕ
  pub max_context_chars : ℕ
  pub model : String
  pub tools : List String
  pub assemble : Run J → List (ChatMessage J) → Awaited (List (ChatMessage J))
  pub request_chars : List (ChatMessage J) → ℕ
  pub complete : Run J → List (ChatMessage J) → Awaited (ModelResponse J)
  pub arguments_valid : ToolCall J → Bool
  pub policy : Option (Run J → ToolCall J → Awaited ToolDecision)
  pub execute : Run J → ToolCall J → Awaited ToolOutput

abbrev pub is_system : Role → Bool
is_system system = true
is_system message = false
is_system assistant = false
is_system tool = false

abbrev pub holds : {A : Type 0} → Result HistoryError A → Bool
holds (ok a) = true
holds (err e) = false

module _ {J : Type 0} where
  unfoldable pub count_model_call : Run J → Run J
  count_model_call s = record s {
    stats = record (s.stats) { model_calls = s.stats.model_calls + 1 };
  }

  unfoldable pub count_tool_call : Run J → Run J
  count_tool_call s = record s { stats = record (s.stats) { tool_calls = s.stats.tool_calls + 1 } }

  unfoldable pub add_message : ChatMessage J → Run J → Run J
  add_message m s = record s { messages = s.messages ++ m ∷ [] }

  unfoldable pub start_call : ToolCall J → Run J → Run J
  start_call c s = emit EventKind.tool_started (some c.call_id) (record s {
    calls =
        Dict.put s.calls c.call_id
          (record { call = c; status = CallStatus.running; output = none });
  })

  -- validate_history(updated, allow_pending=True)
  unfoldable pub check_history : ChatMessage J → Action J (Unit {0})
  check_history m = do
    s ← look
    if holds (validate_history true (s.messages ++ m ∷ []))
        then give tt
        else throw (unexpected "ValueError")

  -- the end of _model_step
  unfoldable pub conclude : ChatMessage J → Action J (Unit {0})
  conclude m = do
    s ← look
    if is_empty m.tool_calls && is_empty s.queued && not s.cancel_flag
        then modify (finish RunStatus.completed (some m.content) none)
        else give tt

  -- _model_step from the answer of the model on
  unfoldable pub take_response : ModelResponse J → Action J (Unit {0})
  unfolding check_history conclude add_message
  take_response response = do
    check_history response.message
    modify (add_message response.message)
    modify (add_usage response.usage)
    modify (emit EventKind.model_completed none)
    modify (propose response.message.tool_calls)
    conclude response.message

  -- the decision of the policy, once it is known
  unfoldable pub obey : ToolCall J → ToolDecision → ToolAction → Run J → Action J Bool
  obey c d allow s = give true
  obey c d deny s = do
    modify (record_each (c ∷ []) (record { content = d.content; is_error = true }))
    give false
  obey c d reconsider s = do
    modify (record_each (pending_calls s.calls) (record { content = d.content; is_error = true }))
    give false

  -- _allow_tool under a policy
  unfoldable pub consult : (Run J → ToolCall J → Awaited ToolDecision) → ToolCall J → Action J Bool
  unfolding obey
  consult policy c = do
    d ← await_on (λ s. policy s c)
    s ← look
    if s.cancel_flag then give false else obey c d d.action s

  -- _allow_tool
  unfoldable pub allow_tool :
      Option (Run J → ToolCall J → Awaited ToolDecision) → ToolCall J → Action J Bool
  unfolding consult
  allow_tool none c = give true
  allow_tool (some policy) c = consult policy c

  -- the handlers of tool.execute
  unfoldable pub settle : ToolCall J → Flow ToolOutput → Action J (Unit {0})
  settle c (done output) = modify (record_output c output)
  settle c (thrown tool_execution) =
      modify (record_output c (record { content = "工具确认执行失败"; is_error = true }))
  settle c (thrown tool_effect_unknown) = do
    modify mark_unknown
    modify (finish RunStatus.failed none (some "工具效果未知，需要宿主核对"))
  settle c (thrown context_budget) = throw context_budget
  settle c (thrown model_error) = throw model_error
  settle c (thrown task_cancelled) = throw task_cancelled
  settle c (thrown (unexpected name)) = throw (unexpected name)

  -- try: what is raised is given to the handlers
  unfoldable pub caught : {A : Type 0} → Action J A → Action J (Flow A)
  caught m s = (done (m s).0, (m s).1)

module _ {J : Type 0} (sv : Services J) where
  -- ModelRequest.__post_init__
  unfoldable pub request_valid : List (ChatMessage J) → Bool
  request_valid [] = false
  request_valid (first ∷ rest) =
      not (is_blank sv.model)
      && is_system first.role
      && holds (validate_history false rest)
      && same_length sv.tools

  -- the request and its budget
  unfoldable pub check_request : List (ChatMessage J) → Action J (Unit {0})
  unfolding request_valid
  check_request messages =
      if not (request_valid messages)
      then throw (unexpected "ValueError")
      else if ltb sv.max_context_chars (sv.request_chars messages)
      then throw context_budget
      else give tt

  -- _model_step from the request on
  unfoldable pub ask_model : List (ChatMessage J) → List (ChatMessage J) → Action J (Unit {0})
  unfolding check_request count_model_call take_response
  ask_model queued messages = do
    check_request messages
    modify (apply_messages queued)
    modify count_model_call
    modify (emit EventKind.model_started none)
    response ← await_on (λ s. sv.complete s messages)
    take_response response

  unfoldable pub assemble_and_ask : List (ChatMessage J) → Action J (Unit {0})
  unfolding ask_model
  assemble_and_ask queued = do
    messages ← await_on (λ s. sv.assemble s (s.messages ++ queued))
    s ← look
    if s.cancel_flag then give tt else ask_model queued messages

  -- _model_step
  unfoldable pub model_step : Action J (Unit {0})
  unfolding assemble_and_ask
  model_step = do
    s ← look
    if leb sv.max_model_calls s.stats.model_calls
        then modify (finish RunStatus.limit_reached none (some "达到模型调用次数上限"))
        else assemble_and_ask s.queued

  -- _tool_step from the start of the tool on
  unfoldable pub run_tool : ToolCall J → Action J (Unit {0})
  unfolding count_tool_call start_call settle caught
  run_tool c = do
    modify count_tool_call
    modify (start_call c)
    outcome ← caught (await_on (λ s. sv.execute s c))
    settle c outcome

  unfoldable pub run_if_allowed : ToolCall J → Action J (Unit {0})
  unfolding allow_tool run_tool
  run_if_allowed c = do
    allowed ← allow_tool sv.policy c
    s ← look
    if not allowed || s.cancel_flag then give tt else run_tool c

  -- _tool_step
  unfoldable pub tool_step : ToolCall J → Action J (Unit {0})
  unfolding run_if_allowed
  tool_step c = do
    s ← look
    if leb sv.max_tool_calls s.stats.tool_calls
        then modify (finish RunStatus.limit_reached none (some "达到工具调用次数上限"))
        else if not (contains sv.tools c.name)
        then modify (record_output c (record { content = "此工具不在可用目录中"; is_error = true }))
        else if not (sv.arguments_valid c)
        then modify
            (record_output c (record { content = "工具参数不符合声明的 JSON Schema"; is_error = true }))
        else run_if_allowed c

  unfoldable pub turn : List (ToolCall J) → Action J (Unit {0})
  unfolding model_step tool_step
  turn [] = model_step
  turn (c ∷ rest) = tool_step c
