-- ===== src/Agent/Action.antt =====
-- The state changes of src/aurora_agent/run.py that no `await` interrupts, and actions: methods
-- that change the run and may raise.
use aurora_bot.Prelude.{
  false, ◌+◌, String, true, ◌||◌, Option, none, some, List, [], ◌∷◌, ◌++◌, string_eq, is_empty,
  length, drop, if◌then◌else◌, is_blank,
}
use aurora_bot.Prelude.Dict
use aurora_bot.Prelude.Dict.{Dict}
use aurora_bot.Agent.Messages.{ToolCall, ChatMessage, tool_message, input_message}
use aurora_bot.Agent.State.{
  RunStatus, terminal, CallStatus, ToolOutput, CallRecord, Usage, EventKind, Run,
}

-- What a service or a check raises. Every other subclass of Exception is `unexpected`, with the
-- name of its type; what is no Exception, but for the cancellation of the task, is left out.
pub data Raised : Type 0 where
  context_budget model_error tool_execution tool_effect_unknown task_cancelled : Raised
  unexpected : String → Raised

-- self._stats.usage or Usage()
abbrev pub usage_or : Option Usage → Usage
usage_or none = record { input_tokens = 0; output_tokens = 0 }
usage_or (some u) = u

module _ {J : Type 0} where
  -- _emit
  unfoldable pub emit : EventKind → Option String → Run J → Run J
  emit kind call_id s = record s {
    events =
        s.events
        ++ record {
          sequence = length s.events + 1;
          run_id = s.run_id;
          kind = kind;
          status = s.status;
          call_id = call_id;
        }
          ∷ [];
  }

  -- _finish
  unfoldable pub finish : RunStatus → Option String → Option String → Run J → Run J
  finish status output reason s = emit EventKind.finished none (record s {
    status = status;
    result = some (record {
      run_id = s.run_id;
      status = status;
      output = output;
      reason = reason;
      stats = s.stats;
    });
  })

  -- Run.__init__; the instructions, tools and limits are with the services
  unfoldable pub new_run : String → List (ChatMessage J) → Run J
  unfolding emit
  new_run run_id messages = emit EventKind.created none (record {
    run_id = run_id;
    messages = messages;
    queued = [];
    calls = [];
    stats = record { model_calls = 0; tool_calls = 0; usage = none };
    status = RunStatus.ready;
    result = none;
    cancel_flag = false;
    driving = false;
    events = [];
  })

  -- append_message; a refusal goes to the caller and leaves the run as it is
  unfoldable pub append_message : String → Run J → Run J
  append_message content s =
      if terminal s.status || is_blank content
      then s
      else emit EventKind.message_queued none
          (record s { queued = s.queued ++ input_message content ∷ [] })

  -- cancel
  unfoldable pub cancel : Run J → Run J
  cancel s =
      if terminal s.status || s.cancel_flag
      then s
      else let s' = emit EventKind.cancel_requested none (record s { cancel_flag = true }) in
        if s'.driving then s' else finish RunStatus.cancelled none (some "宿主请求取消") s'

  -- _record_output
  unfoldable pub record_output : ToolCall J → ToolOutput → Run J → Run J
  record_output call output s = emit EventKind.tool_completed (some call.call_id) (record s {
    calls = Dict.put s.calls call.call_id (record {
      call = call;
      status = if output.is_error then CallStatus.failed else CallStatus.succeeded;
      output = some output;
    });
    messages = s.messages ++ tool_message call.call_id output.content output.is_error ∷ [];
  })

  -- the loop of _mark_unknown over a snapshot of the calls
  unfoldable pub mark_each : Dict String (CallRecord J) → Run J → Run J
  mark_each [] s = s
  mark_each ((id, r) ∷ rest) s = mark_each rest (elim r.status [
    | CallStatus.running ↦
        emit EventKind.tool_unknown (some id)
          (record s { calls = Dict.put s.calls id (record r { status = CallStatus.unknown }) })
    | _ ↦ s
  ])

  unfoldable pub mark_unknown : Run J → Run J
  unfolding mark_each
  mark_unknown s = mark_each s.calls s

  -- _pending
  unfoldable pub pending_calls : Dict String (CallRecord J) → List (ToolCall J)
  pending_calls [] = []
  pending_calls ((id, r) ∷ rest) =
      let others = pending_calls rest in
      elim r.status [ CallStatus.pending ↦ r.call ∷ others | _ ↦ others ]

  -- _apply_messages
  unfoldable pub apply_messages : List (ChatMessage J) → Run J → Run J
  apply_messages queued s =
      if is_empty queued
      then s
      else emit EventKind.messages_applied none
          (record s { messages = s.messages ++ queued; queued = drop (length queued) s.queued })

  -- _add_usage
  unfoldable pub add_usage : Option Usage → Run J → Run J
  add_usage none s = s
  add_usage (some u) s =
      let current = usage_or s.stats.usage in
      record s {
        stats = record (s.stats) {
          usage = some (record {
            input_tokens = current.input_tokens + u.input_tokens;
            output_tokens = current.output_tokens + u.output_tokens;
          });
        };
      }

  -- the loop of _model_step over the proposed calls
  unfoldable pub propose : List (ToolCall J) → Run J → Run J
  propose [] s = s
  propose (c ∷ calls) s = propose calls (
      emit EventKind.tool_proposed (some c.call_id) (record s {
        calls =
            Dict.put s.calls c.call_id
              (record { call = c; status = CallStatus.pending; output = none });
      }))

  -- record_output for each target of a decision
  unfoldable pub record_each : List (ToolCall J) → ToolOutput → Run J → Run J
  record_each [] output s = s
  record_each (c ∷ calls) output s = record_each calls output (record_output c output s)

-- What other tasks do to the run while it waits.
pub data External : Type 0 where
  appends : String → External
  cancels : External

pub data Flow (A : Type 0) : Type 0 where
  done : A → Flow A
  thrown : Raised → Flow A

-- An awaited service: what happens in the meantime, and how it ends.
pub record Awaited (A : Type 0) : Type 0 where
  pub during : List External
  pub outcome : Flow A

abbrev pub Action : Type 0 → Type 0 → Type 0
Action J A = Run J → Flow A × Run J

module _ {J : Type 0} where
  unfoldable pub interfere : List External → Run J → Run J
  interfere [] s = s
  interfere (appends content ∷ rest) s = interfere rest (append_message content s)
  interfere (cancels ∷ rest) s = interfere rest (cancel s)

  module _ {A : Type 0} where
    unfoldable pub give : A → Action J A
    give a s = (done a, s)

    unfoldable pub throw : Raised → Action J A
    throw e s = (thrown e, s)

    -- The run as the service finds it decides what the service does.
    unfoldable pub await_on : (Run J → Awaited A) → Action J A
    unfolding interfere
    await_on service s = ((service s).outcome, interfere (service s).during s)

  unfoldable pub modify : (Run J → Run J) → Action J (Unit {0})
  modify f s = (done tt, f s)

  unfoldable pub look : Action J (Run J)
  look s = (done s, s)

  module _ {A B : Type 0} where
    abbrev pub after : Flow A → (A → Action J B) → Action J B
    after (done a) f s = f a s
    after (thrown e) f s = (thrown e, s)

    infixl 5 ◌>>=◌
    unfoldable pub ◌>>=◌ : Action J A → (A → Action J B) → Action J B
    ◌>>=◌ m f s = after (m s).0 f (m s).1

  infixl 5 ◌>>◌
  abbrev pub ◌>>◌ : {A B : Type 0} → Action J A → Action J B → Action J B
  m >> k = m >>= λ _. k
