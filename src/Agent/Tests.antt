-- ===== src/Agent/Tests.antt =====
-- A run of the agent at concrete services, and the theorems at inputs that meet their conditions.
use aurora_bot.Prelude.{
  is_blank, ℕ, true, false, ◌≡◌, refl, none, some, List, [], ◌∷◌, length, string_eq,
}
use aurora_bot.Agent.Messages.{
  ToolCall, ChatMessage, Role, system_message, input_message, validate_history,
}
use aurora_bot.Prelude.Dict.{put}
use aurora_bot.Agent.State.{RunStatus, Run}
use aurora_bot.Agent.Action.{
  interfere, cancels, new_run, appends, done, ◌>>=◌, look, pending_calls, await_on, give, modify,
  emit, apply_messages, propose, add_usage, record_output, append_message, finish,
}
use aurora_bot.Agent.Steps.{Services, allow}
use aurora_bot.Agent.Drive.{drive, returned}
use aurora_bot.Agent.Events.{IsSound, new_run-IsSound}
use aurora_bot.Agent.Driving.{drive-IsSound}
use aurora_bot.Agent.Between.{interfere-IsSound}
use aurora_bot.Agent.Ended.{IsOver, drive-IsOver, drive-ended}

abbrev lookup_call : ToolCall ℕ
lookup_call = record { call_id = "a"; name = "lookup"; arguments = 3 }

abbrev answer_with : List (ToolCall ℕ) → ChatMessage ℕ
answer_with calls = record {
  role = Role.assistant;
  content = "answer";
  tool_calls = calls;
  tool_call_id = none;
  is_error = false;
}

-- A model that calls a tool once and then answers, and a message that comes while the tool runs.
abbrev services : Services ℕ
services = record {
  max_model_calls = 4;
  max_tool_calls = 2;
  max_context_chars = 1000;
  model = "m";
  tools = "lookup" ∷ [];
  assemble =
      λ s messages. record { during = []; outcome = done (system_message "be brief" ∷ messages) };
  request_chars = length;
  complete = λ s messages. record {
    during = [];
    outcome = done (record {
      message = answer_with (elim s.calls [ [] ↦ lookup_call ∷ [] | _ ↦ [] ]);
      usage = none;
    });
  };
  arguments_valid = λ c. true;
  policy =
      some
        (λ s c. record { during = []; outcome = done (record { action = allow; content = "" }) });
  execute = λ s c. record {
    during = appends "and then?" ∷ [];
    outcome = done (record { content = "found"; is_error = false });
  };
}

abbrev fresh_run : Run ℕ
fresh_run = new_run "r1" (input_message "hello" ∷ [])

run_completes :
    ((drive services true 5 fresh_run).0 ≡ returned)
    × ((drive services true 5 fresh_run).1.status ≡ RunStatus.completed)
unfolding new_run drive ◌>>=◌ look pending_calls await_on is_blank validate_history give modify emit
    apply_messages propose add_usage put record_output append_message finish
run_completes = (refl, refl)

drive-IsSound_example : IsSound services (drive services true 5 fresh_run).1
drive-IsSound_example =
    drive-IsSound services true 5 fresh_run
      (new_run-IsSound services "r1" (input_message "hello" ∷ []))

drive-IsOver_example : IsOver (drive services true 5 fresh_run)
drive-IsOver_example = drive-IsOver services 5 fresh_run (unfold new_run in refl)

abbrev ended_run : Run ℕ
ended_run = record fresh_run { status = RunStatus.completed }

drive-ended_example :
    drive services true 5 (interfere (appends "late" ∷ cancels ∷ []) ended_run)
    ≡ (returned, ended_run)
drive-ended_example =
    drive-ended services true 5 (appends "late" ∷ cancels ∷ []) ended_run refl
      (unfold new_run in refl)

interfere-IsSound_example :
    IsSound services (interfere (appends "wait" ∷ cancels ∷ cancels ∷ []) fresh_run)
interfere-IsSound_example =
    interfere-IsSound services (appends "wait" ∷ cancels ∷ cancels ∷ []) fresh_run
      (new_run-IsSound services "r1" (input_message "hello" ∷ []))
