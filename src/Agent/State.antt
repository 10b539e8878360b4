-- ===== src/Agent/State.antt =====
-- src/aurora_agent/state.py, and the values of src/aurora_agent/contracts.py that a run holds.
use aurora_bot.Prelude.{ℕ, String, Bool, true, false, Option, List}
use aurora_bot.Prelude.Dict.{Dict}
use aurora_bot.Agent.Messages.{ChatMessage, ToolCall}

pub data RunStatus : Type 0 where
  ready running completed failed cancelled limit_reached : RunStatus

abbrev pub terminal : RunStatus → Bool
terminal ready = false
terminal running = false
terminal completed = true
terminal failed = true
terminal cancelled = true
terminal limit_reached = true

pub data CallStatus : Type 0 where
  pending running succeeded failed unknown : CallStatus

pub record ToolOutput : Type 0 where
  pub content : String
  pub is_error : Bool

pub record CallRecord (J : Type 0) : Type 0 where
  pub call : ToolCall J
  pub status : CallStatus
  pub output : Option ToolOutput

pub record Usage : Type 0 where
  pub input_tokens : ℕ
  pub output_tokens : ℕ

pub record RunStats : Type 0 where
  pub model_calls : ℕ
  pub tool_calls : ℕ
  pub usage : Option Usage

pub record RunResult : Type 0 where
  pub run_id : String
  pub status : RunStatus
  pub output : Option String
  pub reason : Option String
  pub stats : RunStats

pub data EventKind : Type 0 where
  created message_queued messages_applied model_started model_completed : EventKind
  tool_proposed tool_started tool_completed tool_unknown cancel_requested finished : EventKind

pub record RunEvent : Type 0 where
  pub sequence : ℕ
  pub run_id : String
  pub kind : EventKind
  pub status : RunStatus
  pub call_id : Option String

-- The fields of `Run` that change; the events are the oldest first.
pub record Run (J : Type 0) : Type 0 where
  pub run_id : String
  pub messages : List (ChatMessage J)
  pub queued : List (ChatMessage J)
  pub calls : Dict String (CallRecord J)
  pub stats : RunStats
  pub status : RunStatus
  pub result : Option RunResult
  pub cancel_flag : Bool
  pub driving : Bool
  pub events : List RunEvent
