-- ===== src/Agent/Keeps.antt =====
-- Which changes of a driven run in src/aurora_agent/run.py keep it going.
use aurora_bot.Prelude.{
  ℕ, String, Bool, true, false, ◌≡◌, refl, Option, none, some, List, [], ◌∷◌, arith, if◌then◌else◌,
  is_blank, string_eq, ◌||◌, Bool-cases, inl, inr,
}
use aurora_bot.Prelude.Dict
use aurora_bot.Prelude.Dict.{Dict}
use aurora_bot.Agent.Messages.{ToolCall, ChatMessage}
use aurora_bot.Agent.State.{terminal, CallStatus, ToolOutput, CallRecord, Usage, EventKind, Run}
use aurora_bot.Agent.Action.{
  emit, append_message, cancel, record_output, mark_each, mark_unknown, apply_messages, add_usage,
  propose, record_each, External, appends, cancels, interfere,
}
use aurora_bot.Agent.Steps.{Services, add_message, start_call}
use aurora_bot.Agent.Events.{is_finished, IsActive, emit-IsActive}

module _ {J : Type 0} (sv : Services J) (m t : ℕ) where
  -- A change of the run that keeps it going.
  pub record Keeps (f : Run J → Run J) : Type 0 where
    pub at : (s : Run J) → IsActive sv m t s → IsActive sv m t (f s)

  pub emit-Keeps :
      (kind : EventKind) (c : Option String) → is_finished kind ≡ false → Keeps (emit kind c)
  emit-Keeps kind c f = record { at = λ s a. emit-IsActive sv m t s a kind c f }

  pub record_output-Keeps : (c : ToolCall J) (o : ToolOutput) → Keeps (record_output c o)
  unfolding record_output
  record_output-Keeps c o = record {
    at = λ s a. emit-IsActive sv m t _ (ground arith) EventKind.tool_completed _ refl;
  }

  pub add_message-Keeps : (x : ChatMessage J) → Keeps (add_message x)
  unfolding add_message
  add_message-Keeps x = record { at = λ s a. ground arith }

  pub start_call-Keeps : (c : ToolCall J) → Keeps (start_call c)
  unfolding start_call
  start_call-Keeps c = record {
    at = λ s a. emit-IsActive sv m t _ (ground arith) EventKind.tool_started _ refl;
  }

  pub add_usage-Keeps : (u : Option Usage) → Keeps (add_usage u)
  unfolding add_usage
  add_usage-Keeps none = record { at = λ s a. a }
  add_usage-Keeps (some u) = record { at = λ s a. ground arith }

  pub apply_messages-Keeps : (q : List (ChatMessage J)) → Keeps (apply_messages q)
  unfolding apply_messages
  apply_messages-Keeps [] = record { at = λ s a. a }
  apply_messages-Keeps (x ∷ q) = record {
    at = λ s a. emit-IsActive sv m t _ (ground arith) EventKind.messages_applied _ refl;
  }

  propose-IsActive :
      (calls : List (ToolCall J)) (s : Run J)
      → IsActive sv m t s
      → IsActive sv m t (propose calls s)
  unfolding propose
  propose-IsActive [] s a = a
  propose-IsActive (c ∷ calls) s a =
      propose-IsActive calls _
        (emit-IsActive sv m t _ (ground arith) EventKind.tool_proposed _ refl)

  pub propose-Keeps : (calls : List (ToolCall J)) → Keeps (propose calls)
  propose-Keeps calls = record { at = propose-IsActive calls }

  record_each-IsActive :
      (calls : List (ToolCall J)) (o : ToolOutput) (s : Run J)
      → IsActive sv m t s
      → IsActive sv m t (record_each calls o s)
  unfolding record_each
  record_each-IsActive [] o s a = a
  record_each-IsActive (c ∷ calls) o s a =
      record_each-IsActive calls o _ ((record_output-Keeps c o).at s a)

  pub record_each-Keeps : (calls : List (ToolCall J)) (o : ToolOutput) → Keeps (record_each calls o)
  record_each-Keeps calls o = record { at = record_each-IsActive calls o }

  mark_each-IsActive :
      (calls : Dict String (CallRecord J)) (s : Run J)
      → IsActive sv m t s
      → IsActive sv m t (mark_each calls s)
  unfolding mark_each
  mark_each-IsActive [] s a = a
  mark_each-IsActive ((id, r) ∷ rest) s a = mark_each-IsActive rest _ (one r.status)
    where
      one :
          (status : CallStatus)
          → IsActive sv m t (elim status [
            | CallStatus.running ↦ emit EventKind.tool_unknown (some id) (record s {
              calls = Dict.put s.calls id (record r { status = CallStatus.unknown });
            })
            | _ ↦ s
          ])
      one CallStatus.running = emit-IsActive sv m t _ (ground arith) EventKind.tool_unknown _ refl
      one CallStatus.pending = a
      one CallStatus.succeeded = a
      one CallStatus.failed = a
      one CallStatus.unknown = a

  pub mark_unknown-Keeps : Keeps mark_unknown
  unfolding mark_unknown
  mark_unknown-Keeps = record { at = λ s a. mark_each-IsActive s.calls s a }

  append_message-IsActive :
      (content : String) (s : Run J)
      → IsActive sv m t s
      → IsActive sv m t (append_message content s)
  unfolding append_message
  append_message-IsActive content s a = elim (Bool-cases (terminal s.status || is_blank content)) [
    | inl b ↦ rw b a
    | inr b ↦ rw b (emit-IsActive sv m t _ (ground arith) EventKind.message_queued _ refl)
  ]

  chosen :
      (b : Bool) (x y : Run J) → b ≡ true → IsActive sv m t x → IsActive sv m t (if b then x else y)
  chosen true x y e a = a
  chosen false x y e a = absurd (cc)

  -- While the run is driven, a cancellation only leaves its mark.
  cancel-IsActive : (s : Run J) → IsActive sv m t s → IsActive sv m t (cancel s)
  unfolding cancel emit
  cancel-IsActive s a = elim (Bool-cases (terminal s.status || s.cancel_flag)) [
    | inl b ↦ rw b a
    | inr b ↦ rw b (
        chosen s.driving _ _ a.driven (
          emit-IsActive sv m t (record s { cancel_flag = true }) (ground arith)
            EventKind.cancel_requested none refl))
  ]

  pub interfere-IsActive :
      (es : List External) (s : Run J) → IsActive sv m t s → IsActive sv m t (interfere es s)
  unfolding interfere
  interfere-IsActive [] s a = a
  interfere-IsActive (appends content ∷ es) s a =
      interfere-IsActive es _ (append_message-IsActive content s a)
  interfere-IsActive (cancels ∷ es) s a = interfere-IsActive es _ (cancel-IsActive s a)
