-- ===== src/Agent/Soundness.antt =====
-- The steps of a run (src/aurora_agent/run.py) keep it sound, whatever the services answer and
-- whatever other tasks do to the run in the meantime.
use aurora_bot.Prelude.{ℕ, refl, none, List, arith, string_eq}
use aurora_bot.Agent.Messages.{ChatMessage}
use aurora_bot.Agent.State.{RunStatus, EventKind, Run}
use aurora_bot.Agent.Action.{
  context_budget, unexpected, emit, apply_messages, add_usage, propose, Action, modify, look, ◌>>=◌,
}
use aurora_bot.Agent.Steps.{
  Services, ModelResponse, check_request, check_history, conclude, take_response, count_model_call,
  ask_model, assemble_and_ask, add_message,
}
use aurora_bot.Agent.Keeps.{
  Keeps, add_message-Keeps, add_usage-Keeps, apply_messages-Keeps, propose-Keeps, emit-Keeps,
}
use aurora_bot.Agent.Rules.{
  Stays, Ends, Stays-Ends, Stays-give, Stays-throw, Stays-look, Stays-modify, Stays-await_on,
  Stays-if, Ends-if, Stays-bind, Ends-bind, Ends-finish, Ends-modify,
}

module _ {J : Type 0} (sv : Services J) where
  module _ (t : ℕ) where
    check_request-Stays :
        (messages : List (ChatMessage J)) (m : ℕ) → Stays sv m t (check_request sv messages)
    unfolding check_request
    check_request-Stays messages m =
        Stays-if sv m t _ _ _ (Stays-throw sv m t (unexpected "ValueError"))
          (Stays-if sv m t _ _ _ (Stays-throw sv m t context_budget) (Stays-give sv m t tt))

    check_history-Stays : (x : ChatMessage J) → Stays sv 0 t (check_history x)
    unfolding check_history
    check_history-Stays x = Stays-bind sv 0 t look _ (Stays-look sv 0 t) (λ s.
        Stays-if sv 0 t _ _ _ (Stays-give sv 0 t tt) (Stays-throw sv 0 t (unexpected "ValueError")))

    conclude-Ends : (x : ChatMessage J) → Ends sv 0 t (conclude x)
    unfolding conclude
    conclude-Ends x = Ends-bind sv 0 t look _ (Stays-look sv 0 t) (λ s.
        Ends-if sv 0 t _ _ _ (Ends-finish sv 0 t RunStatus.completed _ none refl)
          (Stays-Ends sv 0 t _ (Stays-give sv 0 t tt)))

    pub kept :
        (f : Run J → Run J) (m : ℕ) {A : Type 0} (rest : Action J A)
        → Keeps sv m t f
        → Ends sv m t rest
        → Ends sv m t (modify f >>= λ _. rest)
    kept f m rest k e = Ends-bind sv m t (modify f) _ (Stays-modify sv m t f k) (λ _. e)

    take_response-Ends : (response : ModelResponse J) → Ends sv 0 t (take_response response)
    unfolding take_response
    take_response-Ends r =
        Ends-bind sv 0 t (check_history r.message) _ (check_history-Stays r.message) λ _.
          kept (add_message r.message) 0 _ (add_message-Keeps sv 0 t r.message) (
            kept (add_usage r.usage) 0 _ (add_usage-Keeps sv 0 t r.usage) (
              kept (emit EventKind.model_completed none) 0 _
                (emit-Keeps sv 0 t EventKind.model_completed none refl)
                (kept (propose r.message.tool_calls) 0 _ (propose-Keeps sv 0 t r.message.tool_calls)
                  (conclude-Ends r.message))))

    ask_model-Ends :
        (queued messages : List (ChatMessage J)) → Ends sv 1 t (ask_model sv queued messages)
    unfolding ask_model
    ask_model-Ends queued messages =
        Ends-bind sv 1 t (check_request sv messages) _ (check_request-Stays messages 1) λ _.
          kept (apply_messages queued) 1 _ (apply_messages-Keeps sv 1 t queued) (
            Ends-modify sv 1 t 0 t count_model_call _
              (λ s a. unfold count_model_call in ground arith)
              (kept (emit EventKind.model_started none) 0 _
                (emit-Keeps sv 0 t EventKind.model_started none refl)
                (Ends-bind sv 0 t _ _ (Stays-await_on sv 0 t _) take_response-Ends)))

    pub assemble_and_ask-Ends :
        (queued : List (ChatMessage J)) → Ends sv 1 t (assemble_and_ask sv queued)
    unfolding assemble_and_ask
    assemble_and_ask-Ends queued = Ends-bind sv 1 t _ _ (Stays-await_on sv 1 t _) λ messages.
        Ends-bind sv 1 t look _ (Stays-look sv 1 t) (λ s.
          Ends-if sv 1 t _ _ _ (Stays-Ends sv 1 t _ (Stays-give sv 1 t tt))
            (ask_model-Ends queued messages))
