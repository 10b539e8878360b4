-- ===== src/Agent/Tools.antt =====
-- The model step and the tool step of src/aurora_agent/run.py keep a run sound.
use aurora_bot.Prelude.{
  ℕ, Bool, true, false, ◌≡◌, refl, Option, none, some, List, [], ◌∷◌, arith, if◌then◌else◌, not,
  leb, contains, string_eq,
}
use aurora_bot.Agent.Messages.{ToolCall}
use aurora_bot.Agent.State.{RunStatus, ToolOutput, Run}
use aurora_bot.Agent.Action.{
  context_budget, model_error, tool_execution, tool_effect_unknown, task_cancelled, unexpected,
  mark_unknown, record_output, pending_calls, record_each, Flow, done, thrown, Awaited, Action,
  await_on, modify, look, ◌>>=◌,
}
use aurora_bot.Agent.Steps.{
  Services, ToolDecision, ToolAction, allow, deny, reconsider, count_tool_call, model_step, obey,
  consult, allow_tool, settle, run_tool, run_if_allowed, tool_step, turn, start_call,
}
use aurora_bot.Agent.Keeps.{
  record_output-Keeps, start_call-Keeps, record_each-Keeps, mark_unknown-Keeps,
}
use aurora_bot.Agent.Rules.{
  IsLeft, Stays, Ends, Stays-Ends, Stays-give, Stays-throw, Stays-look, Stays-modify,
  Stays-await_on, Stays-caught, Stays-if, Ends-if, Stays-bind, Ends-bind, Ends-finish, Ends-modify,
}
use aurora_bot.Agent.Soundness.{assemble_and_ask-Ends}

module _ {J : Type 0} (sv : Services J) where
  -- A look at a limit, and what follows where there is room.
  ends_by :
      (b : Bool) {A : Type 0} (x y : Action J A) (m t : ℕ) (s : Run J)
      → (b ≡ true → IsLeft sv (x s).0 (x s).1)
      → (b ≡ false → IsLeft sv (y s).0 (y s).1)
      → IsLeft sv ((if b then x else y) s).0 ((if b then x else y) s).1
  ends_by true x y m t s f g = f refl
  ends_by false x y m t s f g = g refl

  model_step-Ends : (t : ℕ) → Ends sv 0 t (model_step sv)
  unfolding model_step look ◌>>=◌
  model_step-Ends t = record {
    at = λ s a.
        ends_by (leb sv.max_model_calls s.stats.model_calls) _ _ 0 t s
          (λ b. (Ends-finish sv 0 t RunStatus.limit_reached none (some "达到模型调用次数上限") refl).at s a)
          (λ b. (assemble_and_ask-Ends sv t s.queued).at s (ground arith));
  }

  module _ (m t : ℕ) where
    obey-Stays :
        (c : ToolCall J) (d : ToolDecision) (x : ToolAction) (s : Run J)
        → Stays sv m t (obey c d x s)
    unfolding obey
    obey-Stays c d allow s = Stays-give sv m t true
    obey-Stays c d deny s =
        Stays-bind sv m t (modify (record_each (c ∷ []) _)) _
          (Stays-modify sv m t _ (record_each-Keeps sv m t (c ∷ []) _))
          (λ _. Stays-give sv m t false)
    obey-Stays c d reconsider s =
        Stays-bind sv m t (modify (record_each (pending_calls s.calls) _)) _
          (Stays-modify sv m t _ (record_each-Keeps sv m t _ _)) (λ _. Stays-give sv m t false)

    allow_tool-Stays :
        (p : Option (Run J → ToolCall J → Awaited ToolDecision)) (c : ToolCall J)
        → Stays sv m t (allow_tool p c)
    unfolding allow_tool consult
    allow_tool-Stays none c = Stays-give sv m t true
    allow_tool-Stays (some p) c =
        Stays-bind sv m t (await_on (λ s. p s c)) _ (Stays-await_on sv m t _) λ d.
          Stays-bind sv m t look _ (Stays-look sv m t)
            λ s. Stays-if sv m t _ _ _ (Stays-give sv m t false) (obey-Stays c d d.action s)

    settle-Ends : (c : ToolCall J) (r : Flow ToolOutput) → Ends sv m t (settle c r)
    unfolding settle
    settle-Ends c (done o) =
        Stays-Ends sv m t _ (Stays-modify sv m t _ (record_output-Keeps sv m t c o))
    settle-Ends c (thrown tool_execution) =
        Stays-Ends sv m t _ (Stays-modify sv m t _ (record_output-Keeps sv m t c _))
    settle-Ends c (thrown tool_effect_unknown) =
        Ends-bind sv m t (modify mark_unknown) _ (Stays-modify sv m t _ (mark_unknown-Keeps sv m t))
          (λ _. Ends-finish sv m t RunStatus.failed none _ refl)
    settle-Ends c (thrown context_budget) = Stays-Ends sv m t _ (Stays-throw sv m t context_budget)
    settle-Ends c (thrown model_error) = Stays-Ends sv m t _ (Stays-throw sv m t model_error)
    settle-Ends c (thrown task_cancelled) = Stays-Ends sv m t _ (Stays-throw sv m t task_cancelled)
    settle-Ends c (thrown (unexpected name)) =
        Stays-Ends sv m t _ (Stays-throw sv m t (unexpected name))

  run_tool-Ends : (c : ToolCall J) → Ends sv 0 1 (run_tool sv c)
  unfolding run_tool
  run_tool-Ends c =
      Ends-modify sv 0 1 0 0 count_tool_call _ (λ s a. unfold count_tool_call in ground arith)
        (Ends-bind sv 0 0 (modify (start_call c)) _
          (Stays-modify sv 0 0 _ (start_call-Keeps sv 0 0 c))
          λ _.
            Ends-bind sv 0 0 _ _ (Stays-caught sv 0 0 _ (Stays-await_on sv 0 0 _))
              (settle-Ends 0 0 c))

  run_if_allowed-Ends : (c : ToolCall J) → Ends sv 0 1 (run_if_allowed sv c)
  unfolding run_if_allowed
  run_if_allowed-Ends c = Ends-bind sv 0 1 _ _ (allow_tool-Stays 0 1 sv.policy c) λ allowed.
      Ends-bind sv 0 1 look _ (Stays-look sv 0 1)
        λ s. Ends-if sv 0 1 _ _ _ (Stays-Ends sv 0 1 _ (Stays-give sv 0 1 tt)) (run_tool-Ends c)

  tool_step-Ends : (c : ToolCall J) → Ends sv 0 0 (tool_step sv c)
  unfolding tool_step look ◌>>=◌
  tool_step-Ends c = record {
    at = λ s a.
        ends_by (leb sv.max_tool_calls s.stats.tool_calls) _ _ 0 0 s
          (λ b. (Ends-finish sv 0 0 RunStatus.limit_reached none (some "达到工具调用次数上限") refl).at s a)
          (λ b.
            (Ends-if sv 0 1 (not (contains sv.tools c.name)) _ _ (refuse _) (
                Ends-if sv 0 1 (not (sv.arguments_valid c)) _ _ (refuse _)
                  (run_if_allowed-Ends c))).at
              s (ground arith));
  }
    where
      refuse : (o : ToolOutput) → Ends sv 0 1 (modify (record_output c o))
      refuse o = Stays-Ends sv 0 1 _ (Stays-modify sv 0 1 _ (record_output-Keeps sv 0 1 c o))

  pub turn-Ends : (calls : List (ToolCall J)) → Ends sv 0 0 (turn sv calls)
  unfolding turn
  turn-Ends [] = model_step-Ends 0
  turn-Ends (c ∷ rest) = tool_step-Ends c
