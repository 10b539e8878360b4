-- ===== src/Agent/Drive.antt =====
-- `_advance` and `_drive` of src/aurora_agent/run.py.
use aurora_bot.Prelude.{
  ℕ, zero, suc, String, Bool, true, false, not, ◌&&◌, none, some, string_eq, if◌then◌else◌,
}
use aurora_bot.Agent.State.{RunStatus, terminal, Run}
use aurora_bot.Agent.Action.{
  Raised, context_budget, model_error, tool_execution, tool_effect_unknown, task_cancelled,
  unexpected, finish, mark_unknown, pending_calls, Flow, done, thrown, Action, give, modify, look,
  ◌>>=◌, ◌>>◌,
}
use aurora_bot.Agent.Steps.{Services, turn}

-- How a call of _drive ends.
pub data Ending : Type 0 where
  returned already_driving out_of_fuel : Ending
  raised : Raised → Ending

module _ {J : Type 0} where
  abbrev pub host_cancelled : Run J → Run J
  host_cancelled = finish RunStatus.cancelled none (some "宿主请求取消")

  unfoldable pub stop_if_cancelled : Action J (Unit {0})
  stop_if_cancelled = do
    s ← look
    if s.cancel_flag && not (terminal s.status) then modify host_cancelled else give tt

module _ {J : Type 0} (sv : Services J) where
  -- _advance
  unfoldable pub advance : Action J (Unit {0})
  unfolding turn stop_if_cancelled
  advance = do
    s ← look
    if s.cancel_flag
        then modify host_cancelled
        else do turn sv (pending_calls s.calls); stop_if_cancelled

  -- while not terminal: _advance; `false` when the fuel is spent
  unfoldable pub advance_loop : ℕ → Action J Bool
  unfolding advance
  advance_loop zero = give false
  advance_loop (suc fuel) =
      let rest = advance_loop fuel in
      do s ← look; if terminal s.status then give true else do advance; rest

  unfoldable pub advance_from : Bool → ℕ → Action J Bool
  unfolding advance_loop
  advance_from false fuel = do advance; give true
  advance_from true fuel = do advance; advance_loop fuel

module _ {J : Type 0} where
  -- the handlers of _drive; a failure that the run reports is not raised again
  unfoldable pub fail_with : String → Run J → Run J
  fail_with reason s = finish RunStatus.failed none (some reason) (mark_unknown s)

  abbrev stop : Run J → Run J
  stop s = record s { driving = false }

  unfoldable pub end_drive : Flow Bool → Run J → Ending × Run J
  unfolding fail_with
  end_drive (done true) s = (returned, stop s)
  end_drive (done false) s = (out_of_fuel, stop s)
  end_drive (thrown task_cancelled) s = (
    raised task_cancelled,
    stop (
        finish RunStatus.cancelled none (some "驱动任务被取消")
          (mark_unknown (record s { cancel_flag = true }))),
  )
  end_drive (thrown context_budget) s = (returned, stop (fail_with "ContextBudgetError" s))
  end_drive (thrown model_error) s = (returned, stop (fail_with "ModelError" s))
  end_drive (thrown tool_execution) s =
      (raised tool_execution, stop (fail_with "ToolExecutionError" s))
  end_drive (thrown tool_effect_unknown) s =
      (raised tool_effect_unknown, stop (fail_with "ToolEffectUnknownError" s))
  end_drive (thrown (unexpected name)) s = (raised (unexpected name), stop (fail_with name s))

  -- _drive
  unfoldable pub drive : Services J → Bool → ℕ → Run J → Ending × Run J
  unfolding advance_from end_drive
  drive sv continuous fuel s =
      let r =
        advance_from sv continuous fuel (record s { driving = true; status = RunStatus.running }) in
      if s.driving
      then (already_driving, s)
      else if terminal s.status
      then (returned, s)
      else end_drive r.0 r.1
