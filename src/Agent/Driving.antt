-- ===== src/Agent/Driving.antt =====
-- A whole `drive` of src/aurora_agent/run.py keeps a run sound.
use aurora_bot.Prelude.{
  ℕ, zero, suc, String, Bool, true, false, ◌≡◌, refl, none, some, ◌&&◌, not, if_case, arith,
}
use aurora_bot.Agent.State.{RunStatus, terminal, Run}
use aurora_bot.Agent.Action.{
  context_budget, model_error, tool_execution, tool_effect_unknown, task_cancelled, unexpected,
  mark_unknown, pending_calls, Flow, done, thrown, Action, give, look, after, ◌>>=◌,
}
use aurora_bot.Agent.Steps.{Services}
use aurora_bot.Agent.Drive.{
  stop_if_cancelled, advance, advance_loop, advance_from, end_drive, fail_with, drive, Ending,
}
use aurora_bot.Agent.Events.{IsSound, IsActive, finish-IsSound}
use aurora_bot.Agent.Keeps.{mark_unknown-Keeps}
use aurora_bot.Agent.Rules.{IsLeft, Ends, Stays-IsLeft, Ends-finish, IsSound-IsActive}
use aurora_bot.Agent.Tools.{turn-Ends}

module _ {J : Type 0} (sv : Services J) where
  abbrev Leaves : {A : Type 0} → Run J → Action J A → Type 0
  Leaves s act = IsLeft sv (act s).0 (act s).1

  -- An action that leaves a run sound whether or not it had ended.
  record Holds {A : Type 0} (act : Action J A) : Type 0 where
    at : (s : Run J) → IsSound sv s → s.driving ≡ true → IsLeft sv (act s).0 (act s).1

  IsLeft-done :
      {A : Type 0} (x : A) (s : Run J) → IsSound sv s → s.driving ≡ true → IsLeft sv (done x) s
  IsLeft-done x s v d = record { sound = v; driven = d; going = λ e. absurd (cc) }

  -- A bind of an action that may end the run and one that copes with an ended run.
  Ends-then :
      {A B : Type 0} (x : Action J A) (f : A → Action J B)
      → Ends sv 0 0 x
      → ((a : A) → Holds (f a))
      → Ends sv 0 0 (x >>= f)
  unfolding ◌>>=◌
  Ends-then {A = A} x f kx kf = record { at = λ s a. go (x s).0 (x s).1 (kx.at s a) }
    where
      go : (r : Flow A) (s : Run J) → IsLeft sv r s → IsLeft sv (after r f s).0 (after r f s).1
      go (done v) s l = (kf v).at s l.sound l.driven
      go (thrown e) s l = Stays-IsLeft sv 0 0 (thrown e) s (l.going refl)

  stop_if_cancelled-Holds : Holds stop_if_cancelled
  unfolding stop_if_cancelled ◌>>=◌ look
  stop_if_cancelled-Holds = record {
    at = λ s v d.
        if_case (Leaves s) (s.cancel_flag && not (terminal s.status)) _ _
          (λ b.
            (Ends-finish sv 0 0 RunStatus.cancelled none _ refl).at s
              (IsSound-IsActive sv s v d (ground arith)))
          (λ b. unfold give in IsLeft-done tt s v d);
  }

  advance-Ends : Ends sv 0 0 (advance sv)
  unfolding advance ◌>>=◌ look
  advance-Ends = record {
    at = λ s a.
        if_case (Leaves s) s.cancel_flag _ _
          (λ b. (Ends-finish sv 0 0 RunStatus.cancelled none _ refl).at s a)
          (λ b.
            (Ends-then _ _ (turn-Ends sv (pending_calls s.calls)) (λ _. stop_if_cancelled-Holds)).at
              s a);
  }

  advance_loop-Holds : (fuel : ℕ) → Holds (advance_loop sv fuel)
  unfolding advance_loop ◌>>=◌ look
  advance_loop-Holds zero = record { at = λ s v d. unfold give in IsLeft-done false s v d }
  advance_loop-Holds (suc fuel) = record {
    at = λ s v d.
        if_case (Leaves s) (terminal s.status) _ _ (λ b. unfold give in IsLeft-done true s v d)
          (λ b.
            (Ends-then _ _ advance-Ends (λ _. advance_loop-Holds fuel)).at s
              (IsSound-IsActive sv s v d b));
  }

  advance_from-Ends : (continuous : Bool) (fuel : ℕ) → Ends sv 0 0 (advance_from sv continuous fuel)
  unfolding advance_from
  advance_from-Ends false fuel =
      Ends-then _ _ advance-Ends
        (λ _. record { at = λ s v d. unfold give in IsLeft-done true s v d })
  advance_from-Ends true fuel = Ends-then _ _ advance-Ends (λ _. advance_loop-Holds fuel)

  fail_with-IsSound :
      (reason : String) (s : Run J) → IsActive sv 0 0 s → IsSound sv (fail_with reason s)
  unfolding fail_with
  fail_with-IsSound reason s a =
      finish-IsSound sv 0 0 (mark_unknown s) ((mark_unknown-Keeps sv 0 0).at s a) RunStatus.failed
        none (some reason) refl

  stopped : (s : Run J) → IsSound sv s → IsSound sv (record s { driving = false })
  stopped s v = ground arith

  end_drive-IsSound : (r : Flow Bool) (s : Run J) → IsLeft sv r s → IsSound sv (end_drive r s).1
  unfolding end_drive
  end_drive-IsSound (done true) s l = stopped s l.sound
  end_drive-IsSound (done false) s l = stopped s l.sound
  end_drive-IsSound (thrown task_cancelled) s l = stopped _ (
      finish-IsSound sv 0 0 _
        ((mark_unknown-Keeps sv 0 0).at (record s { cancel_flag = true }) (marked s (l.going refl)))
        RunStatus.cancelled none _ refl)
    where
      marked : (s : Run J) → IsActive sv 0 0 s → IsActive sv 0 0 (record s { cancel_flag = true })
      marked s a = ground arith
  end_drive-IsSound (thrown context_budget) s l = stopped _ (fail_with-IsSound _ s (l.going refl))
  end_drive-IsSound (thrown model_error) s l = stopped _ (fail_with-IsSound _ s (l.going refl))
  end_drive-IsSound (thrown tool_execution) s l = stopped _ (fail_with-IsSound _ s (l.going refl))
  end_drive-IsSound (thrown tool_effect_unknown) s l =
      stopped _ (fail_with-IsSound _ s (l.going refl))
  end_drive-IsSound (thrown (unexpected name)) s l =
      stopped _ (fail_with-IsSound _ s (l.going refl))

  start-IsActive :
      (s : Run J)
      → IsSound sv s
      → terminal s.status ≡ false
      → IsActive sv 0 0 (record s { driving = true; status = RunStatus.running })
  start-IsActive s v e =
      again (IsSound-IsActive sv (record s { driving = true }) (driven s v) refl e)
    where
      driven : (s : Run J) → IsSound sv s → IsSound sv (record s { driving = true })
      driven s v = ground arith

      again :
          IsActive sv 0 0 (record s { driving = true })
          → IsActive sv 0 0 (record s { driving = true; status = RunStatus.running })
      again a = ground arith

  -- Whatever the assembler, the model, the policy and the tools answer or raise, and whatever
  -- messages and cancellations other tasks send in the meantime, one call of `step` or `run` takes a
  -- sound run to a sound run: its events are numbered 1, 2, 3, ... without a gap; it has announced
  -- its end exactly once, as its last event, if it has ended and never if it has not; it has a result
  -- exactly when it has ended, with its status; and it has not made more model or tool calls than
  -- its limits allow.
  pub drive-IsSound :
      (continuous : Bool) (fuel : ℕ) (s : Run J)
      → IsSound sv s
      → IsSound sv (drive sv continuous fuel s).1
  unfolding drive
  drive-IsSound continuous fuel s v =
      if_case (λ (r : Ending × Run J). IsSound sv r.1) s.driving _ _ (λ b. v)
        (λ b.
          if_case (λ (r : Ending × Run J). IsSound sv r.1) (terminal s.status) _ _ (λ e. v)
            (λ e.
              end_drive-IsSound _ _
                ((advance_from-Ends continuous fuel).at _ (start-IsActive s v e))))
