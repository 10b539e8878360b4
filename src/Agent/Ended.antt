-- ===== src/Agent/Ended.antt =====
-- When a drive of src/aurora_agent/run.py is over, and that an ended run is left alone.
use aurora_bot.Prelude.{
  ℕ, zero, suc, Bool, true, false, ◌≡◌, refl, ap, ◌∙◌, List, [], ◌∷◌, ◌⊎◌, ◌||◌, if_case, inl, inr,
  is_blank, arith,
}
use aurora_bot.Agent.State.{terminal, Run}
use aurora_bot.Agent.Action.{
  context_budget, model_error, tool_execution, tool_effect_unknown, task_cancelled, unexpected,
  emit, finish, append_message, cancel, External, appends, cancels, interfere, Flow, done, thrown,
  Action, give, look, after, ◌>>=◌,
}
use aurora_bot.Agent.Steps.{Services}
use aurora_bot.Agent.Drive.{
  advance, advance_loop, advance_from, end_drive, fail_with, drive, Ending, returned, out_of_fuel,
}

module _ {J : Type 0} where
  -- The loop is over, unless the fuel is: either it raised, or the run has ended.
  abbrev Over : Flow Bool → Run J → Type 0
  Over (done true) s = terminal s.status ≡ true
  Over (done false) s = Unit
  Over (thrown e) s = Unit

  abbrev pub IsOver : Ending × Run J → Type 0
  IsOver r = (r.0 ≡ out_of_fuel) ⊎ (terminal r.1.status ≡ true)

  end_drive-IsOver : (r : Flow Bool) (s : Run J) → Over r s → IsOver (end_drive r s)
  unfolding end_drive fail_with finish emit
  end_drive-IsOver (done true) s o = inr o
  end_drive-IsOver (done false) s o = inl refl
  end_drive-IsOver (thrown task_cancelled) s o = inr refl
  end_drive-IsOver (thrown context_budget) s o = inr refl
  end_drive-IsOver (thrown model_error) s o = inr refl
  end_drive-IsOver (thrown tool_execution) s o = inr refl
  end_drive-IsOver (thrown tool_effect_unknown) s o = inr refl
  end_drive-IsOver (thrown (unexpected name)) s o = inr refl

  interfere-ended : (es : List External) (s : Run J) → terminal s.status ≡ true → interfere es s ≡ s
  unfolding interfere append_message cancel
  interfere-ended [] s e = refl
  interfere-ended (appends content ∷ es) s e =
      ap (interfere es) (
        if_case (λ r. r ≡ s) (terminal s.status || is_blank content) _ _ (λ b. refl)
          (λ b. absurd (ground arith)))
      ∙ interfere-ended es s e
  interfere-ended (cancels ∷ es) s e =
      ap (interfere es) (
        if_case (λ r. r ≡ s) (terminal s.status || s.cancel_flag) _ _ (λ b. refl)
          (λ b. absurd (ground arith)))
      ∙ interfere-ended es s e

  module _ (sv : Services J) where
    then-Over :
        (x : Action J (Unit {0})) (y : Action J Bool)
        → ((s : Run J) → Over (y s).0 (y s).1)
        → (s : Run J) → Over ((x >>= λ _. y) s).0 ((x >>= λ _. y) s).1
    unfolding ◌>>=◌
    then-Over x y f s = go (x s).0 (x s).1
      where
        go : (r : Flow (Unit {0})) (s : Run J) → Over (after r (λ _. y) s).0 (after r (λ _. y) s).1
        go (done v) s = f s
        go (thrown e) s = tt

    advance_loop-Over :
        (fuel : ℕ) (s : Run J) → Over (advance_loop sv fuel s).0 (advance_loop sv fuel s).1
    unfolding advance_loop ◌>>=◌ look
    advance_loop-Over zero s = unfold give in tt
    advance_loop-Over (suc fuel) s =
        if_case (λ (act : Action J Bool). Over (act s).0 (act s).1) (terminal s.status) _ _
          (λ b. unfold give in b)
          (λ b. then-Over (advance sv) (advance_loop sv fuel) (advance_loop-Over fuel) s)

    -- A `run` of a run that is not being driven ends only when the run has ended, be it by a
    -- return or by an exception, or when the fuel of the model is spent.
    pub drive-IsOver : (fuel : ℕ) (s : Run J) → s.driving ≡ false → IsOver (drive sv true fuel s)
    unfolding drive advance_from
    drive-IsOver fuel s d =
        if_case IsOver s.driving _ _ (λ b. absurd (cc (d, b)))
          (λ b.
            if_case IsOver (terminal s.status) _ _ (λ e. inr e)
              (λ e.
                end_drive-IsOver _ _
                  (then-Over (advance sv) (advance_loop sv fuel) (advance_loop-Over fuel) _)))

    -- A run that has ended and is not being driven is the same run after any sequence of messages
    -- and cancellations, and after every further `step` or `run`, which returns at once.
    pub drive-ended :
        (continuous : Bool) (fuel : ℕ) (es : List External) (s : Run J)
        → terminal s.status ≡ true
        → s.driving ≡ false
        → drive sv continuous fuel (interfere es s) ≡ (returned, s)
    unfolding drive
    drive-ended continuous fuel es s e d = rw (interfere-ended es s e, d, e)
