-- ===== src/Agent/Between.antt =====
-- Messages and cancellations that reach a run of src/aurora_agent/run.py at any time, also while
-- nothing drives it.
use aurora_bot.Prelude.{
  String, true, false, ◌≡◌, refl, none, some, List, [], ◌∷◌, ◌++◌, ◌||◌, if_case, is_blank, arith,
}
use aurora_bot.Agent.Messages.{input_message}
use aurora_bot.Agent.State.{RunStatus, EventKind, terminal, Run}
use aurora_bot.Agent.Action.{
  emit, finish, append_message, cancel, External, appends, cancels, interfere,
}
use aurora_bot.Agent.Steps.{Services}
use aurora_bot.Agent.Events.{IsSound, IsActive, IsActive-IsSound, emit-IsActive, finish-IsSound}
use aurora_bot.Agent.Rules.{IsSound-IsActive}

module _ {J : Type 0} (sv : Services J) where
  -- The same run, driven.
  abbrev awake : Run J → Run J
  awake s = record s { driving = true }

  awake-IsSound : (s : Run J) → IsSound sv (awake s) → IsSound sv s
  awake-IsSound s v = ground arith

  awake-IsActive :
      (s : Run J) → IsSound sv s → terminal s.status ≡ false → IsActive sv 0 0 (awake s)
  awake-IsActive s v e = IsSound-IsActive sv (awake s) (driven s v) refl e
    where
      driven : (s : Run J) → IsSound sv s → IsSound sv (record s { driving = true })
      driven s v = ground arith

  append_message-IsSound :
      (content : String) (s : Run J) → IsSound sv s → IsSound sv (append_message content s)
  unfolding append_message emit
  append_message-IsSound content s v =
      if_case (IsSound sv) (terminal s.status || is_blank content) _ _ (λ b. v)
        (λ b. awake-IsSound _ (
          IsActive-IsSound sv 0 0 _ (
            emit-IsActive sv 0 0 _ (queue (awake s) (awake-IsActive s v (ground arith)))
              EventKind.message_queued none refl)))
    where
      queue :
          (s : Run J)
          → IsActive sv 0 0 s
          → IsActive sv 0 0 (record s { queued = s.queued ++ input_message content ∷ [] })
      queue s a = ground arith

  cancel-IsSound : (s : Run J) → IsSound sv s → IsSound sv (cancel s)
  unfolding cancel finish emit
  cancel-IsSound s v =
      if_case (IsSound sv) (terminal s.status || s.cancel_flag) _ _ (λ b. v)
        (λ b.
          if_case (IsSound sv)
            (emit EventKind.cancel_requested none (record s { cancel_flag = true })).driving _ _
            (λ d. awake-IsSound _ (IsActive-IsSound sv 0 0 _ (requested (ground arith))))
            (λ d. awake-IsSound _ (
              finish-IsSound sv 0 0 _ (requested (ground arith)) RunStatus.cancelled none
                (some "宿主请求取消") refl)))
    where
      flag : (s : Run J) → IsActive sv 0 0 s → IsActive sv 0 0 (record s { cancel_flag = true })
      flag s a = ground arith

      requested :
          terminal s.status ≡ false
          → IsActive sv 0 0
              (emit EventKind.cancel_requested none (record (awake s) { cancel_flag = true }))
      requested e =
          emit-IsActive sv 0 0 _ (flag (awake s) (awake-IsActive s v e)) EventKind.cancel_requested
            none refl

  -- Any sequence of messages and cancellations takes a sound run to a sound run, whether it is being
  -- driven or not.
  pub interfere-IsSound :
      (es : List External) (s : Run J) → IsSound sv s → IsSound sv (interfere es s)
  unfolding interfere
  interfere-IsSound [] s v = v
  interfere-IsSound (appends content ∷ es) s v =
      interfere-IsSound es _ (append_message-IsSound content s v)
  interfere-IsSound (cancels ∷ es) s v = interfere-IsSound es _ (cancel-IsSound s v)
