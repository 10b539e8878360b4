-- ===== src/Agent/Events.antt =====
-- The event log of a run (`_emit` and `_finish` of src/aurora_agent/run.py).
use aurora_bot.Prelude.{
  ℕ, suc, ◌+◌, ◌≤◌, String, Bool, true, false, ◌≡◌, refl, sym, ◌∙◌, Option, none, some, List, [],
  ◌∷◌, ◌++◌, arith, length, if◌then◌else◌,
}
use aurora_bot.Agent.Messages.{ChatMessage}
use aurora_bot.Agent.State.{RunStatus, terminal, RunResult, EventKind, RunEvent, Run}
use aurora_bot.Agent.Action.{emit, finish, new_run}
use aurora_bot.Agent.Steps.{Services}

-- The sequences count up from a number.
abbrev pub Numbered : ℕ → List RunEvent → Type 0
Numbered n [] = Unit
Numbered n (e ∷ events) = (e.sequence ≡ n) × Numbered (suc n) events

abbrev pub is_finished : EventKind → Bool
is_finished EventKind.finished = true
is_finished EventKind.created = false
is_finished EventKind.message_queued = false
is_finished EventKind.messages_applied = false
is_finished EventKind.model_started = false
is_finished EventKind.model_completed = false
is_finished EventKind.tool_proposed = false
is_finished EventKind.tool_started = false
is_finished EventKind.tool_completed = false
is_finished EventKind.tool_unknown = false
is_finished EventKind.cancel_requested = false

unfoldable pub finished_count : List RunEvent → ℕ
finished_count [] = 0
finished_count (e ∷ events) = (if is_finished e.kind then 1 else 0) + finished_count events

unfoldable pub ends_finished : List RunEvent → Bool
ends_finished [] = false
ends_finished (e ∷ []) = is_finished e.kind
ends_finished (e ∷ e' ∷ events) = ends_finished (e' ∷ events)

pub Numbered-append :
    (n : ℕ) (events : List RunEvent) (e : RunEvent)
    → Numbered n events
    → e.sequence ≡ n + length events
    → Numbered n (events ++ e ∷ [])
Numbered-append n [] e h q = (omega arith, tt)
Numbered-append n (x ∷ events) e h q = (h.0, Numbered-append (suc n) events e h.1 (omega arith))

pub finished_count-append :
    (events : List RunEvent) (e : RunEvent)
    → finished_count (events ++ e ∷ [])
      ≡ finished_count events + (if is_finished e.kind then 1 else 0)
unfolding finished_count
finished_count-append [] e = omega arith
finished_count-append (x ∷ events) e = omega (arith, finished_count-append events e)

pub ends_finished-append :
    (events : List RunEvent) (e : RunEvent) → ends_finished (events ++ e ∷ []) ≡ is_finished e.kind
unfolding ends_finished
ends_finished-append [] e = refl
ends_finished-append (x ∷ []) e = refl
ends_finished-append (x ∷ x' ∷ events) e = ends_finished-append (x' ∷ events) e

-- The result is there exactly when the run has ended, and has its status.
abbrev pub Reports : Option RunResult → RunStatus → Type 0
Reports none status = terminal status ≡ false
Reports (some r) status = (r.status ≡ status) × (terminal status ≡ true)

module _ {J : Type 0} (sv : Services J) where
  -- The events are numbered 1, 2, 3, ...; the run has finished once if it has ended and never
  -- before; its last event says so; and it has kept its limits.
  pub record IsSound (s : Run J) : Type 0 where
    pub numbered : Numbered 1 s.events
    pub once : finished_count s.events ≡ (if terminal s.status then 1 else 0)
    pub closed : ends_finished s.events ≡ terminal s.status
    pub reports : Reports s.result s.status
    pub model_limit : s.stats.model_calls ≤ sv.max_model_calls
    pub tool_limit : s.stats.tool_calls ≤ sv.max_tool_calls

  -- A run that is being driven and has not ended, with room for so many more calls.
  pub record IsActive (m t : ℕ) (s : Run J) : Type 0 where
    pub numbered : Numbered 1 s.events
    pub once : finished_count s.events ≡ 0
    pub closed : ends_finished s.events ≡ false
    pub reports : s.result ≡ none
    pub alive : terminal s.status ≡ false
    pub driven : s.driving ≡ true
    pub model_room : m + s.stats.model_calls ≤ sv.max_model_calls
    pub tool_room : t + s.stats.tool_calls ≤ sv.max_tool_calls

  pub IsActive-IsSound : (m t : ℕ) (s : Run J) → IsActive m t s → IsSound s
  IsActive-IsSound m t s a = record {
    numbered = a.numbered;
    once = ground arith;
    closed = ground arith;
    reports = ground arith;
    model_limit = omega arith;
    tool_limit = omega arith;
  }

  module _ (m t : ℕ) (s : Run J) (a : IsActive m t s) where
    pub emit-IsActive :
        (kind : EventKind) (c : Option String)
        → is_finished kind ≡ false
        → IsActive m t (emit kind c s)
    unfolding emit
    emit-IsActive kind c f = record {
      numbered = Numbered-append 1 s.events _ a.numbered (omega arith);
      once = ground (
        arith,
        finished_count-append s.events (record {
          sequence = length s.events + 1;
          run_id = s.run_id;
          kind = kind;
          status = s.status;
          call_id = c;
        }),
      );
      closed = ends_finished-append s.events _ ∙ f;
      reports = a.reports;
      alive = a.alive;
      driven = a.driven;
      model_room = a.model_room;
      tool_room = a.tool_room;
    }

    pub finish-IsSound :
        (status : RunStatus) (output reason : Option String)
        → terminal status ≡ true
        → IsSound (finish status output reason s)
    unfolding finish emit
    finish-IsSound status output reason f = record {
      numbered = Numbered-append 1 s.events _ a.numbered (omega arith);
      once = ground (
        arith,
        finished_count-append s.events (record {
          sequence = length s.events + 1;
          run_id = s.run_id;
          kind = EventKind.finished;
          status = status;
          call_id = none;
        }),
      );
      closed = ends_finished-append s.events _ ∙ sym f;
      reports = (refl, f);
      model_limit = omega arith;
      tool_limit = omega arith;
    }

  pub new_run-IsSound :
      (run_id : String) (messages : List (ChatMessage J)) → IsSound (new_run run_id messages)
  unfolding new_run finished_count ends_finished
  new_run-IsSound run_id messages = record {
    numbered = (refl, tt);
    once = refl;
    closed = refl;
    reports = refl;
    model_limit = omega arith;
    tool_limit = omega arith;
  }
