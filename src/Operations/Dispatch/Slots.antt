-- ===== src/Operations/Dispatch/Slots.antt =====
-- `_serialize_request` of src/aurora_bot/operations/registry.py, and the course of all calls.
use aurora_bot.Prelude.{
  ℕ, ◌-◌, ◌+◌, String, Bool, true, false, not, Option, none, some, List, [], ◌∷◌, Eq, ◌==◌,
  string_eq, nat_eq, get_elem?, if◌then◌else◌,
}
use aurora_bot.Prelude.Dict
use aurora_bot.Prelude.Dict.{Dict}
use aurora_bot.Resources.Keys.{key_eq, ref_eq, option_eq}
use aurora_bot.Operations.Definitions.{OperationRequest}
use aurora_bot.Operations.Registry.{Registry}
use aurora_bot.Operations.Dispatch.State.{
  RequestSlot, Services, Stage, Call, System, Reading, Next, Event, replace_at, remove_at, queued,
  checking, goes, returns, raises, arrive, proceed, lose, restart,
}
use aurora_bot.Operations.Dispatch.Stages.{identity_of, advance}

module _ {J I P : Type 0} ⦃j : Eq J⦄ ⦃p : Eq P⦄ (sv : Services J I P) (registry : Registry J) where
  abbrev pub slot_of : System J I P → String → RequestSlot
  slot_of s id = Dict.get_or s.slots id (record { users = 0; owner = none })

  -- the end of _serialize_request: one user less, and the slot goes with the last one
  abbrev pub give_up : Dict String RequestSlot → String → RequestSlot → Dict String RequestSlot
  give_up slots id slot =
      if slot.users - 1 == 0
      then Dict.pop slots id
      else Dict.put slots id (record slot { users = slot.users - 1 })

  -- the end of a call that holds the lock
  unfoldable pub leave : ℕ → String → System J I P → System J I P
  leave i id s = record s {
    slots = give_up s.slots id (record (slot_of s id) { owner = none });
    calls = remove_at s.calls i;
  }

  -- the end of a call that waits for the lock
  unfoldable pub drop_waiter : ℕ → String → System J I P → System J I P
  drop_waiter i id s = record s {
    slots = give_up s.slots id (slot_of s id);
    calls = remove_at s.calls i;
  }

  abbrev pub settle : ℕ → Call J I P → Next J I P → System J I P → System J I P
  settle i c (goes stage journal) s = record s {
    journal = journal;
    calls = replace_at s.calls i (record c { stage = stage });
  }
  settle i c (returns result journal) s =
      let id = identity_of sv registry c.request in
      leave i id (record s { journal = journal; answered = (id, result) ∷ s.answered })
  settle i c (raises journal) s =
      leave i (identity_of sv registry c.request) (record s { journal = journal })

  abbrev pub is_free : RequestSlot → Bool
  is_free slot = slot.owner == none

  -- the lock is taken
  unfoldable pub enter : ℕ → Call J I P → System J I P → System J I P
  enter i c s =
      let id = identity_of sv registry c.request in
      let slot = slot_of s id in
      if is_free slot
      then record s {
        slots = Dict.put s.slots id (record slot { owner = some c.task });
        calls = replace_at s.calls i (record c { stage = checking });
      }
      else s

  abbrev pub is_queued : Stage J I P → Bool
  is_queued queued = true
  is_queued _ = false

  -- a call that begins: dispatch up to the wait for the lock
  unfoldable pub begin_call : ℕ → OperationRequest J → System J I P → System J I P
  begin_call task r s =
      let id = identity_of sv registry r in
      let slot = slot_of s id in
      if not (r.bot_id == registry.bot_id)
      then s
      else if slot.owner == some task
      then record s { slots = Dict.put s.slots id slot }
      else record s {
        slots = Dict.put s.slots id (record slot { users = slot.users + 1 });
        calls = record { task = task; request = r; stage = queued } ∷ s.calls;
      }

  abbrev pub proceed_call : ℕ → Reading J I → Option (Call J I P) → System J I P → System J I P
  proceed_call i reading none s = s
  proceed_call i reading (some c) s =
      if is_queued c.stage
      then enter i c s
      else settle i c (advance sv registry reading c.request c.stage s.journal) s

  abbrev pub lose_call : ℕ → Option (Call J I P) → System J I P → System J I P
  lose_call i none s = s
  lose_call i (some c) s =
      if is_queued c.stage
      then drop_waiter i (identity_of sv registry c.request) s
      else leave i (identity_of sv registry c.request) s

  unfoldable pub step : Event J I → System J I P → System J I P
  unfolding begin_call enter leave drop_waiter advance
  step (arrive task r) s = begin_call task r s
  step (proceed i reading) s = proceed_call i reading (get_elem? s.calls i) s
  step (lose i) s = lose_call i (get_elem? s.calls i) s
  step restart s = record s { slots = []; calls = [] }

  unfoldable pub run : List (Event J I) → System J I P → System J I P
  unfolding step
  run [] s = s
  run (e ∷ events) s = run events (step e s)
