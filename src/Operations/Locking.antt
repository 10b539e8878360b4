-- ===== src/Operations/Locking.antt =====
-- The slots of `_serialize_request` (src/aurora_bot/operations/registry.py): of the calls with one
-- identity at most one is past the lock, and a slot is kept exactly while it has users.
use aurora_bot.Prelude.{
  ℕ, ◌+◌, ◌-◌, ◌≤◌, ◌<◌, ◌≡◌, refl, ap, String, true, false, Option, none, some, List, [], ◌∷◌, Eq,
  ◌==◌, string_eq, nat_eq, arith, if_case, get_elem?, if◌then◌else◌, eq_iff,
}
use aurora_bot.Prelude.Dict
use aurora_bot.Prelude.Dict.{get-put, get-pop, get_or-get}
use aurora_bot.Resources.Keys.{option_eq, option_test}
use aurora_bot.Operations.Definitions.{OperationRequest}
use aurora_bot.Operations.Registry.{Registry}
use aurora_bot.Operations.Dispatch.{
  System, Services, Call, Stage, queued, checking, Journal, Next, goes, returns, raises, Event,
  arrive, proceed, lose, restart, Reading, RequestSlot, identity_of, is_queued, begin_call, enter,
  leave, drop_waiter, comparing, looking, decoding, recording, starting, handling, reporting,
  settle, proceed_call, lose_call, slot_of, give_up, remove_at, replace_at, step, run, advance,
  idle,
}
use aurora_bot.Operations.Counting.{total, total-replace_at, total-remove_at, total-le}

abbrev pub users_of : Option RequestSlot → ℕ
users_of none = 0
users_of (some slot) = slot.users

abbrev pub held_of : Option RequestSlot → ℕ
held_of none = 0
held_of (some slot) = if slot.owner == none then 0 else 1

abbrev pub IsUsed : Option RequestSlot → Type 0
IsUsed none = Unit
IsUsed (some slot) = 0 < slot.users

module _ {J I P : Type 0} ⦃j : Eq J⦄ ⦃p : Eq P⦄ (sv : Services J I P) (registry : Registry J)
    (k : String) where
  -- A call with the identity `k`, and one that is past the lock.
  abbrev pub here : Call J I P → ℕ
  here c = if identity_of sv registry c.request == k then 1 else 0

  abbrev pub inside : Call J I P → ℕ
  inside c =
      if identity_of sv registry c.request == k
      then (if is_queued sv registry c.stage then 0 else 1)
      else 0

  pub record IsLocked (s : System J I P) : Type 0 where
    pub users : users_of (Dict.get s.slots k) ≡ total here s.calls
    pub held : held_of (Dict.get s.slots k) ≡ total inside s.calls
    pub used : IsUsed (Dict.get s.slots k)

  get-give_up :
      (slots : Dict.Dict String RequestSlot) (id : String) (slot : RequestSlot)
      → Dict.get (give_up sv registry slots id slot) k ≡ (
          if id == k
          then (if slot.users - 1 == 0 then none else some (record slot { users = slot.users - 1 }))
          else Dict.get slots k)
  get-give_up slots id slot =
      ground
        (arith, get-put slots id k (record slot { users = slot.users - 1 }), get-pop slots id k)

  inside-le : (c : Call J I P) → inside c ≤ here c
  inside-le c = ground arith

  begin_call-IsLocked :
      (task : ℕ) (r : OperationRequest J) (s : System J I P)
      → IsLocked s
      → IsLocked (begin_call sv registry task r s)
  unfolding begin_call option_test
  begin_call-IsLocked task r s h =
      let id = identity_of sv registry r in
      let slot = slot_of sv registry s id in
      ground (
        arith,
        get-put s.slots id k slot,
        get-put s.slots id k (record slot { users = slot.users + 1 }),
        get_or-get s.slots id (record { users = 0; owner = none }),
        eq_iff id k,
        ap (Dict.get s.slots),
      )

  -- A call goes from one stage to another, both past the lock.
  goes-IsLocked :
      (i : ℕ) (c : Call J I P) (stage : Stage J I P) (journal : Journal J P) (s : System J I P)
      → get_elem? s.calls i ≡ some c
      → is_queued sv registry c.stage ≡ false
      → is_queued sv registry stage ≡ false
      → IsLocked s
      → IsLocked (record s {
        journal = journal;
        calls = replace_at s.calls i (record c { stage = stage });
      })
  goes-IsLocked i c stage journal s e q n h =
      let c' : Call J I P = record c { stage = stage } in
      ground
        (arith, total-replace_at here s.calls i c c' e, total-replace_at inside s.calls i c c' e)

  enter-IsLocked :
      (i : ℕ) (c : Call J I P) (s : System J I P)
      → get_elem? s.calls i ≡ some c
      → is_queued sv registry c.stage ≡ true
      → IsLocked s
      → IsLocked (enter sv registry i c s)
  unfolding enter option_test
  enter-IsLocked i c s e q h =
      let id = identity_of sv registry c.request in
      let c' : Call J I P = record c { stage = checking } in
      ground (
        arith,
        get-put s.slots id k (record (slot_of sv registry s id) { owner = some c.task }),
        get_or-get s.slots id (record { users = 0; owner = none }),
        eq_iff id k,
        ap (Dict.get s.slots),
        total-replace_at here s.calls i c c' e,
        total-replace_at inside s.calls i c c' e,
        total-remove_at here s.calls i c e,
      )

  leave-IsLocked :
      (i : ℕ) (c : Call J I P) (s : System J I P)
      → get_elem? s.calls i ≡ some c
      → is_queued sv registry c.stage ≡ false
      → IsLocked s
      → IsLocked (leave sv registry i (identity_of sv registry c.request) s)
  unfolding leave option_test
  leave-IsLocked i c s e q h =
      let id = identity_of sv registry c.request in
      ground (
        arith,
        get-give_up s.slots id (record (slot_of sv registry s id) { owner = none }),
        get_or-get s.slots id (record { users = 0; owner = none }),
        eq_iff id k,
        ap (Dict.get s.slots),
        total-remove_at here s.calls i c e,
        total-remove_at inside s.calls i c e,
        total-le inside here inside-le (remove_at s.calls i),
      )

  drop_waiter-IsLocked :
      (i : ℕ) (c : Call J I P) (s : System J I P)
      → get_elem? s.calls i ≡ some c
      → is_queued sv registry c.stage ≡ true
      → IsLocked s
      → IsLocked (drop_waiter sv registry i (identity_of sv registry c.request) s)
  unfolding drop_waiter
  drop_waiter-IsLocked i c s e q h =
      let id = identity_of sv registry c.request in
      ground (
        arith,
        get-give_up s.slots id (slot_of sv registry s id),
        get_or-get s.slots id (record { users = 0; owner = none }),
        eq_iff id k,
        ap (Dict.get s.slots),
        total-remove_at here s.calls i c e,
        total-remove_at inside s.calls i c e,
        total-le inside here inside-le (remove_at s.calls i),
      )

  -- A call that is past the lock does not go back to waiting for it.
  abbrev Awake : Next J I P → Type 0
  Awake (goes stage journal) = is_queued sv registry stage ≡ false
  Awake (returns result journal) = Unit
  Awake (raises journal) = Unit

  advance-Awake :
      (reading : Reading J I) (r : OperationRequest J) (stage : Stage J I P) (journal : Journal J P)
      → is_queued sv registry stage ≡ false
      → Awake (advance sv registry reading r stage journal)
  unfolding advance
  advance-Awake reading r queued journal q = absurd (cc)
  advance-Awake reading r checking journal q = ground arith
  advance-Awake reading r (comparing previous) journal q = ground arith
  advance-Awake reading r (looking previous) journal q = ground arith
  advance-Awake reading r (decoding content) journal q = ground arith
  advance-Awake reading r (recording checked) journal q = ground arith
  advance-Awake reading r (starting d) journal q = ground arith
  advance-Awake reading r (handling d) journal q = ground arith
  advance-Awake reading r (reporting result) journal q = ground arith

  settle-IsLocked :
      (i : ℕ) (c : Call J I P) (next : Next J I P) (s : System J I P)
      → get_elem? s.calls i ≡ some c
      → is_queued sv registry c.stage ≡ false
      → Awake next
      → IsLocked s
      → IsLocked (settle sv registry i c next s)
  settle-IsLocked i c (goes stage journal) s e q a h = goes-IsLocked i c stage journal s e q a h
  settle-IsLocked i c (returns result journal) s e q a h =
      leave-IsLocked i c
        (record s {
          journal = journal;
          answered = (identity_of sv registry c.request, result) ∷ s.answered;
        })
        e q (record { users = h.users; held = h.held; used = h.used })
  settle-IsLocked i c (raises journal) s e q a h =
      leave-IsLocked i c (record s { journal = journal }) e q
        (record { users = h.users; held = h.held; used = h.used })

  proceed-IsLocked :
      (i : ℕ) (reading : Reading J I) (o : Option (Call J I P)) (s : System J I P)
      → get_elem? s.calls i ≡ o
      → IsLocked s
      → IsLocked (proceed_call sv registry i reading o s)
  proceed-IsLocked i reading none s e h = h
  proceed-IsLocked i reading (some c) s e h =
      if_case IsLocked (is_queued sv registry c.stage) _ _ (λ q. enter-IsLocked i c s e q h)
        (λ q.
          settle-IsLocked i c (advance sv registry reading c.request c.stage s.journal) s e q
            (advance-Awake reading c.request c.stage s.journal q) h)

  lose-IsLocked :
      (i : ℕ) (o : Option (Call J I P)) (s : System J I P)
      → get_elem? s.calls i ≡ o
      → IsLocked s
      → IsLocked (lose_call sv registry i o s)
  lose-IsLocked i none s e h = h
  lose-IsLocked i (some c) s e h =
      if_case IsLocked (is_queued sv registry c.stage) _ _ (λ q. drop_waiter-IsLocked i c s e q h)
        (λ q. leave-IsLocked i c s e q h)

  pub step-IsLocked :
      (event : Event J I) (s : System J I P) → IsLocked s → IsLocked (step sv registry event s)
  unfolding step
  step-IsLocked (arrive task r) s h = begin_call-IsLocked task r s h
  step-IsLocked (proceed i reading) s h = proceed-IsLocked i reading (get_elem? s.calls i) s refl h
  step-IsLocked (lose i) s h = lose-IsLocked i (get_elem? s.calls i) s refl h
  step-IsLocked restart s h = unfold Dict.get in record { users = refl; held = refl; used = tt }

  run-IsLocked :
      (events : List (Event J I)) (s : System J I P)
      → IsLocked s
      → IsLocked (run sv registry events s)
  unfolding run
  run-IsLocked [] s h = h
  run-IsLocked (event ∷ events) s h =
      run-IsLocked events (step sv registry event s) (step-IsLocked event s h)

  pub idle-IsLocked : IsLocked idle
  unfolding Dict.get
  idle-IsLocked = record { users = refl; held = refl; used = tt }

  pub inside-le-one : (s : System J I P) → IsLocked s → total inside s.calls ≤ 1
  inside-le-one s h = ground (arith, h.held)

  -- In any course of events, the calls with one identity are exactly the users of its slot, at most
  -- one of them is past the lock, one is exactly where the slot has an owner, and there is no slot
  -- without a user.
  pub run-mutual_exclusion :
      (events : List (Event J I))
      → IsLocked (run sv registry events idle)
        × (total inside (run sv registry events idle).calls ≤ 1)
  run-mutual_exclusion events =
      let h = run-IsLocked events idle idle-IsLocked in
      (h, inside-le-one (run sv registry events idle) h)
