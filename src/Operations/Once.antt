-- ===== src/Operations/Once.antt =====
-- A command that is not safe to retry is begun once, whatever is interrupted
-- (src/aurora_bot/operations/registry.py).
use aurora_bot.Prelude.{
  ℕ, suc, ◌+◌, ◌≤◌, ◌≡◌, refl, ap, String, Bool, true, false, ◌&&◌, Option, none, some, List, [],
  ◌∷◌, Eq, ◌==◌, string_eq, nat_eq, arith, get_elem?, if◌then◌else◌, eq_iff, if_case, Result,
}
use aurora_bot.Prelude.Dict
use aurora_bot.Prelude.Dict.{get-put}
use aurora_bot.Operations.Definitions.{OperationDefinition, OperationRequest, OperationResult}
use aurora_bot.Operations.Registry.{Registry, Refusal}
use aurora_bot.Operations.Dispatch.{
  System, Services, Call, Stage, queued, checking, comparing, looking, decoding, recording,
  starting, handling, reporting, Journal, RequestFact, Next, goes, returns, raises, Event, arrive,
  proceed, lose, restart, Reading, identity_of, is_queued, is_single, begin_call, enter, leave,
  drop_waiter, remove_at, replace_at, settle, proceed_call, lose_call, step, run, advance,
  record_request, record_result, request_fact, begin, resume, idle,
}
use aurora_bot.Operations.Counting.{total, total-replace_at, total-remove_at, total-le}
use aurora_bot.Operations.Locking.{IsLocked, inside, inside-le-one, idle-IsLocked, step-IsLocked}

module _ {J I P : Type 0} ⦃j : Eq J⦄ ⦃p : Eq P⦄ (sv : Services J I P) (registry : Registry J)
    (k : String) where
  abbrev is_mine : OperationRequest J → Bool
  is_mine r = identity_of sv registry r == k

  abbrev records : Stage J I P → ℕ
  records (recording checked) = 1
  records _ = 0

  abbrev starts : Stage J I P → ℕ
  starts (starting d) = if is_single sv registry d then 1 else 0
  starts _ = 0

  -- A call with the identity `k` that is about to record its request.
  abbrev pending : Call J I P → ℕ
  pending c = if is_mine c.request then records c.stage else 0

  -- A call with the identity `k` that has recorded a command that is not safe to retry, and is about
  -- to begin it.
  abbrev armed : Call J I P → ℕ
  armed c = if is_mine c.request then starts c.stage else 0

  abbrev is_there : {A : Type 0} → Option A → ℕ
  is_there none = 0
  is_there (some a) = 1

  abbrev present : Journal J P → ℕ
  present s = is_there (Dict.get s.requested k)

  abbrev single_entries : List (String × OperationDefinition J) → ℕ
  single_entries [] = 0
  single_entries ((id, d) ∷ rest) =
      let count = single_entries rest in
      if id == k && is_single sv registry d then suc count else count

  -- How often a command that is not safe to retry has been begun for the identity `k`.
  abbrev pub times_begun : System J I P → ℕ
  times_begun s = single_entries s.journal.begun

  record IsOnce (s : System J I P) : Type 0 where
    unrecorded : total pending s.calls + present s.journal ≤ 1
    once : single_entries s.journal.begun + total armed s.calls ≤ present s.journal

  -- What one call may do to the journal.
  abbrev Local : OperationRequest J → Stage J I P → Journal J P → Next J I P → Type 0
  Local r stage s (goes stage' s') =
      ((if is_mine r then records stage' else 0) + present s' ≤ 1)
      × (single_entries s'.begun + (if is_mine r then starts stage' else 0) + present s
          ≤ single_entries s.begun + (if is_mine r then starts stage else 0) + present s')
      × (is_mine r ≡ false → present s' ≡ present s)
  Local r stage s (returns result s') =
      (present s' ≡ present s) × (single_entries s'.begun ≡ single_entries s.begun)
  Local r stage s (raises s') =
      (present s' ≡ present s) × (single_entries s'.begun ≡ single_entries s.begun)

  pending-le : (c : Call J I P) → pending c ≤ inside sv registry k c
  pending-le c = ground arith

  begin-Local :
      (reading : Reading J I) (r : OperationRequest J) (d : OperationDefinition J)
      (stage : Stage J I P) (s : Journal J P)
      → (is_single sv registry d ≡ true → starts stage ≡ 1)
      → Local r stage s (begin sv registry reading r d s)
  unfolding begin
  begin-Local reading r d stage s h = ground (arith, h)

  resume-Local :
      (reading : Reading J I) (r : OperationRequest J) (previous : RequestFact P) (s : Journal J P)
      → Local r (looking previous) s (resume sv registry reading r previous s)
  unfolding resume
  resume-Local reading r previous s = ground arith

  record_request-Local :
      (r : OperationRequest J) (checked : Result Refusal (OperationDefinition J)) (s : Journal J P)
      → (is_mine r ≡ true → present s ≡ 0)
      → Local r (recording checked) s (record_request sv registry r checked s)
  unfolding record_request
  record_request-Local r checked s h =
      let id = identity_of sv registry r in
      ground (
        arith,
        get-put s.requested id k (request_fact sv registry r checked),
        eq_iff id k,
        ap (Dict.get s.requested),
        h,
      )

  record_result-Local :
      (r : OperationRequest J) (result : OperationResult J I) (s : Journal J P)
      → Local r (reporting result) s (record_result sv registry r result s)
  unfolding record_result
  record_result-Local r result s = ground arith

  advance-Local :
      (reading : Reading J I) (r : OperationRequest J) (stage : Stage J I P) (s : Journal J P)
      → (if is_mine r then records stage else 0) + present s ≤ 1
      → Local r stage s (advance sv registry reading r stage s)
  unfolding advance
  advance-Local reading r queued s h = ground arith
  advance-Local reading r checking s h =
      ground (arith, eq_iff (identity_of sv registry r) k, ap (Dict.get s.requested))
  advance-Local reading r (comparing previous) s h = ground arith
  advance-Local reading r (looking previous) s h = resume-Local reading r previous s
  advance-Local reading r (decoding content) s h = ground arith
  advance-Local reading r (recording checked) s h = record_request-Local r checked s (ground arith)
  advance-Local reading r (starting d) s h = begin-Local reading r d (starting d) s (ground arith)
  advance-Local reading r (handling d) s h = ground arith
  advance-Local reading r (reporting result) s h = record_result-Local r result s

  -- The others with the identity of a call that is past the lock are about to record nothing.
  goes-IsOnce :
      (i : ℕ) (c : Call J I P) (stage : Stage J I P) (journal : Journal J P) (s : System J I P)
      → get_elem? s.calls i ≡ some c
      → is_queued sv registry c.stage ≡ false
      → IsLocked sv registry k s
      → Local c.request c.stage s.journal (goes stage journal)
      → IsOnce s
      → IsOnce (record s {
        journal = journal;
        calls = replace_at s.calls i (record c { stage = stage });
      })
  goes-IsOnce i c stage journal s e q l local h =
      let c' : Call J I P = record c { stage = stage } in
      ground (
        arith,
        local,
        total-replace_at pending s.calls i c c' e,
        total-replace_at armed s.calls i c c' e,
        total-remove_at pending s.calls i c e,
        total-remove_at (inside sv registry k) s.calls i c e,
        total-le pending (inside sv registry k) pending-le (remove_at s.calls i),
        inside-le-one sv registry k s l,
      )

  -- A call ends, and the journal has the same entries.
  removed-IsOnce :
      (i : ℕ) (c : Call J I P) (s t : System J I P)
      → get_elem? s.calls i ≡ some c
      → t.calls ≡ remove_at s.calls i
      → present t.journal ≡ present s.journal
      → single_entries t.journal.begun ≡ single_entries s.journal.begun
      → IsOnce s
      → IsOnce t
  removed-IsOnce i c s t e r p b h = ground (
    arith,
    ap (total pending) r,
    ap (total armed) r,
    total-remove_at pending s.calls i c e,
    total-remove_at armed s.calls i c e,
  )

  settle-IsOnce :
      (i : ℕ) (c : Call J I P) (next : Next J I P) (s : System J I P)
      → get_elem? s.calls i ≡ some c
      → is_queued sv registry c.stage ≡ false
      → IsLocked sv registry k s
      → Local c.request c.stage s.journal next
      → IsOnce s
      → IsOnce (settle sv registry i c next s)
  unfolding leave
  settle-IsOnce i c (goes stage journal) s e q l local h =
      goes-IsOnce i c stage journal s e q l local h
  settle-IsOnce i c (returns result journal) s e q l local h =
      removed-IsOnce i c s _ e refl local.0 local.1 h
  settle-IsOnce i c (raises journal) s e q l local h =
      removed-IsOnce i c s _ e refl local.0 local.1 h

  pending_present :
      (i : ℕ) (c : Call J I P) (s : System J I P)
      → get_elem? s.calls i ≡ some c
      → IsOnce s
      → pending c + present s.journal ≤ 1
  pending_present i c s e h = omega (arith, total-remove_at pending s.calls i c e, h.unrecorded)

  enter-IsOnce :
      (i : ℕ) (c : Call J I P) (s : System J I P)
      → get_elem? s.calls i ≡ some c
      → IsOnce s
      → IsOnce (enter sv registry i c s)
  unfolding enter
  enter-IsOnce i c s e h =
      let c' : Call J I P = record c { stage = checking } in
      ground
        (arith, total-replace_at pending s.calls i c c' e, total-replace_at armed s.calls i c c' e)

  proceed-IsOnce :
      (i : ℕ) (reading : Reading J I) (o : Option (Call J I P)) (s : System J I P)
      → get_elem? s.calls i ≡ o
      → IsLocked sv registry k s
      → IsOnce s
      → IsOnce (proceed_call sv registry i reading o s)
  proceed-IsOnce i reading none s e l h = h
  proceed-IsOnce i reading (some c) s e l h =
      if_case IsOnce (is_queued sv registry c.stage) _ _ (λ q. enter-IsOnce i c s e h)
        (λ q.
          settle-IsOnce i c (advance sv registry reading c.request c.stage s.journal) s e q l
            (advance-Local reading c.request c.stage s.journal (pending_present i c s e h)) h)

  lose-IsOnce :
      (i : ℕ) (o : Option (Call J I P)) (s : System J I P)
      → get_elem? s.calls i ≡ o
      → IsOnce s
      → IsOnce (lose_call sv registry i o s)
  unfolding drop_waiter leave
  lose-IsOnce i none s e h = h
  lose-IsOnce i (some c) s e h =
      if_case IsOnce (is_queued sv registry c.stage) _ _
        (λ q. removed-IsOnce i c s _ e refl refl refl h)
        (λ q. removed-IsOnce i c s _ e refl refl refl h)

  begin_call-IsOnce :
      (task : ℕ) (r : OperationRequest J) (s : System J I P)
      → IsOnce s
      → IsOnce (begin_call sv registry task r s)
  unfolding begin_call
  begin_call-IsOnce task r s h = ground arith

  step-IsOnce :
      (event : Event J I) (s : System J I P)
      → IsLocked sv registry k s
      → IsOnce s
      → IsOnce (step sv registry event s)
  unfolding step
  step-IsOnce (arrive task r) s l h = begin_call-IsOnce task r s h
  step-IsOnce (proceed i reading) s l h = proceed-IsOnce i reading (get_elem? s.calls i) s refl l h
  step-IsOnce (lose i) s l h = lose-IsOnce i (get_elem? s.calls i) s refl h
  step-IsOnce restart s l h = ground arith

  run-IsOnce :
      (events : List (Event J I)) (s : System J I P)
      → IsLocked sv registry k s
      → IsOnce s
      → IsOnce (run sv registry events s)
  unfolding run
  run-IsOnce [] s l h = h
  run-IsOnce (event ∷ events) s l h =
      run-IsOnce events (step sv registry event s) (step-IsLocked sv registry k event s l)
        (step-IsOnce event s l h)

  -- In any course of dispatches, interleavings, failures and restarts, a command that is not safe to
  -- retry is begun at most once for one identity of a request.
  pub run-once : (events : List (Event J I)) → times_begun (run sv registry events idle) ≤ 1
  unfolding Dict.get
  run-once events =
      let h =
        run-IsOnce events idle (idle-IsLocked sv registry k)
          (record { unrecorded = omega arith; once = omega arith }) in
      ground (arith, h.once)
