-- ===== src/Operations/Agreement.antt =====
-- Every answer to a request is the result that the journal holds for its identity
-- (src/aurora_bot/operations/registry.py).
use aurora_bot.Prelude.{
  ℕ, zero, suc, ◌≡◌, refl, ap, sym, ◌∙◌, String, not, Option, none, some, List, [], ◌∷◌, Eq, ◌==◌,
  string_eq, nat_eq, arith, get_elem?, eq_iff, if_case, Result, All, All-weaken, subst,
  Option-cases, inl, inr,
}
use aurora_bot.Prelude.Dict
use aurora_bot.Prelude.Dict.{get-put}
use aurora_bot.Resources.Keys.{ResourceRef, option_eq}
use aurora_bot.Operations.Definitions.{OperationDefinition, OperationRequest, OperationResult}
use aurora_bot.Operations.Registry.{Registry, Refusal}
use aurora_bot.Operations.Dispatch.{
  System, Services, Call, Stage, queued, checking, comparing, looking, decoding, recording,
  starting, handling, reporting, Journal, RequestFact, ResultFact, Next, goes, returns, raises,
  Event, arrive, proceed, lose, restart, Reading, identity_of, is_queued, begin_call, enter, leave,
  drop_waiter, remove_at, replace_at, settle, proceed_call, lose_call, step, run, advance,
  record_request, record_result, result_fact, begin, resume, idle, same_result_fact, append_fact,
  decoded, resume_target, is_free, slot_of,
}

module _ {A : Type 0} (Q : A → Type 0) where
  All-get_elem? : (xs : List A) (i : ℕ) (x : A) → get_elem? xs i ≡ some x → All Q xs → Q x
  All-get_elem? [] i x e h = absurd (cc)
  All-get_elem? (y ∷ xs) zero x e h = subst Q (cc) h.0
  All-get_elem? (y ∷ xs) (suc i) x e h = All-get_elem? xs i x e h.1

  All-replace_at : (xs : List A) (i : ℕ) (x : A) → Q x → All Q xs → All Q (replace_at xs i x)
  All-replace_at [] i x q h = tt
  All-replace_at (y ∷ xs) zero x q h = (q, h.1)
  All-replace_at (y ∷ xs) (suc i) x q h = (h.0, All-replace_at xs i x q h.1)

  All-remove_at : (xs : List A) (i : ℕ) → All Q xs → All Q (remove_at xs i)
  All-remove_at [] i h = tt
  All-remove_at (y ∷ xs) zero h = h.1
  All-remove_at (y ∷ xs) (suc i) h = (h.0, All-remove_at xs i h.1)

module _ {J I P : Type 0} ⦃j : Eq J⦄ ⦃p : Eq P⦄ (sv : Services J I P) (registry : Registry J)
    (round_trip : (r : OperationRequest J) (result : OperationResult J I)
      → sv.decode_result (sv.encode_result r result).0
        ≡ some (record result { body_ref = (sv.encode_result r result).1 }))
    (k : String) where
  abbrev stored : Journal J P → Option (ResultFact P)
  stored s = Dict.get s.results k

  abbrev HasContent : Option (ResultFact P) → P → Type 0
  HasContent none content = ⊥
  HasContent (some f) content = f.content ≡ content

  abbrev pub Answers : Option (ResultFact P) → OperationResult J I → Type 0
  Answers none result = ⊥
  Answers (some f) result = sv.decode_result f.content ≡ some result

  abbrev HoldsContent : Option (ResultFact P) → Stage J I P → Type 0
  HoldsContent o (decoding content) = HasContent o content
  HoldsContent o _ = Unit

  abbrev IsCallSound : Option (ResultFact P) → Call J I P → Type 0
  IsCallSound o c = identity_of sv registry c.request ≡ k → HoldsContent o c.stage

  abbrev pub IsAnswerSound : Option (ResultFact P) → String × OperationResult J I → Type 0
  IsAnswerSound o answer = answer.0 ≡ k → Answers o answer.1

  record IsSound (s : System J I P) : Type 0 where
    calls : All (IsCallSound (stored s.journal)) s.calls
    answers : All (IsAnswerSound (stored s.journal)) s.answered

  -- A stored result stays.
  abbrev Stays : Option (ResultFact P) → Option (ResultFact P) → Type 0
  Stays none o = Unit
  Stays (some f) o = o ≡ some f

  abbrev Sound : OperationRequest J → Journal J P → Next J I P → Type 0
  Sound r s (goes stage s') =
      Stays (stored s) (stored s')
      × (identity_of sv registry r ≡ k → HoldsContent (stored s') stage)
  Sound r s (returns result s') =
      Stays (stored s) (stored s') × (identity_of sv registry r ≡ k → Answers (stored s') result)
  Sound r s (raises s') = Stays (stored s) (stored s')

  Stays-refl : (o : Option (ResultFact P)) → Stays o o
  Stays-refl none = tt
  Stays-refl (some f) = refl

  Stays-Answers :
      (o o' : Option (ResultFact P)) (result : OperationResult J I)
      → Stays o o'
      → Answers o result
      → Answers o' result
  Stays-Answers none o' result t h = absurd h
  Stays-Answers (some f) o' result t h = rw t h

  Stays-HoldsContent :
      (o o' : Option (ResultFact P)) (stage : Stage J I P)
      → Stays o o'
      → HoldsContent o stage
      → HoldsContent o' stage
  Stays-HoldsContent none o' (decoding content) t h = absurd h
  Stays-HoldsContent (some f) o' (decoding content) t h = rw t h
  Stays-HoldsContent o o' _ t h = tt

  append-Stays :
      (id : String) (f : ResultFact P) (d d' : Dict.Dict String (ResultFact P))
      → append_fact same_result_fact d id f ≡ some d'
      → Stays (Dict.get d k) (Dict.get d' k)
  append-Stays id f d d' h =
      ground (arith, get-put d id k f, eq_iff id k, ap (Dict.get d), Stays-refl (Dict.get d k))

  append-content :
      (id : String) (f : ResultFact P) (d d' : Dict.Dict String (ResultFact P))
      → append_fact same_result_fact d id f ≡ some d'
      → id ≡ k
      → (g : ResultFact P) × (Dict.get d' k ≡ some g) × (g.content ≡ f.content)
  unfolding same_result_fact
  append-content id f d d' h e = elim (Option-cases (Dict.get d id)) [
    | inl n ↦ (f, ground (arith, n, h, get-put d id k f, eq_iff id k), refl)
    | inr (g, n) ↦ (
      g,
      ground (arith, n, h, ap (Dict.get d) e),
      ground (arith, n, h, p.test_iff g.content f.content),
    )
  ]

  appended-Sound :
      (r : OperationRequest J) (result : OperationResult J I) (s : Journal J P)
      (o : Option (Dict.Dict String (ResultFact P)))
      → append_fact same_result_fact s.results
          (identity_of sv registry r)
          (result_fact sv registry r result)
        ≡ o
      → Sound r s (elim o [
        | none ↦ raises s
        | some facts ↦
            returns
              (record result { body_ref = (sv.encode_result r result).1 })
              (record s { results = facts })
      ])
  appended-Sound r result s none h = Stays-refl (stored s)
  appended-Sound r result s (some d) h = (
    append-Stays (identity_of sv registry r) (result_fact sv registry r result) s.results d h,
    λ e.
        let (g, q, c) =
          append-content (identity_of sv registry r) (result_fact sv registry r result) s.results d
            h e in
        rw (q, c) (round_trip r result),
  )

  record_result-Sound :
      (r : OperationRequest J) (result : OperationResult J I) (s : Journal J P)
      → Sound r s (record_result sv registry r result s)
  unfolding record_result
  record_result-Sound r result s = appended-Sound r result s _ refl

  HasContent-Answers :
      (o : Option (ResultFact P)) (content : P) (result : OperationResult J I)
      → HasContent o content
      → sv.decode_result content ≡ some result
      → Answers o result
  HasContent-Answers none content result h d = absurd h
  HasContent-Answers (some f) content result h d = ap sv.decode_result h ∙ d

  decoded-Sound :
      (r : OperationRequest J) (content : P) (s : Journal J P) (o : Option (OperationResult J I))
      → sv.decode_result content ≡ o
      → (identity_of sv registry r ≡ k → HasContent (stored s) content)
      → Sound r s (decoded sv registry o s)
  decoded-Sound r content s none e h = Stays-refl (stored s)
  decoded-Sound r content s (some result) e h =
      (Stays-refl (stored s), λ q. HasContent-Answers (stored s) content result (h q) e)

  begin-Sound :
      (reading : Reading J I) (r : OperationRequest J) (d : OperationDefinition J) (s : Journal J P)
      → Sound r s (begin sv registry reading r d s)
  unfolding begin
  begin-Sound reading r d s = ground (arith, Stays-refl (stored s))

  resume_target-Sound :
      (reading : Reading J I) (r : OperationRequest J) (target : Option ResourceRef)
      (s : Journal J P)
      → Sound r s (resume_target sv registry reading r target s)
  unfolding begin
  resume_target-Sound reading r target s = ground (arith, Stays-refl (stored s))

  resumed-Sound :
      (reading : Reading J I) (r : OperationRequest J) (previous : RequestFact P) (s : Journal J P)
      (o : Option (ResultFact P))
      → Dict.get s.results (identity_of sv registry r) ≡ o
      → Sound r s (elim o [
        | some receipt ↦ goes (decoding receipt.content) s
        | none ↦ resume_target sv registry reading r previous.resolved s
      ])
  resumed-Sound reading r previous s none e = resume_target-Sound reading r previous.resolved s
  resumed-Sound reading r previous s (some receipt) e =
      (Stays-refl (stored s), λ q. rw (sym (ap (Dict.get s.results) q) ∙ e) refl)

  resume-Sound :
      (reading : Reading J I) (r : OperationRequest J) (previous : RequestFact P) (s : Journal J P)
      → Sound r s (resume sv registry reading r previous s)
  unfolding resume
  resume-Sound reading r previous s = resumed-Sound reading r previous s _ refl

  record_request-Sound :
      (r : OperationRequest J) (checked : Result Refusal (OperationDefinition J)) (s : Journal J P)
      → Sound r s (record_request sv registry r checked s)
  unfolding record_request
  record_request-Sound r checked s = ground (arith, Stays-refl (stored s))

  advance-Sound :
      (reading : Reading J I) (r : OperationRequest J) (stage : Stage J I P) (s : Journal J P)
      → (identity_of sv registry r ≡ k → HoldsContent (stored s) stage)
      → Sound r s (advance sv registry reading r stage s)
  unfolding advance
  advance-Sound reading r queued s h = (Stays-refl (stored s), λ e. tt)
  advance-Sound reading r checking s h = ground (arith, Stays-refl (stored s))
  advance-Sound reading r (comparing previous) s h = ground (arith, Stays-refl (stored s))
  advance-Sound reading r (looking previous) s h = resume-Sound reading r previous s
  advance-Sound reading r (decoding content) s h = decoded-Sound r content s _ refl h
  advance-Sound reading r (recording checked) s h = record_request-Sound r checked s
  advance-Sound reading r (starting d) s h = begin-Sound reading r d s
  advance-Sound reading r (handling d) s h = (Stays-refl (stored s), λ e. tt)
  advance-Sound reading r (reporting result) s h = record_result-Sound r result s

  moved :
      (o o' : Option (ResultFact P))
      → Stays o o'
      → (calls : List (Call J I P)) → All (IsCallSound o) calls
      → All (IsCallSound o') calls
  moved o o' t calls h =
      All-weaken (IsCallSound o) (IsCallSound o') calls
        (λ c f e. Stays-HoldsContent o o' c.stage t (f e)) h

  moved_answers :
      (o o' : Option (ResultFact P))
      → Stays o o'
      → (answers : List (String × OperationResult J I)) → All (IsAnswerSound o) answers
      → All (IsAnswerSound o') answers
  moved_answers o o' t answers h =
      All-weaken (IsAnswerSound o) (IsAnswerSound o') answers
        (λ a f e. Stays-Answers o o' a.1 t (f e)) h

  settle-IsSound :
      (i : ℕ) (c : Call J I P) (next : Next J I P) (s : System J I P)
      → Sound c.request s.journal next
      → IsSound s
      → IsSound (settle sv registry i c next s)
  unfolding leave
  settle-IsSound i c (goes stage journal) s n h = record {
    calls =
        All-replace_at (IsCallSound (stored journal)) s.calls i (record c { stage = stage }) n.1
          (moved (stored s.journal) (stored journal) n.0 s.calls h.calls);
    answers = moved_answers (stored s.journal) (stored journal) n.0 s.answered h.answers;
  }
  settle-IsSound i c (returns result journal) s n h = record {
    calls =
        All-remove_at (IsCallSound (stored journal)) s.calls i
          (moved (stored s.journal) (stored journal) n.0 s.calls h.calls);
    answers = (n.1, moved_answers (stored s.journal) (stored journal) n.0 s.answered h.answers);
  }
  settle-IsSound i c (raises journal) s n h = record {
    calls =
        All-remove_at (IsCallSound (stored journal)) s.calls i
          (moved (stored s.journal) (stored journal) n s.calls h.calls);
    answers = moved_answers (stored s.journal) (stored journal) n s.answered h.answers;
  }

  enter-IsSound :
      (i : ℕ) (c : Call J I P) (s : System J I P) → IsSound s → IsSound (enter sv registry i c s)
  unfolding enter
  enter-IsSound i c s h =
      if_case IsSound
        (is_free sv registry (slot_of sv registry s (identity_of sv registry c.request))) _ _
        (λ f. record {
          calls =
              All-replace_at (IsCallSound (stored s.journal)) s.calls i
                (record c { stage = checking }) (λ e. tt) h.calls;
          answers = h.answers;
        })
        (λ f. h)

  proceed-IsSound :
      (i : ℕ) (reading : Reading J I) (o : Option (Call J I P)) (s : System J I P)
      → get_elem? s.calls i ≡ o
      → IsSound s
      → IsSound (proceed_call sv registry i reading o s)
  proceed-IsSound i reading none s e h = h
  proceed-IsSound i reading (some c) s e h =
      if_case IsSound (is_queued sv registry c.stage) _ _ (λ q. enter-IsSound i c s h)
        (λ q.
          settle-IsSound i c (advance sv registry reading c.request c.stage s.journal) s
            (advance-Sound reading c.request c.stage s.journal
              (All-get_elem? (IsCallSound (stored s.journal)) s.calls i c e h.calls))
            h)

  lose-IsSound :
      (i : ℕ) (o : Option (Call J I P)) (s : System J I P)
      → IsSound s
      → IsSound (lose_call sv registry i o s)
  unfolding leave drop_waiter
  lose-IsSound i none s h = h
  lose-IsSound i (some c) s h =
      if_case IsSound (is_queued sv registry c.stage) _ _
        (λ q. record {
          calls = All-remove_at (IsCallSound (stored s.journal)) s.calls i h.calls;
          answers = h.answers;
        })
        (λ q. record {
          calls = All-remove_at (IsCallSound (stored s.journal)) s.calls i h.calls;
          answers = h.answers;
        })

  begin_call-IsSound :
      (task : ℕ) (r : OperationRequest J) (s : System J I P)
      → IsSound s
      → IsSound (begin_call sv registry task r s)
  unfolding begin_call
  begin_call-IsSound task r s h =
      let more : All (IsCallSound (stored s.journal))
          (record { task = task; request = r; stage = queued } ∷ s.calls) =
        (λ e. tt, h.calls) in
      if_case IsSound (not (r.bot_id == registry.bot_id)) _ _ (λ b. h)
        (λ b.
          if_case IsSound ((slot_of sv registry s (identity_of sv registry r)).owner == some task) _
            _ (λ o. record { calls = h.calls; answers = h.answers })
            (λ o. record { calls = more; answers = h.answers }))

  step-IsSound :
      (event : Event J I) (s : System J I P) → IsSound s → IsSound (step sv registry event s)
  unfolding step
  step-IsSound (arrive task r) s h = begin_call-IsSound task r s h
  step-IsSound (proceed i reading) s h = proceed-IsSound i reading (get_elem? s.calls i) s refl h
  step-IsSound (lose i) s h = lose-IsSound i (get_elem? s.calls i) s h
  step-IsSound restart s h = record { calls = tt; answers = h.answers }

  run-IsSound :
      (events : List (Event J I)) (s : System J I P)
      → IsSound s
      → IsSound (run sv registry events s)
  unfolding run
  run-IsSound [] s h = h
  run-IsSound (event ∷ events) s h =
      run-IsSound events (step sv registry event s) (step-IsSound event s h)

  -- Where a stored result is read back as it was returned: in any course of dispatches,
  -- interleavings, failures and restarts, each answer given for an identity is the result that the
  -- journal holds for it at the end, so that all answers for one identity are the same.
  pub run-answers :
      (events : List (Event J I))
      → All
          (IsAnswerSound (Dict.get (run sv registry events idle).journal.results k))
          (run sv registry events idle).answered
  run-answers events = (run-IsSound events idle (record { calls = tt; answers = tt })).answers
