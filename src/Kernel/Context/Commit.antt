-- ===== src/Kernel/Context/Commit.antt =====
-- Transactions of src/aurora_kernel/context.py: nothing or everything, and no lost update.
use aurora_bot.Prelude.{
  ℕ, ◌+◌, ◌<◌, ◌≡◌, ◌⊎◌, refl, ap, sym, ◌∙◌, String, Bool, true, false, not, ◌&&◌, Option, none,
  some, List, [], ◌∷◌, string_eq, nat_eq, nat_beq_iff, ◌==◌, arith, is_empty, all, contains,
  if_case, Bool-cases, inl, inr, ==_refl,
}
use aurora_bot.Prelude.Dict
use aurora_bot.Prelude.Dict.{Dict, put-put, put-get_or, get_or-put, contains-keys-put}
use aurora_bot.Kernel.Context.State.{
  Context, Outcome, returned, raised, left, note, notify, publish, ensure, set_item, delete_item,
  staged_of, commit_staged, finish, transaction, assign, update, ContextError, add_places, is_name,
  invalid_name, cyclic_value, Place,
}

-- What others may do to a context.
pub data Write (V : Type 0) : Type 0 where
  ensures : String → Write V
  sets : String → String → V → Write V
  deletes : String → String → Write V

is_empty-add_places :
    (p : Place) (changed : List Place) → is_empty (add_places (p ∷ []) changed) ≡ false
unfolding add_places
is_empty-add_places p [] = refl
is_empty-add_places p (q ∷ changed) = ground arith

module _ {V : Type 0} (is_cyclic : V → Bool) where
  unfoldable pub step : Write V → Context V → Context V
  step (ensures namespace) s = left (ensure namespace s)
  step (sets namespace key value) s = left (set_item is_cyclic namespace key value s)
  step (deletes namespace key) s = left (delete_item namespace key s)

  unfoldable pub steps : List (Write V) → Context V → Context V
  unfolding step
  steps [] s = s
  steps (w ∷ ws) s = steps ws (step w s)

  -- Nothing has changed, or the revision is later.
  abbrev Moved : Context V → Context V → Type 0
  Moved s s' = ((s'.values ≡ s.values) × (s'.revision ≡ s.revision)) ⊎ (s.revision < s'.revision)

  step-Moved : (w : Write V) (s : Context V) → Moved s (step w s)
  unfolding step ensure set_item delete_item publish note notify
  step-Moved (ensures namespace) s = ground arith
  step-Moved (sets namespace key value) s = ground arith
  step-Moved (deletes namespace key) s = ground arith

  steps-Moved : (ws : List (Write V)) (s : Context V) → Moved s (steps ws s)
  unfolding steps
  steps-Moved [] s = inl (refl, refl)
  steps-Moved (w ∷ ws) s = ground (arith, step-Moved w s, steps-Moved ws (step w s))

  -- A transaction leaves the context as the others left it, or it commits: then the others have
  -- changed nothing since it began, the values are those that its body left, and the revision is
  -- one more.
  abbrev pub Serial : Context V → Context V → Outcome V → Outcome V → Type 0
  Serial s s' staged r =
      (left r ≡ s')
      ⊎ ((s'.values ≡ s.values)
          × ((left r).values ≡ (left staged).values)
          × ((left r).revision ≡ s.revision + 1))

  finish-Serial :
      (s s' : Context V) (staged : Outcome V)
      → Moved s s'
      → Serial s s' staged (finish s.revision staged s')
  unfolding commit_staged publish note notify
  finish-Serial s s' (raised e t) m = inl refl
  finish-Serial s s' (returned t) m = ground (arith, nat_beq_iff s'.revision s.revision)

  -- Whatever the body of a transaction does and whatever others write in the meantime, the
  -- transaction leaves the context as the others left it, or commits: then the others have changed
  -- nothing since it began, the values are exactly those that its body left, and the revision is one
  -- more than when it began.
  pub transaction-Serial :
      (expected : Option ℕ) (body : Context V → Outcome V) (ws : List (Write V)) (s : Context V)
      → (left (transaction expected body (steps ws) s) ≡ s)
        ⊎ Serial s (steps ws s) (body (staged_of s)) (transaction expected body (steps ws) s)
  unfolding transaction
  transaction-Serial none body ws s =
      inr (finish-Serial s (steps ws s) (body (staged_of s)) (steps-Moved ws s))
  transaction-Serial (some n) body ws s =
      if_case (λ (r : Outcome V). (left r ≡ s) ⊎ Serial s (steps ws s) (body (staged_of s)) r)
        (not (n == s.revision)) _ _ (λ b. inl refl)
        (λ b. inr (finish-Serial s (steps ws s) (body (staged_of s)) (steps-Moved ws s)))

  -- The names are names and the values are not cyclic.
  abbrev pub acceptable : Dict String V → Bool
  acceptable values = all (λ entry. is_name entry.0 && not (is_cyclic entry.1)) values

  -- A copy that nobody watches or shares.
  record Private (namespace : String) (s : Context V) : Type 0 where
    quiet : s.notifying ≡ false
    unwatched : s.watchers ≡ []
    present : contains (Dict.keys s.values) namespace ≡ true

  -- One assignment on such a copy.
  assigned : String → String → V → Context V → Context V
  assigned namespace key value s = note ((namespace, key) ∷ []) (record s {
    values = Dict.put s.values namespace (Dict.put (Dict.get_or s.values namespace []) key value);
  })

  set_item-Private :
      (namespace key : String) (value : V) (s : Context V)
      → Private namespace s
      → is_name key ≡ true
      → is_cyclic value ≡ false
      → set_item is_cyclic namespace key value s ≡ returned (assigned namespace key value s)
  unfolding set_item publish notify assigned note
  set_item-Private namespace key value s q n c = rw (n, c, q.quiet, q.unwatched)

  assigned-Private :
      (namespace key : String) (value : V) (s : Context V)
      → Private namespace s
      → Private namespace (assigned namespace key value s)
  unfolding assigned note
  assigned-Private namespace key value s q = record {
    quiet = q.quiet;
    unwatched = q.unwatched;
    present = contains-keys-put s.values namespace namespace _ ∙ ground (arith, q.present);
  }

  assign-good :
      (namespace : String) (values : Dict String V) (s : Context V)
      → Private namespace s
      → acceptable values ≡ true
      → (t : Context V) × (assign is_cyclic namespace values s ≡ returned t)
        × (t.values
            ≡ Dict.put s.values namespace (Dict.put_all values (Dict.get_or s.values namespace [])))
        × (is_empty t.changed ≡ (is_empty s.changed && is_empty values))
  unfolding assign Dict.put_all
  assign-good namespace [] s q a =
      (s, refl, sym (put-get_or s.values namespace [] q.present), ground arith)
  assign-good namespace ((k, v) ∷ values) s q a =
      let (t, e, w, c) =
        assign-good namespace values (assigned namespace k v s) (assigned-Private namespace k v s q)
          (ground arith) in
      (
        t,
        rw (q.present, set_item-Private namespace k v s q (ground arith) (ground arith)) e,
        w
            ∙ unfold assigned note in
              (ap
                  (λ d.
                    Dict.put
                      (Dict.put s.values namespace
                        (Dict.put (Dict.get_or s.values namespace []) k v))
                      namespace (Dict.put_all values d))
                  (get_or-put s.values namespace namespace _ [] ∙ rw (==_refl namespace))
                ∙ put-put s.values namespace _ _),
        c ∙ unfold assigned note in ground (arith, is_empty-add_places (namespace, k) s.changed),
      )

  assign-bad :
      (namespace : String) (values : Dict String V) (s : Context V)
      → Private namespace s
      → acceptable values ≡ false
      → (e : ContextError) × (t : Context V) × (assign is_cyclic namespace values s ≡ raised e t)
  unfolding assign
  assign-bad namespace [] s q a = absurd (cc)
  assign-bad namespace ((k, v) ∷ values) s q a = elim (Bool-cases (is_name k)) [
    | inr n ↦ (invalid_name, s, rw (q.present, set_item) (rw n))
    | inl n ↦ elim (Bool-cases (is_cyclic v)) [
      | inl c ↦ (cyclic_value, s, rw (q.present, set_item) (rw (n, c)))
      | inr c ↦
          let (e, t, h) =
            assign-bad namespace values (assigned namespace k v s)
              (assigned-Private namespace k v s q) (ground arith) in
          (e, t, rw (q.present, set_item-Private namespace k v s q n c) h)
    ]
  ]

  -- An update takes effect when it gives some value, every key is a name, no value is cyclic, and no
  -- watcher is being notified.
  abbrev pub takes_effect : Dict String V → Context V → Bool
  takes_effect values s = acceptable values && not (is_empty values) && not s.notifying

  abbrev pub Updated : String → Dict String V → Context V → Context V → Type 0
  Updated namespace values s s' =
      (takes_effect values s ≡ true
        → (s'.values
            ≡ Dict.put s.values namespace (Dict.put_all values (Dict.get_or s.values namespace [])))
          × (s'.revision ≡ s.revision + 1))
      × (takes_effect values s ≡ false → s' ≡ s)

  staged-Private :
      (namespace : String) (s : Context V)
      → contains (Dict.keys s.values) namespace ≡ true
      → Private namespace (staged_of s)
  unfolding staged_of
  staged-Private namespace s h = record { quiet = refl; unwatched = refl; present = h }

  -- Where nobody else writes in the meantime, an update of a registered namespace makes all its
  -- assignments, in order and as one revision, when it takes effect, and else leaves the context as
  -- it was.
  pub update-Updated :
      (namespace : String) (values : Dict String V) (s : Context V)
      → contains (Dict.keys s.values) namespace ≡ true
      → Updated namespace values s (left (update is_cyclic namespace values (λ x. x) s))
  unfolding update transaction commit_staged publish notify note staged_of
  update-Updated namespace values s h = elim (Bool-cases (acceptable values)) [
    | inl a ↦
        let (t, e, w, c) =
          assign-good namespace values (staged_of s) (staged-Private namespace s h) a in
        rw (e, finish) (ground (arith, a, w, c, nat_beq_iff s.revision s.revision))
    | inr a ↦
        let (x, t, e) =
          assign-bad namespace values (staged_of s) (staged-Private namespace s h) a in
        rw (e, finish) (λ k. absurd (ground arith), λ k. refl)
  ]
