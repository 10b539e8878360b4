-- ===== src/World/Insert.antt =====
-- `append_commits` of src/aurora_bot/world/store.py on an input whose identity is new: the row that
-- it adds, and that the invariant is kept.
use aurora_bot.Prelude.{
  ℕ, ◌+◌, ◌≤◌, ◌<◌, String, ◌≡◌, refl, ◌∙◌, sym, false, true, ◌||◌, Option, none, some, List, [],
  ◌∷◌, ◌++◌, map, arith, eq_iff, Eq, ◌==◌, string_eq, All, All-weaken, any, contains, is_blank,
  Result, ok, err, sorted, str_le, Bool-cases, Option-cases, inl, inr, is_empty, contains-sorted,
  sorted-Distinct, any-sorted, nat_beq, contains-ne,
}
use aurora_bot.Prelude.Dict.{Dict}
use aurora_bot.World.Frontier.{WorldError, naive_time, world_frontier}
use aurora_bot.World.Commit.{CommitInput, WorldCommit, check_input, lacks_identity, check_commit}
use aurora_bot.World.Dense.{assigned, keys-assigned, allocate-sequences}
use aurora_bot.World.Journal.{
  CommitRow, ScopeRow, BaseRow, Journal, Keys, Session, top, load_commit, scopes_of, bases_of,
  last_recorded, allocate_sequences, add_scope_rows, add_base_rows, insert_row, not_before, time_or,
}
use aurora_bot.World.Rows.{
  scopes_of-add_scope_rows, bases_of-add_base_rows, scopes_of-add_scope_rows_ne,
  bases_of-add_base_rows_ne,
}
use aurora_bot.World.Valid.{IsInput, IsValid, IsOpen, ids, last_recorded-bound, last_recorded-none}

module _ {P : Type 0} (k : Keys) (s : Session P) (item : CommitInput P) where
  abbrev pub new_sequences : Dict String ℕ
  new_sequences = assigned (λ scope. top s.db.scope_rows scope + 1) (sorted str_le item.scopes)

  abbrev pub new_row : ℕ → CommitRow P
  new_row reading = record {
    insertion_sequence = k.next_key (map (λ r. r.insertion_sequence) s.db.commits);
    commit_id = item.commit_id;
    kind = item.kind;
    source = item.source;
    summary = item.summary;
    occurred_at = time_or item.occurred_at (not_before s.last_recorded_at reading);
    recorded_at = not_before s.last_recorded_at reading;
    payload = item.payload;
  }

  -- The journal with the new row.
  abbrev pub extended : ℕ → Journal P
  extended reading = record {
    commits = new_row reading ∷ s.db.commits;
    scope_rows = add_scope_rows item.commit_id new_sequences s.db.scope_rows;
    base_rows = add_base_rows item.commit_id item.based_on.positions s.db.base_rows;
  }

  abbrev pub inserted : ℕ → Session P
  inserted reading = record {
    db = extended reading;
    next_sequences = (allocate_sequences s.db.scope_rows item.scopes s.next_sequences).1;
    appended = s.appended ++ new_row reading ∷ [];
    last_recorded_at = some (not_before s.last_recorded_at reading);
    readings = s.readings + 1;
  }

  abbrev pub after_reading : Option ℕ → Result WorldError (Session P)
  after_reading none = err naive_time
  after_reading (some reading) = ok (inserted reading)

module _ {P : Type 0} ⦃e : Eq P⦄ (k : Keys) (now : ℕ → Option ℕ) where
  -- The cached sequences are those of the table, so the new rows have them.
  pub insert_row-inserted :
      (s : Session P) (item : CommitInput P)
      → IsOpen s
      → IsInput item
      → insert_row k now s item ≡ after_reading k s item (now s.readings)
  unfolding insert_row allocate_sequences
  insert_row-inserted s item o i =
      let sequences =
        allocate-sequences s.db.scope_rows s.next_sequences [] (sorted str_le item.scopes)
          (sorted-Distinct str_le item.scopes i.scopes_Distinct) (λ scope c. o.fresh scope)
          (λ scope c. refl) in
      elim (Option-cases (now s.readings)) [
        | inl n ↦ rw (n, insert_row)
        | inr (t, r) ↦ rw (r, insert_row) (rw sequences)
      ]

module _ {P : Type 0} (s : Session P) where
  pub keys_above :
      (n : ℕ) (rows : List (CommitRow P))
      → All (λ key. key < n) (map (λ r. r.insertion_sequence) rows)
      → All (λ r. r.insertion_sequence < n) rows
  keys_above n [] h = tt
  keys_above n (row ∷ rows) h = (h.0, keys_above n rows h.1)

  pub not_before-bound :
      (o : Option ℕ) (t : ℕ)
      → o ≡ last_recorded s.db.commits
      → All (λ r. r.recorded_at ≤ not_before o t) s.db.commits
  not_before-bound none t h = last_recorded-none s.db.commits t (sym h)
  not_before-bound (some m) t h =
      All-weaken (λ r. r.recorded_at ≤ m) _ s.db.commits (λ r le. omega arith)
        (last_recorded-bound s.db.commits m (sym h))

-- The owners of the partition rows stay in the table, and the new rows' owner is in it.
pub owned-add_scope_rows :
    (ids : List String) (id : String) (entries : Dict String ℕ) (rows : List ScopeRow)
    → All (λ r. contains ids r.commit_id ≡ true) rows
    → All (λ r. contains (id ∷ ids) r.commit_id ≡ true) (add_scope_rows id entries rows)
unfolding add_scope_rows
owned-add_scope_rows ids id entries rows h =
    go entries rows (All-weaken _ _ rows (λ r c. ground (arith, eq_iff id r.commit_id)) h)
  where
    go :
        (es : Dict String ℕ) (rs : List ScopeRow)
        → All (λ r. contains (id ∷ ids) r.commit_id ≡ true) rs
        → All (λ r. contains (id ∷ ids) r.commit_id ≡ true) (add_scope_rows id es rs)
    go [] rs a = a
    go ((scope, n) ∷ es) rs a = go es _ (ground (arith, eq_iff id id), a)

pub owned-add_base_rows :
    (ids : List String) (id : String) (entries : Dict String ℕ) (rows : List BaseRow)
    → All (λ r. contains ids r.commit_id ≡ true) rows
    → All (λ r. contains (id ∷ ids) r.commit_id ≡ true) (add_base_rows id entries rows)
unfolding add_base_rows
owned-add_base_rows ids id entries rows h =
    go entries rows (All-weaken _ _ rows (λ r c. ground (arith, eq_iff id r.commit_id)) h)
  where
    go :
        (es : Dict String ℕ) (rs : List BaseRow)
        → All (λ r. contains (id ∷ ids) r.commit_id ≡ true) rs
        → All (λ r. contains (id ∷ ids) r.commit_id ≡ true) (add_base_rows id es rs)
    go [] rs a = a
    go ((scope, n) ∷ es) rs a = go es _ (ground (arith, eq_iff id id), a)

-- A table without rows of a commit gives it no scopes.
pub scopes_of-absent :
    (ids : List String) (id : String) (rows : List ScopeRow)
    → All (λ r. contains ids r.commit_id ≡ true) rows
    → contains ids id ≡ false
    → scopes_of rows id ≡ []
unfolding scopes_of
scopes_of-absent ids id [] h a = refl
scopes_of-absent ids id (r ∷ rows) h a =
    rw (contains-ne ids r.commit_id id h.0 a) (scopes_of-absent ids id rows h.1 a)

pub bases_of-absent :
    (ids : List String) (id : String) (rows : List BaseRow)
    → All (λ r. contains ids r.commit_id ≡ true) rows
    → contains ids id ≡ false
    → bases_of rows id ≡ []
unfolding bases_of
bases_of-absent ids id [] h a = refl
bases_of-absent ids id (r ∷ rows) h a =
    rw (contains-ne ids r.commit_id id h.0 a) (bases_of-absent ids id rows h.1 a)

any_blank-assigned :
    (f : String → ℕ) (scopes : List String)
    → any is_blank scopes ≡ false
    → any (λ entry. is_blank entry.0 || nat_beq entry.1 0) (assigned (λ x. f x + 1) scopes) ≡ false
any_blank-assigned f [] h = refl
any_blank-assigned f (x ∷ scopes) h = ground (arith, any_blank-assigned f scopes)

is_empty-contains : (xs : List String) (x : String) → contains xs x ≡ true → is_empty xs ≡ false
is_empty-contains [] x h = absurd (cc)
is_empty-contains (y ∷ xs) x h = refl

is_empty-assigned :
    (f : String → ℕ) (scopes : List String) → is_empty (assigned f scopes) ≡ is_empty scopes
is_empty-assigned f [] = refl
is_empty-assigned f (x ∷ scopes) = refl

is_empty-sorted : (scopes : List String) → is_empty (sorted str_le scopes) ≡ is_empty scopes
is_empty-sorted [] = unfold sorted in refl
is_empty-sorted (x ∷ scopes) =
    is_empty-contains (sorted str_le (x ∷ scopes)) x
      (contains-sorted str_le (x ∷ scopes) x ∙ ground (arith, eq_iff x x))

-- What the constructor of `WorldCommitInput` has tested.
abbrev IsChecked : {P : Type 0} → CommitInput P → Type 0
IsChecked item =
    (lacks_identity item.commit_id item.kind item.source item.summary ≡ false)
    × (is_empty item.scopes ≡ false)
    × (any is_blank item.scopes ≡ false)

IsChecked-of_input :
    {P : Type 0} (item : CommitInput P) → check_input item ≡ ok item → IsChecked item
unfolding check_input
IsChecked-of_input item h =
    elim (Bool-cases (lacks_identity item.commit_id item.kind item.source item.summary)) [
      | inl t ↦ absurd (ground arith)
      | inr f ↦ ground arith
    ]

module _ {P : Type 0} (k : Keys) (s : Session P) (item : CommitInput P) (t : ℕ) where
  -- A row with another identity reads as before.
  pub load_commit-extended :
      (row : CommitRow P)
      → (item.commit_id == row.commit_id) ≡ false
      → load_commit (extended k s item t) row ≡ load_commit s.db row
  unfolding load_commit
  load_commit-extended row h =
      rw
        (scopes_of-add_scope_rows_ne item.commit_id row.commit_id (new_sequences k s item)
          s.db.scope_rows h)
        (rw
          (bases_of-add_base_rows_ne item.commit_id row.commit_id item.based_on.positions
            s.db.base_rows h)
          refl)

  -- The commit that the new row reads back as.
  abbrev pub new_commit : WorldCommit P
  new_commit = record {
    commit_id = item.commit_id;
    kind = item.kind;
    source = item.source;
    summary = item.summary;
    occurred_at = (new_row k s item t).occurred_at;
    scopes = new_sequences k s item;
    based_on = item.based_on;
    payload = item.payload;
    cursor = (new_row k s item t).insertion_sequence;
    recorded_at = (new_row k s item t).recorded_at;
  }

  pub load_commit-new_row :
      IsValid s.db
      → IsInput item
      → contains (ids s.db.commits) item.commit_id ≡ false
      → load_commit (extended k s item t) (new_row k s item t) ≡ ok new_commit
  unfolding load_commit check_commit world_frontier
  load_commit-new_row v i a =
      let scopes = sorted str_le item.scopes in
      let f : String → ℕ = λ x. top s.db.scope_rows x + 1 in
      let no_scopes =
        scopes_of-absent (ids s.db.commits) item.commit_id s.db.scope_rows v.scopes_owned a in
      let no_bases =
        bases_of-absent (ids s.db.commits) item.commit_id s.db.base_rows v.bases_owned a in
      let checked = IsChecked-of_input item i.checked in
      rw
        (scopes_of-add_scope_rows item.commit_id (assigned f scopes) s.db.scope_rows
          (rw (keys-assigned f scopes) (sorted-Distinct str_le item.scopes i.scopes_Distinct))
          (λ x c. rw no_scopes refl))
        (rw
          (bases_of-add_base_rows item.commit_id item.based_on.positions s.db.base_rows
            i.base_Distinct (λ x c. rw no_bases refl))
          (rw (no_scopes, no_bases, i.base_named, checked.0)
            (rw
              (
                any_blank-assigned (top s.db.scope_rows) scopes
                    (any-sorted str_le is_blank item.scopes ∙ checked.2),
                is_empty-assigned f scopes,
                is_empty-sorted item.scopes,
                checked.1,
              )
              refl)))
