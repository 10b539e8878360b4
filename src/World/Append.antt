-- ===== src/World/Append.antt =====
-- `append_commits` of src/aurora_bot/world/store.py: it keeps the invariant of the journal, stores
-- what it was given, and a repeated batch finds what the first one stored.
use aurora_bot.Prelude.{
  ℕ, ◌+◌, String, ◌≡◌, refl, ap, ◌∙◌, subst, false, true, Option, none, some, List, [], ◌∷◌, ◌++◌,
  map, arith, eq_iff, Eq, ◌==◌, string_eq, All, contains, ok, sorted, str_le, Bool-cases,
  Option-cases, inl, inr, contains-sorted, sorted-Distinct, contains-ne, ==_refl, nat_beq_iff,
  bind-eq-ok,
}
use aurora_bot.Prelude.Dict
use aurora_bot.Prelude.Dict.{Dict}
use aurora_bot.World.Commit.{CommitInput, WorldCommit, matches_input, same_time}
use aurora_bot.World.Dense.{
  assigned, keys-assigned, allocate-next, top-add_scope_rows, add_scope_rows-IsDense,
}
use aurora_bot.World.Journal.{
  CommitRow, Journal, Keys, Session, top, next_sequence, load_commit, last_recorded, find_row,
  allocate_sequences, insert_row, not_before, time_or, reuse_row, append_one,
}
use aurora_bot.World.Rows.{same_set-contains, same_dict_refl}
use aurora_bot.World.Valid.{
  IsInput, IsValid, IsOpen, ids, Loads, find_row-contains, find_row-absent,
}
use aurora_bot.World.Insert.{
  new_sequences, new_row, extended, inserted, after_reading, insert_row-inserted, keys_above,
  not_before-bound, owned-add_scope_rows, owned-add_base_rows, load_commit-extended, new_commit,
  load_commit-new_row,
}

-- The item's identity is in the table, and its row reads back as a commit that matches the item.
pub record IsStored {P : Type 0} ⦃e : Eq P⦄ (db : Journal P) (item : CommitInput P)
    (row : CommitRow P) (c : WorldCommit P) : Type 0 where
  pub found : find_row db.commits item.commit_id ≡ some row
  pub loaded : load_commit db row ≡ ok c
  pub matched : matches_input c item ≡ true

module _ {P : Type 0} (k : Keys) (s : Session P) (item : CommitInput P) (t : ℕ) (o : IsOpen s)
    (i : IsInput item) (a : contains (ids s.db.commits) item.commit_id ≡ false) where
  whole_extended :
      (rows : List (CommitRow P))
      → contains (ids rows) item.commit_id ≡ false
      → All (Loads s.db) rows
      → All (Loads (extended k s item t)) rows
  whole_extended [] b h = tt
  whole_extended (row ∷ rows) b h = (
    (h.0.0, load_commit-extended k s item t row (ne row (ground arith)) ∙ h.0.1),
    whole_extended rows (ground arith) h.1,
  )
    where
      ne :
          (r : CommitRow P)
          → (r.commit_id == item.commit_id) ≡ false
          → (item.commit_id == r.commit_id) ≡ false
      ne r h = ground (arith, eq_iff r.commit_id item.commit_id, eq_iff item.commit_id r.commit_id)

  extended-IsValid : IsValid (extended k s item t)
  extended-IsValid =
      let v = o.valid in
      record {
        dense =
            add_scope_rows-IsDense item.commit_id (λ x. top s.db.scope_rows x + 1)
              (sorted str_le item.scopes) s.db.scope_rows
              (sorted-Distinct str_le item.scopes i.scopes_Distinct) (λ x c. refl) v.dense;
        keys = (
          keys_above s _ s.db.commits
              (k.next_key_above (map (λ r. r.insertion_sequence) s.db.commits)),
          v.keys,
        );
        times = (not_before-bound s s.last_recorded_at t o.clock, v.times);
        identities = (a, v.identities);
        scopes_owned =
            owned-add_scope_rows (ids s.db.commits) item.commit_id (new_sequences k s item)
              s.db.scope_rows v.scopes_owned;
        bases_owned =
            owned-add_base_rows (ids s.db.commits) item.commit_id item.based_on.positions
              s.db.base_rows v.bases_owned;
        whole = (
          (new_commit k s item t, load_commit-new_row k s item t v i a),
          whole_extended s.db.commits a v.whole,
        );
      }

  clock_extended :
      (o : Option ℕ)
      → o ≡ last_recorded s.db.commits
      → some (not_before o t)
        ≡ last_recorded
            (record (new_row k s item t) { recorded_at = not_before o t } ∷ s.db.commits)
  unfolding last_recorded
  clock_extended none h = ground arith
  clock_extended (some m) h = ground arith

  fresh_extended :
      (x : String)
      → next_sequence (extended k s item t).scope_rows (inserted k s item t).next_sequences x
        ≡ top (extended k s item t).scope_rows x + 1
  unfolding allocate_sequences
  fresh_extended x =
      let scopes = sorted str_le item.scopes in
      let d = sorted-Distinct str_le item.scopes i.scopes_Distinct in
      unfold next_sequence in
      ground (
        arith,
        allocate-next s.db.scope_rows s.next_sequences [] scopes x d,
        o.fresh x,
        top-add_scope_rows item.commit_id (λ y. top s.db.scope_rows y + 1) scopes s.db.scope_rows x
            d,
      )

  pub inserted-IsOpen : IsOpen (inserted k s item t)
  inserted-IsOpen = record {
    valid = extended-IsValid;
    fresh = fresh_extended;
    clock = clock_extended s.last_recorded_at o.clock;
  }

  -- The new commit matches the item that it was made of.
  matches_input-new_commit : ⦃e : Eq P⦄ → matches_input (new_commit k s item t) item ≡ true
  unfolding matches_input
  matches_input-new_commit ⦃e⦄ =
      let f : String → ℕ = λ x. top s.db.scope_rows x + 1 in
      let scopes = sorted str_le item.scopes in
      rw (==_refl item.kind) (
        rw (==_refl item.source) (
          rw (==_refl item.summary) (
            rw
              (
                same_set-contains (Dict.keys (assigned f scopes)) item.scopes (λ x.
                    ap (λ l. contains l x) (keys-assigned f scopes)
                    ∙ contains-sorted str_le item.scopes x),
                same_dict_refl item.based_on.positions i.base_Distinct,
                (e.test_iff item.payload item.payload).1 refl,
              )
              (given item.occurred_at))))
    where
      given : (o : Option ℕ) → same_time o (time_or o (not_before s.last_recorded_at t)) ≡ true
      given none = refl
      given (some m) = (nat_beq_iff m m).1 refl

module _ {P : Type 0} ⦃e : Eq P⦄ where
  -- What one step of the loop leaves: the item is stored, and what was stored stays.
  pub record Appended (s : Session P) (item : CommitInput P) (s' : Session P) (row : CommitRow P)
      (c : WorldCommit P) : Type 0 where
    pub open_after : IsOpen s'
    pub stored : IsStored s'.db item row c
    pub listed : s'.appended ≡ s.appended ++ row ∷ []
    pub keeps :
        (other : CommitInput P) (row' : CommitRow P) (c' : WorldCommit P)
        → IsStored s.db other row' c'
        → IsStored s'.db other row' c'
    pub added : List (CommitRow P)
    pub older : s'.db.commits ≡ added ++ s.db.commits

  module _ (k : Keys) (now : ℕ → Option ℕ) (s : Session P) (item : CommitInput P) where
    IsStored-extended :
        (t : ℕ)
        → contains (ids s.db.commits) item.commit_id ≡ false
        → (other : CommitInput P) (row : CommitRow P) (c : WorldCommit P)
        → IsStored s.db other row c
        → IsStored (extended k s item t) other row c
    IsStored-extended t a other row c h =
        let (there, same) = find_row-contains s.db.commits other.commit_id h.found in
        let ne : (item.commit_id == other.commit_id) ≡ false = ground (
          arith,
          eq_iff item.commit_id other.commit_id,
          contains-ne (ids s.db.commits) other.commit_id item.commit_id there a,
          eq_iff other.commit_id item.commit_id,
        ) in
        record {
          found = unfold find_row in rw ne h.found;
          loaded = load_commit-extended k s item t row (rw same ne) ∙ h.loaded;
          matched = h.matched;
        }

    inserted-Appended :
        (t : ℕ)
        → IsOpen s
        → IsInput item
        → contains (ids s.db.commits) item.commit_id ≡ false
        → Appended s item (inserted k s item t) (new_row k s item t) (new_commit k s item t)
    inserted-Appended t o i a = record {
      open_after = inserted-IsOpen k s item t o i a;
      stored = record {
        found = unfold find_row in rw (==_refl item.commit_id);
        loaded = load_commit-new_row k s item t o.valid i a;
        matched = matches_input-new_commit k s item t o i a;
      };
      listed = refl;
      keeps = IsStored-extended t a;
      added = new_row k s item t ∷ [];
      older = refl;
    }

    reuse_row-Appended :
        (existing : CommitRow P) {s' : Session P}
        → IsOpen s
        → find_row s.db.commits item.commit_id ≡ some existing
        → reuse_row k now s item existing ≡ ok s'
        → (c : WorldCommit P) × Appended s item s' existing c
    unfolding reuse_row
    reuse_row-Appended existing o f h =
        let (c, loaded, rest) = bind-eq-ok (load_commit s.db existing) _ h in
        elim (Bool-cases (matches_input c item)) [
          | inr bad ↦ absurd (ground arith)
          | inl good ↦
              let e : record s { appended = s.appended ++ existing ∷ [] } ≡ _ = ground arith in
              (
                c,
                subst (λ u. Appended s item u existing c) e
                    (record {
                      open_after = record { valid = o.valid; fresh = o.fresh; clock = o.clock };
                      stored = record { found = f; loaded = loaded; matched = good };
                      listed = refl;
                      keeps = λ other row' c' x. x;
                      added = [];
                      older = refl;
                    }),
              )
        ]

    pub append_one-found :
        (row : CommitRow P)
        → find_row s.db.commits item.commit_id ≡ some row
        → append_one k now s item ≡ reuse_row k now s item row
    unfolding append_one
    append_one-found row f = rw (f, append_one)

    pub append_one-new :
        find_row s.db.commits item.commit_id ≡ none
        → append_one k now s item ≡ insert_row k now s item
    unfolding append_one
    append_one-new n = rw (n, append_one)

    pub append_one-Appended :
        {s' : Session P}
        → IsOpen s
        → IsInput item
        → append_one k now s item ≡ ok s'
        → (row : CommitRow P) × (c : WorldCommit P) × Appended s item s' row c
    append_one-Appended {s'} o i h = elim (Option-cases (find_row s.db.commits item.commit_id)) [
      | inr (existing, f) ↦
          let h' : reuse_row k now s item existing ≡ ok s' = cc (append_one-found existing f) in
          let (c, r) = reuse_row-Appended existing o f h' in (existing, c, r)
      | inl n ↦
          let e = append_one-new n ∙ insert_row-inserted k now s item o i in
          elim (Option-cases (now s.readings)) [
            | inl stopped ↦ absurd (cc (e, ap (after_reading k s item) stopped))
            | inr (t, r) ↦
                let e' : inserted k s item t ≡ s' = cc (e, ap (after_reading k s item) r) in
                (
                  new_row k s item t,
                  new_commit k s item t,
                  subst (λ u. Appended s item u (new_row k s item t) (new_commit k s item t)) e'
                      (inserted-Appended t o i (find_row-absent s.db.commits item.commit_id n)),
                )
          ]
    ]
