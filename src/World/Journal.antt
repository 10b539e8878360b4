-- ===== src/World/Journal.antt =====
-- `SqlAlchemyWorldJournal` of src/aurora_bot/world/store.py over the tables of
-- src/aurora_bot/world/models.py. A table is a list of rows, the newest first. What SQLite decides
-- is a parameter: the primary key of a new row.
use aurora_bot.Prelude.{
  ℕ, ◌+◌, ◌<◌, max, String, not, Option, none, some, List, [], ◌∷◌, ◌++◌, map, Eq, ◌==◌, All, first,
  length, dedup, leb, nat_beq, sorted, str_le, string_eq, Result, ok, err, ◌>>=◌, ◌>>◌, refuse_if,
  traverse, if◌then◌else◌,
}
use aurora_bot.Prelude.Dict
use aurora_bot.Prelude.Dict.{Dict}
use aurora_bot.World.Frontier.{WorldError, duplicate_ids, reused_id, naive_time, world_frontier}
use aurora_bot.World.Commit.{CommitInput, WorldCommit, check_commit, matches_input}

-- WorldCommitRow
pub record CommitRow (P : Type 0) : Type 0 where
  pub insertion_sequence : ℕ
  pub commit_id : String
  pub kind : String
  pub source : String
  pub summary : String
  pub occurred_at : ℕ
  pub recorded_at : ℕ
  pub payload : P

-- WorldCommitScopeRow
pub record ScopeRow : Type 0 where
  pub commit_id : String
  pub scope : String
  pub sequence : ℕ

-- WorldCommitBaseRow
pub record BaseRow : Type 0 where
  pub commit_id : String
  pub scope : String
  pub sequence : ℕ

pub record Journal (P : Type 0) : Type 0 where
  pub commits : List (CommitRow P)
  pub scope_rows : List ScopeRow
  pub base_rows : List BaseRow

-- SQLite gives a new row a primary key above those in use.
pub record Keys : Type 0 where
  pub next_key : List ℕ → ℕ
  pub next_key_above : (used : List ℕ) → All (λ k. k < next_key used) used

abbrev pub empty : {P : Type 0} → Journal P
empty = record { commits = []; scope_rows = []; base_rows = [] }

-- select(func.max(sequence)).where(scope == ...), or 0
unfoldable pub top : List ScopeRow → String → ℕ
top [] scope = 0
top (r ∷ rows) scope = if r.scope == scope then max r.sequence (top rows scope) else top rows scope

-- The scopes and the base of one commit, as `_load_commits` groups them.
unfoldable pub scopes_of : List ScopeRow → String → Dict String ℕ
scopes_of [] id = []
scopes_of (r ∷ rows) id =
    let rest = scopes_of rows id in
    if r.commit_id == id then Dict.put rest r.scope r.sequence else rest

unfoldable pub bases_of : List BaseRow → String → Dict String ℕ
bases_of [] id = []
bases_of (r ∷ rows) id =
    let rest = bases_of rows id in
    if r.commit_id == id then Dict.put rest r.scope r.sequence else rest

-- _allocate_sequences: the loop over the sorted scopes.
unfoldable pub next_sequence : List ScopeRow → Dict String ℕ → String → ℕ
next_sequence rows next scope = elim (Dict.get next scope) [
  | none ↦ top rows scope + 1
  | some n ↦ n
]

unfoldable pub allocate :
    List ScopeRow → Dict String ℕ → Dict String ℕ → List String → Dict String ℕ × Dict String ℕ
allocate rows next sequences [] = (sequences, next)
allocate rows next sequences (scope ∷ rest) =
    let n = next_sequence rows next scope in
    allocate rows (Dict.put next scope (n + 1)) (Dict.put sequences scope n) rest

unfoldable pub allocate_sequences :
    List ScopeRow → List String → Dict String ℕ → Dict String ℕ × Dict String ℕ
unfolding allocate next_sequence
allocate_sequences rows scopes next = allocate rows next [] (sorted str_le scopes)

-- session.add_all(WorldCommitScopeRow(...) for scope, sequence in sequences.items())
unfoldable pub add_scope_rows : String → Dict String ℕ → List ScopeRow → List ScopeRow
add_scope_rows id [] rows = rows
add_scope_rows id ((scope, n) ∷ rest) rows =
    add_scope_rows id rest (record { commit_id = id; scope = scope; sequence = n } ∷ rows)

unfoldable pub add_base_rows : String → Dict String ℕ → List BaseRow → List BaseRow
add_base_rows id [] rows = rows
add_base_rows id ((scope, n) ∷ rest) rows =
    add_base_rows id rest (record { commit_id = id; scope = scope; sequence = n } ∷ rows)

module _ {P : Type 0} where
  -- _as_commit
  unfoldable pub as_commit :
      CommitRow P → Dict String ℕ → Dict String ℕ → Result WorldError (WorldCommit P)
  unfolding check_commit world_frontier
  as_commit row scopes based_on = do
    base ← world_frontier based_on
    check_commit (record {
      commit_id = row.commit_id;
      kind = row.kind;
      source = row.source;
      summary = row.summary;
      occurred_at = row.occurred_at;
      scopes = scopes;
      based_on = base;
      payload = row.payload;
      cursor = row.insertion_sequence;
      recorded_at = row.recorded_at;
    })

  unfoldable pub load_commit : Journal P → CommitRow P → Result WorldError (WorldCommit P)
  unfolding as_commit scopes_of bases_of
  load_commit db row =
      as_commit row (scopes_of db.scope_rows row.commit_id) (bases_of db.base_rows row.commit_id)

  -- _load_commits
  unfoldable pub load_commits :
      Journal P → List (CommitRow P) → Result WorldError (List (WorldCommit P))
  unfolding load_commit
  load_commits db rows = traverse (load_commit db) rows

  -- select(WorldCommitRow).where(commit_id == ...)
  unfoldable pub find_row : List (CommitRow P) → String → Option (CommitRow P)
  find_row rows id = first (λ row. row.commit_id == id) rows

  -- select(func.max(WorldCommitRow.recorded_at))
  unfoldable pub last_recorded : List (CommitRow P) → Option ℕ
  last_recorded [] = none
  last_recorded (row ∷ rows) = elim (last_recorded rows) [
    | none ↦ some row.recorded_at
    | some t ↦ some (max row.recorded_at t)
  ]

  -- order_by(insertion_sequence)
  unfoldable pub in_order : List (CommitRow P) → List (CommitRow P)
  unfolding sorted
  in_order rows = sorted (λ a b. leb a.insertion_sequence b.insertion_sequence) rows

-- The transaction of `append_commits` between two inputs.
pub record Session (P : Type 0) : Type 0 where
  pub db : Journal P
  pub next_sequences : Dict String ℕ
  pub appended : List (CommitRow P)
  pub last_recorded_at : Option ℕ
  pub readings : ℕ

-- max(recorded_at, last_recorded_at) if last_recorded_at else recorded_at
abbrev pub not_before : Option ℕ → ℕ → ℕ
not_before none t = t
not_before (some last) t = max t last

-- item.occurred_at or recorded_at
abbrev pub time_or : Option ℕ → ℕ → ℕ
time_or none t = t
time_or (some o) t = o

module _ {P : Type 0} ⦃e : Eq P⦄ (k : Keys) (now : ℕ → Option ℕ) where
  -- the new row and its partition rows; `now` gives `none` for a time without a zone
  unfoldable pub insert_row : Session P → CommitInput P → Result WorldError (Session P)
  unfolding allocate_sequences add_scope_rows add_base_rows
  insert_row s item =
      let (sequences, next) = allocate_sequences s.db.scope_rows item.scopes s.next_sequences in
      elim (now s.readings) [
        | none ↦ err naive_time
        | some reading ↦
            let recorded_at = not_before s.last_recorded_at reading in
            let row : CommitRow P = record {
              insertion_sequence = k.next_key (map (λ r. r.insertion_sequence) s.db.commits);
              commit_id = item.commit_id;
              kind = item.kind;
              source = item.source;
              summary = item.summary;
              occurred_at = time_or item.occurred_at recorded_at;
              recorded_at = recorded_at;
              payload = item.payload;
            } in
            ok (record {
              db = record {
                commits = row ∷ s.db.commits;
                scope_rows = add_scope_rows item.commit_id sequences s.db.scope_rows;
                base_rows = add_base_rows item.commit_id item.based_on.positions s.db.base_rows;
              };
              next_sequences = next;
              appended = s.appended ++ row ∷ [];
              last_recorded_at = some recorded_at;
              readings = s.readings + 1;
            })
      ]

  -- the row of an input whose identity is in use already
  unfoldable pub reuse_row : Session P → CommitInput P → CommitRow P → Result WorldError (Session P)
  unfolding load_commit matches_input
  reuse_row s item existing = do
    commit ← load_commit s.db existing
    refuse_if (not (matches_input commit item)) reused_id
    ok (record s { appended = s.appended ++ existing ∷ [] })

  unfoldable pub append_one : Session P → CommitInput P → Result WorldError (Session P)
  unfolding insert_row reuse_row find_row
  append_one s item = elim (find_row s.db.commits item.commit_id) [
    | none ↦ insert_row s item
    | some existing ↦ reuse_row s item existing
  ]

  unfoldable pub append_each : Session P → List (CommitInput P) → Result WorldError (Session P)
  append_each s [] = ok s
  append_each s (item ∷ rest) = do s' ← append_one s item; append_each s' rest

  unfoldable pub begin : Journal P → Session P
  unfolding last_recorded
  begin db = record {
    db = db;
    next_sequences = [];
    appended = [];
    last_recorded_at = last_recorded db.commits;
    readings = 0;
  }

  -- An error leaves the journal of the caller: the transaction is rolled back.
  unfoldable pub append_commits :
      Journal P → List (CommitInput P) → Result WorldError (Journal P × List (WorldCommit P))
  unfolding append_each append_one begin load_commits
  append_commits db [] = ok (db, [])
  append_commits db (item ∷ rest) =
      let inputs = item ∷ rest in
      let ids = map (λ i. i.commit_id) inputs in
      do
        refuse_if (not (nat_beq (length ids) (length (dedup ids)))) duplicate_ids
        s ← append_each (begin db) inputs
        commits ← load_commits s.db s.appended
        ok (s.db, commits)
