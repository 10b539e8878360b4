-- ===== src/World/Valid.antt =====
-- The invariant of the journal and of an open `append_commits` transaction
-- (src/aurora_bot/world/store.py).
use aurora_bot.Prelude.{
  ℕ, ◌+◌, ◌≤◌, ◌<◌, String, ◌≡◌, refl, false, true, Option, none, some, List, [], ◌∷◌, map, arith,
  eq_iff, Eq, ◌==◌, string_eq, All, All-weaken, contains, Distinct, ok, Bool-cases, Option-cases,
  inl, inr,
}
use aurora_bot.Prelude.Dict
use aurora_bot.Prelude.Dict.{Dict}
use aurora_bot.World.Advance.{AllNamed}
use aurora_bot.World.Commit.{CommitInput, WorldCommit, check_input}
use aurora_bot.World.Dense.{IsDense}
use aurora_bot.World.Journal.{
  CommitRow, Journal, Keys, Session, top, next_sequence, load_commit, last_recorded, find_row,
  empty, begin,
}

-- What the constructor of `WorldCommitInput` guarantees.
pub record IsInput {P : Type 0} (item : CommitInput P) : Type 0 where
  pub checked : check_input item ≡ ok item
  pub scopes_Distinct : Distinct item.scopes
  pub base_Distinct : Distinct (Dict.keys item.based_on.positions)
  pub base_named : AllNamed item.based_on.positions

-- Primary keys grow with the insertions.
abbrev pub IsDescending : {P : Type 0} → List (CommitRow P) → Type 0
IsDescending [] = Unit
IsDescending (row ∷ rows) =
    All (λ r. r.insertion_sequence < row.insertion_sequence) rows × IsDescending rows

-- The recorded times never go back.
abbrev pub NeverBack : {P : Type 0} → List (CommitRow P) → Type 0
NeverBack [] = Unit
NeverBack (row ∷ rows) = All (λ r. r.recorded_at ≤ row.recorded_at) rows × NeverBack rows

abbrev pub ids : {P : Type 0} → List (CommitRow P) → List String
ids = map (λ row. row.commit_id)

-- The stored row can be read back.
abbrev pub Loads : {P : Type 0} → Journal P → CommitRow P → Type 0
Loads {P} db row = (c : WorldCommit P) × (load_commit db row ≡ ok c)

pub record IsValid {P : Type 0} (db : Journal P) : Type 0 where
  pub dense : IsDense db.scope_rows
  pub keys : IsDescending db.commits
  pub times : NeverBack db.commits
  pub identities : Distinct (ids db.commits)
  pub scopes_owned : All (λ r. contains (ids db.commits) r.commit_id ≡ true) db.scope_rows
  pub bases_owned : All (λ r. contains (ids db.commits) r.commit_id ≡ true) db.base_rows
  pub whole : All (Loads db) db.commits

-- The caches of an open transaction agree with the tables.
pub record IsOpen {P : Type 0} (s : Session P) : Type 0 where
  pub valid : IsValid s.db
  pub fresh :
      (scope : String)
      → next_sequence s.db.scope_rows s.next_sequences scope ≡ top s.db.scope_rows scope + 1
  pub clock : s.last_recorded_at ≡ last_recorded s.db.commits

pub empty-IsValid : {P : Type 0} → IsValid (empty {P = P})
empty-IsValid = record {
  dense = tt;
  keys = tt;
  times = tt;
  identities = tt;
  scopes_owned = tt;
  bases_owned = tt;
  whole = tt;
}

pub begin-IsOpen :
    {P : Type 0} ⦃e : Eq P⦄ (k : Keys) (now : ℕ → Option ℕ) (db : Journal P)
    → IsValid db
    → IsOpen (begin k now db)
unfolding begin next_sequence Dict.get
begin-IsOpen k now db v = record { valid = v; fresh = λ scope. refl; clock = refl }

pub last_recorded-none :
    {P : Type 0} (rows : List (CommitRow P)) (t : ℕ)
    → last_recorded rows ≡ none
    → All (λ r. r.recorded_at ≤ t) rows
unfolding last_recorded
last_recorded-none [] t e = tt
last_recorded-none (row ∷ rows) t e = absurd (ground arith)

-- The last recorded time bounds all.
pub last_recorded-bound :
    {P : Type 0} (rows : List (CommitRow P)) (t : ℕ)
    → last_recorded rows ≡ some t
    → All (λ r. r.recorded_at ≤ t) rows
unfolding last_recorded
last_recorded-bound [] t h = tt
last_recorded-bound (row ∷ rows) t h = elim (Option-cases (last_recorded rows)) [
  | inl n ↦ (ground arith, last_recorded-none rows t n)
  | inr (m, e) ↦ (
    ground arith,
    All-weaken (λ r. r.recorded_at ≤ m) _ rows (λ r le. ground arith)
        (last_recorded-bound rows m e),
  )
]

-- A row that is found has the identity, and one that is not found is not in the table.
module _ {P : Type 0} where
  pub find_row-contains :
      (rows : List (CommitRow P)) (id : String) {row : CommitRow P}
      → find_row rows id ≡ some row
      → (contains (ids rows) id ≡ true) × (row.commit_id ≡ id)
  unfolding find_row
  find_row-contains [] id h = absurd (cc)
  find_row-contains (r ∷ rows) id {row} h = elim (Bool-cases (r.commit_id == id)) [
    | inl t ↦ ground (arith, eq_iff r.commit_id id)
    | inr f ↦ ground (arith, find_row-contains rows id {row = row})
  ]

  pub find_row-absent :
      (rows : List (CommitRow P)) (id : String)
      → find_row rows id ≡ none
      → contains (ids rows) id ≡ false
  unfolding find_row
  find_row-absent [] id h = refl
  find_row-absent (r ∷ rows) id h = ground (arith, find_row-absent rows id)
