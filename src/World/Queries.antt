-- ===== src/World/Queries.antt =====
-- The reads of `SqlAlchemyWorldJournal` (src/aurora_bot/world/store.py): cursor, head, commit,
-- commits, stream and delta. Cursors and limits are natural numbers, so the source's tests for
-- negative ones never fire here.
use aurora_bot.Prelude.{
  ℕ, ◌+◌, max, String, Bool, false, ◌&&◌, ◌||◌, Option, none, some, List, [], ◌∷◌, map, ◌==◌,
  string_eq, any, keep, take, length, ltb, nat_beq, sorted, str_le, is_blank, Result, ok, ◌>>=◌,
  ◌>>◌, refuse_if,
}
use aurora_bot.Prelude.Dict
use aurora_bot.Prelude.Dict.{Dict}
use aurora_bot.World.Frontier
use aurora_bot.World.Frontier.{
  WorldError, missing_identity, invalid_scopes, invalid_limit, WorldFrontier, world_frontier,
}
use aurora_bot.World.Commit.{WorldCommit}
use aurora_bot.World.Journal.{
  CommitRow, ScopeRow, Journal, top, load_commits, load_commit, find_row, in_order,
}

-- _MAX_BODY_PAGE
abbrev pub max_body_page : ℕ
max_body_page = 256

pub record StreamPage (P : Type 0) : Type 0 where
  pub after : ℕ
  pub end : ℕ
  pub commits : List (WorldCommit P)
  pub has_more : Bool

pub record DeltaPage (P : Type 0) : Type 0 where
  pub start : WorldFrontier
  pub end : WorldFrontier
  pub commits : List (WorldCommit P)
  pub has_more : Bool

-- the positions that `head` collects
unfoldable pub head_positions : List ScopeRow → List String → Dict String ℕ → Dict String ℕ
head_positions rows [] positions = positions
head_positions rows (scope ∷ rest) positions =
    head_positions rows rest (Dict.put positions scope (top rows scope))

-- _advances
abbrev pub advances : ScopeRow → String → ℕ → Bool
advances r scope n = r.scope == scope && ltb n r.sequence

-- or_(*(_advances(scope, start.sequence(scope)) for scope in scopes))
unfoldable pub advances_any : WorldFrontier → List String → ScopeRow → Bool
unfolding Frontier.sequence
advances_any start scopes r = any (λ scope. advances r scope (Frontier.sequence start scope)) scopes

-- _has_more
unfoldable pub has_more : List ScopeRow → WorldFrontier → List String → Bool
unfolding advances_any
has_more rows end scopes = any (advances_any end scopes) rows

-- the tests of `commits` and `stream`
unfoldable pub check_limit : ℕ → ℕ → Result WorldError (Unit {0})
check_limit limit largest_limit = refuse_if (ltb limit 1 || ltb largest_limit limit) invalid_limit

module _ {P : Type 0} where
  -- max((insertion_sequence of rows), default=after)
  unfoldable pub largest : ℕ → List (CommitRow P) → ℕ
  largest after [] = after
  largest after (row ∷ []) = row.insertion_sequence
  largest after (row ∷ row' ∷ rows) = max row.insertion_sequence (largest after (row' ∷ rows))

  unfoldable pub cursor : Journal P → ℕ
  unfolding largest
  cursor db = largest 0 db.commits

  unfoldable pub head : Journal P → List String → Result WorldError WorldFrontier
  unfolding head_positions top world_frontier
  head db scopes = world_frontier (head_positions db.scope_rows scopes [])

  load_found : Journal P → Option (CommitRow P) → Result WorldError (Option (WorldCommit P))
  load_found db none = ok none
  load_found db (some row) = do c ← load_commit db row; ok (some c)

  unfoldable pub commit : Journal P → String → Result WorldError (Option (WorldCommit P))
  unfolding load_found find_row load_commit
  commit db id = do refuse_if (is_blank id) missing_identity; load_found db (find_row db.commits id)

  -- the rows of the join in `commits`
  unfoldable pub scope_page : Journal P → String → ℕ → List (CommitRow P)
  unfolding in_order
  scope_page db scope after =
      keep (λ row. any (λ r. r.commit_id == row.commit_id && advances r scope after) db.scope_rows)
        (in_order db.commits)

  unfoldable pub commits : Journal P → String → ℕ → ℕ → Result WorldError (List (WorldCommit P))
  unfolding check_limit scope_page load_commits
  commits db scope after limit = do
    refuse_if (is_blank scope) invalid_scopes
    check_limit limit max_body_page
    load_commits db (take limit (scope_page db scope after))

  -- the rows of `stream` before the limit
  unfoldable pub rows_after : Journal P → ℕ → List (CommitRow P)
  unfolding in_order
  rows_after db after = in_order (keep (λ row. ltb after row.insertion_sequence) db.commits)

  unfoldable pub stream : Journal P → ℕ → ℕ → Result WorldError (StreamPage P)
  unfolding check_limit rows_after load_commits largest
  stream db after limit = do
    check_limit limit max_body_page
    let rows = take (limit + 1) (rows_after db after)
    let page_rows = take limit rows
    loaded ← load_commits db page_rows
    ok (record {
      after = after;
      end = largest after page_rows;
      commits = loaded;
      has_more = ltb limit (length rows);
    })

  -- max([*(commit.scopes.get(scope, 0) for commit in commits), start.sequence(scope)])
  unfoldable pub furthest : List (WorldCommit P) → String → ℕ → ℕ
  furthest [] scope n = n
  furthest (c ∷ rest) scope n = max (Dict.get_or c.scopes scope 0) (furthest rest scope n)

  -- the dictionary over `scopes` that `delta` advances by
  unfoldable pub covered : WorldFrontier → List String → List (WorldCommit P) → Dict String ℕ
  unfolding furthest Frontier.sequence
  covered start scopes loaded =
      map (λ scope. (scope, furthest loaded scope (Frontier.sequence start scope))) scopes

  -- the rows of `delta` before the page limit
  unfoldable pub delta_rows : Journal P → WorldFrontier → List String → List (CommitRow P)
  unfolding advances_any in_order
  delta_rows db start scopes =
      keep
        (λ row.
          any (λ r. r.commit_id == row.commit_id && advances_any start scopes r) db.scope_rows)
        (in_order db.commits)

  unfoldable pub delta :
      ℕ → Journal P → WorldFrontier → List String → Result WorldError (DeltaPage P)
  unfolding delta_rows load_commits covered Frontier.advance has_more
  delta page_size db start [] =
      ok (record { start = start; end = start; commits = []; has_more = false })
  delta page_size db start (scope ∷ rest) = do
    let scopes = scope ∷ rest
    let ordered = sorted str_le scopes
    loaded ← load_commits db (take page_size (delta_rows db start ordered))
    end ← Frontier.advance start (covered start scopes loaded)
    ok (record {
      start = start;
      end = end;
      commits = loaded;
      has_more = nat_beq (length loaded) page_size && has_more db.scope_rows end ordered;
    })
