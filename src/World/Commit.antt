-- ===== src/World/Commit.antt =====
-- `WorldCommitInput` and `WorldCommit` of src/aurora_bot/contracts/world.py. The data of a commit
-- is JSON, taken as a type with a decidable equality; an instant is a number, in UTC.
use aurora_bot.Prelude.{
  ℕ, String, Bool, true, false, string_eq, ◌&&◌, ◌||◌, Option, none, some, List, Eq, ◌==◌, any, all,
  is_empty, nat_beq, contains, Result, ok, ◌>>◌, refuse_if, is_blank,
}
use aurora_bot.Prelude.Dict
use aurora_bot.Prelude.Dict.{Dict}
use aurora_bot.World.Frontier.{WorldError, missing_identity, invalid_scopes, WorldFrontier}

pub record CommitInput (P : Type 0) : Type 0 where
  pub commit_id : String
  pub kind : String
  pub source : String
  pub summary : String
  pub scopes : List String
  pub based_on : WorldFrontier
  pub payload : P
  pub occurred_at : Option ℕ

pub record WorldCommit (P : Type 0) : Type 0 where
  pub commit_id : String
  pub kind : String
  pub source : String
  pub summary : String
  pub occurred_at : ℕ
  pub scopes : Dict String ℕ
  pub based_on : WorldFrontier
  pub payload : P
  pub cursor : ℕ
  pub recorded_at : ℕ

-- The four texts that both constructors test.
unfoldable pub lacks_identity : String → String → String → String → Bool
lacks_identity commit_id kind source summary =
    is_blank commit_id || is_blank kind || is_blank source || is_blank summary

-- WorldCommitInput.__post_init__
unfoldable pub check_input : {P : Type 0} → CommitInput P → Result WorldError (CommitInput P)
unfolding lacks_identity
check_input item = do
  refuse_if (lacks_identity item.commit_id item.kind item.source item.summary) missing_identity
  refuse_if (is_empty item.scopes || any is_blank item.scopes) invalid_scopes
  ok item

-- WorldCommit.__post_init__
unfoldable pub check_commit : {P : Type 0} → WorldCommit P → Result WorldError (WorldCommit P)
unfolding lacks_identity
check_commit c = do
  refuse_if (lacks_identity c.commit_id c.kind c.source c.summary) missing_identity
  refuse_if (is_empty c.scopes || any (λ entry. is_blank entry.0 || nat_beq entry.1 0) c.scopes)
      invalid_scopes
  ok c

-- set(a) == set(b)
abbrev pub same_set : List String → List String → Bool
same_set a b = all (contains b) a && all (contains a) b

abbrev pub same_entry : Option ℕ → ℕ → Bool
same_entry none n = false
same_entry (some m) n = nat_beq m n

-- a == b on dictionaries
abbrev pub same_dict : Dict String ℕ → Dict String ℕ → Bool
same_dict a b =
    all (λ entry. same_entry (Dict.get b entry.0) entry.1) a
    && all (λ entry. same_entry (Dict.get a entry.0) entry.1) b

-- item.occurred_at is None or commit.occurred_at == item.occurred_at
abbrev pub same_time : Option ℕ → ℕ → Bool
same_time none n = true
same_time (some m) n = nat_beq n m

module _ {P : Type 0} ⦃e : Eq P⦄ where
  -- _matches_input of src/aurora_bot/world/store.py
  unfoldable pub matches_input : WorldCommit P → CommitInput P → Bool
  matches_input c item =
      c.kind == item.kind
      && c.source == item.source
      && c.summary == item.summary
      && same_set (Dict.keys c.scopes) item.scopes
      && same_dict c.based_on.positions item.based_on.positions
      && e.test c.payload item.payload
      && same_time item.occurred_at c.occurred_at
