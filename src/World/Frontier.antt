-- ===== src/World/Frontier.antt =====
-- `WorldFrontier` of src/aurora_bot/contracts/world.py: for each scope the last observed sequence.
-- A sequence is a natural number, so the source's test for a negative one never fires here.
use aurora_bot.Prelude.{
  ℕ, String, [], ◌∷◌, any, ltb, if◌then◌else◌, Result, ok, err, ◌>>=◌, ◌>>◌, refuse_if, is_blank,
  string_eq,
}
use aurora_bot.Prelude.Dict
use aurora_bot.Prelude.Dict.{Dict}

-- The exceptions of the value objects and of the journal.
pub data WorldError : Type 0 where
  invalid_position moves_backwards missing_identity invalid_scopes : WorldError
  duplicate_ids reused_id naive_time invalid_limit : WorldError

pub record WorldFrontier : Type 0 where
  pub positions : Dict String ℕ

-- WorldFrontier.__post_init__
unfoldable pub world_frontier : Dict String ℕ → Result WorldError WorldFrontier
world_frontier positions = do
  refuse_if (any (λ entry. is_blank entry.0) positions) invalid_position
  ok (record { positions = positions })

-- WorldFrontier()
abbrev pub nothing_observed : WorldFrontier
nothing_observed = record { positions = [] }

unfoldable pub sequence : WorldFrontier → String → ℕ
sequence f scope = Dict.get_or f.positions scope 0

-- the loop of `advance`
unfoldable pub merge_positions : Dict String ℕ → Dict String ℕ → Result WorldError (Dict String ℕ)
merge_positions merged [] = ok merged
merge_positions merged ((scope, n) ∷ rest) =
    if ltb n (Dict.get_or merged scope 0)
    then err moves_backwards
    else merge_positions (Dict.put merged scope n) rest

unfoldable pub advance : WorldFrontier → Dict String ℕ → Result WorldError WorldFrontier
unfolding merge_positions world_frontier
advance f positions = do merged ← merge_positions f.positions positions; world_frontier merged
