-- ===== src/World/Tests.antt =====
-- Runs of the journal at concrete inputs, and the theorems at inputs that meet their conditions.
use aurora_bot.Prelude.{
  ℕ, ◌+◌, ◌<◌, max, String, ◌≡◌, refl, not, Option, none, some, List, [], ◌∷◌, ◌++◌, arith, nat_eq,
  string_eq, All, All-weaken, is_empty, take, is_blank, sorted, str_le, ok, err, leb, if◌then◌else◌,
  ◌&&◌,
}
use aurora_bot.Prelude.Dict
use aurora_bot.World.Frontier.{WorldFrontier, advance, sequence, reused_id, moves_backwards}
use aurora_bot.World.Commit.{CommitInput, WorldCommit, check_input}
use aurora_bot.World.Journal.{Journal, Keys, append_commits, empty, top, load_commits}
use aurora_bot.World.Queries.{StreamPage, rows_after, stream}
use aurora_bot.World.Advance.{advance-sequence, advance-moves_backwards}
use aurora_bot.World.Dense.{count_at}
use aurora_bot.World.Valid.{IsInput, empty-IsValid}
use aurora_bot.World.Batch.{
  Outcome, append_commits-Outcome, append_commits_again, append_commits-count_at,
}
use aurora_bot.World.Total.{append_commits_total}
use aurora_bot.World.Stream.{stream_resumes}

abbrev above_all : List ℕ → ℕ
above_all [] = 1
above_all (k ∷ used) = max (k + 1) (above_all used)

above_all-above : (used : List ℕ) → All (λ k. k < above_all used) used
above_all-above [] = tt
above_all-above (k ∷ used) = (
  omega arith,
  All-weaken (λ j. j < above_all used) _ used (λ j h. omega arith) (above_all-above used),
)

-- One more than the largest key in use.
abbrev keys : Keys
keys = record { next_key = above_all; next_key_above = above_all-above }

abbrev clock : ℕ → Option ℕ
clock n = some (100 + n)

abbrev observed : WorldFrontier
observed = record { positions = ("room", 2) ∷ ("run", 1) ∷ [] }

abbrev hello : CommitInput ℕ
hello = record {
  commit_id = "c1";
  kind = "environment.message";
  source = "console";
  summary = "hello";
  scopes = "room" ∷ "house" ∷ [];
  based_on = observed;
  payload = 7;
  occurred_at = none;
}

abbrev reply : CommitInput ℕ
reply = record hello { commit_id = "c2"; scopes = "room" ∷ []; occurred_at = some 3 }

abbrev batch : List (CommitInput ℕ)
batch = hello ∷ reply ∷ []

abbrev journal : Journal ℕ
journal = record {
  commits =
      record {
        insertion_sequence = 2;
        commit_id = "c2";
        kind = "environment.message";
        source = "console";
        summary = "hello";
        occurred_at = 3;
        recorded_at = 101;
        payload = 7;
      }
      ∷ record {
        insertion_sequence = 1;
        commit_id = "c1";
        kind = "environment.message";
        source = "console";
        summary = "hello";
        occurred_at = 100;
        recorded_at = 100;
        payload = 7;
      }
      ∷ [];
  scope_rows =
      record { commit_id = "c2"; scope = "room"; sequence = 2 }
      ∷ record { commit_id = "c1"; scope = "room"; sequence = 1 }
      ∷ record { commit_id = "c1"; scope = "house"; sequence = 1 }
      ∷ [];
  base_rows =
      record { commit_id = "c2"; scope = "run"; sequence = 1 }
      ∷ record { commit_id = "c2"; scope = "room"; sequence = 2 }
      ∷ record { commit_id = "c1"; scope = "run"; sequence = 1 }
      ∷ record { commit_id = "c1"; scope = "room"; sequence = 2 }
      ∷ [];
}

abbrev returned : List (WorldCommit ℕ)
returned =
    record {
      commit_id = "c1";
      kind = "environment.message";
      source = "console";
      summary = "hello";
      occurred_at = 100;
      scopes = ("house", 1) ∷ ("room", 1) ∷ [];
      based_on = observed;
      payload = 7;
      cursor = 1;
      recorded_at = 100;
    }
    ∷ record {
      commit_id = "c2";
      kind = "environment.message";
      source = "console";
      summary = "hello";
      occurred_at = 3;
      scopes = ("room", 2) ∷ [];
      based_on = observed;
      payload = 7;
      cursor = 2;
      recorded_at = 101;
    }
    ∷ []

append_runs : append_commits keys clock empty batch ≡ ok (journal, returned)
unfolding append_commits sorted str_le Dict.get Dict.put is_blank top
append_runs = refl

batch-IsInput : All IsInput batch
unfolding check_input is_blank
batch-IsInput = (
  record {
    checked = refl;
    scopes_Distinct = (refl, (refl, tt));
    base_Distinct = (refl, (refl, tt));
    base_named = refl;
  },
  (
    record {
      checked = refl;
      scopes_Distinct = (refl, tt);
      base_Distinct = (refl, (refl, tt));
      base_named = refl;
    },
    tt,
  ),
)

-- The same identity with another content.
append_refused :
    append_commits keys clock journal (record reply { payload = 8 } ∷ []) ≡ err reused_id
unfolding append_commits sorted str_le Dict.get Dict.put is_blank top
append_refused = refl

append_commits-Outcome_example : Outcome empty batch journal returned
append_commits-Outcome_example =
    append_commits-Outcome keys clock empty batch empty-IsValid batch-IsInput append_runs

append_commits_again_example :
    append_commits keys (λ n. some 5) journal batch ≡ ok (journal, returned)
append_commits_again_example =
    append_commits_again keys clock empty (λ n. some 5) batch empty-IsValid batch-IsInput
      append_runs

append_commits_total_example :
    (db' : Journal ℕ) × (cs : List (WorldCommit ℕ)) × (append_commits keys clock empty batch
      ≡ ok (db', cs))
append_commits_total_example =
    append_commits_total keys clock (λ n. (100 + n, refl)) empty batch empty-IsValid batch-IsInput
      (refl, (refl, tt)) (refl, (refl, tt))

append_commits-count_at_example :
    count_at journal.scope_rows "room" 2
    ≡ (if leb 1 2 && leb 2 (top journal.scope_rows "room") then 1 else 0)
unfolding top
append_commits-count_at_example =
    append_commits-count_at keys clock empty batch empty-IsValid batch-IsInput append_runs "room" 2

stream_resumes_example :
    (page : StreamPage ℕ) × (stream journal 0 1 ≡ ok page)
    × (load_commits journal (take 1 (rows_after journal 0)) ≡ ok page.commits)
    × (rows_after journal 0 ≡ take 1 (rows_after journal 0) ++ rows_after journal page.end)
    × (page.has_more ≡ not (is_empty (rows_after journal page.end)))
stream_resumes_example =
    stream_resumes journal 0 1 append_commits-Outcome_example.valid (omega arith) (omega arith)

advance-sequence_example :
    (f' : WorldFrontier) × (advance observed (("room", 5) ∷ ("house", 1) ∷ []) ≡ ok f')
    × ((s : String)
        → sequence f' s ≡ Dict.get_or (("room", 5) ∷ ("house", 1) ∷ []) s (sequence observed s))
unfolding sequence is_blank Dict.get_or
advance-sequence_example =
    advance-sequence observed (("room", 5) ∷ ("house", 1) ∷ []) (refl, (refl, tt)) refl refl
      (omega arith, (omega arith, tt))

advance-moves_backwards_example :
    advance observed (("house", 1) ∷ ("room", 1) ∷ []) ≡ err moves_backwards
unfolding sequence Dict.get Dict.get_or
advance-moves_backwards_example =
    advance-moves_backwards observed (("house", 1) ∷ ("room", 1) ∷ []) "room" 1 (refl, (refl, tt))
      refl (omega arith)
