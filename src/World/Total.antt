-- ===== src/World/Total.antt =====
-- When `append_commits` of src/aurora_bot/world/store.py goes through.
use aurora_bot.Prelude.{
  ℕ, String, ◌≡◌, refl, ap, ◌∙◌, false, Option, none, some, List, [], ◌∷◌, map, arith, eq_iff, Eq,
  string_eq, All, contains, Distinct, ok, nat_beq_iff, dedup, length,
}
use aurora_bot.World.Commit.{CommitInput, WorldCommit}
use aurora_bot.World.Journal.{
  CommitRow, Journal, Keys, Session, load_commits, find_row, append_one, append_each,
  append_commits, begin,
}
use aurora_bot.World.Valid.{IsInput, IsValid, IsOpen, ids, begin-IsOpen}
use aurora_bot.World.Insert.{inserted, after_reading, insert_row-inserted}
use aurora_bot.World.Append.{inserted-IsOpen, append_one-new}
use aurora_bot.World.Batch.{append_each-Batch, load_commits-AllStored}

-- The identities of a batch.
abbrev pub input_ids : {P : Type 0} → List (CommitInput P) → List String
input_ids = map (λ i. i.commit_id)

-- No item of the batch has an identity that is in use.
abbrev pub AllNew : {P : Type 0} → List (CommitRow P) → List (CommitInput P) → Type 0
AllNew rows = All (λ item. contains (ids rows) item.commit_id ≡ false)

-- Every reading of the clock has a zone.
abbrev pub IsAware : (ℕ → Option ℕ) → Type 0
IsAware now = (n : ℕ) → (t : ℕ) × (now n ≡ some t)

find_row-new :
    {P : Type 0} (rows : List (CommitRow P)) (id : String)
    → contains (ids rows) id ≡ false
    → find_row rows id ≡ none
unfolding find_row
find_row-new [] id h = refl
find_row-new (r ∷ rows) id h = ground (arith, find_row-new rows id)

still_new :
    {P : Type 0} (id : String) (rows : List (CommitRow P)) (items : List (CommitInput P))
    → contains (input_ids items) id ≡ false
    → AllNew rows items
    → All (λ item. contains (id ∷ ids rows) item.commit_id ≡ false) items
still_new id rows [] c h = tt
still_new id rows (item ∷ items) c h = (
  ground (arith, eq_iff id item.commit_id, eq_iff item.commit_id id),
  still_new id rows items (ground arith) h.1,
)

dedup-eq_of_Distinct : (xs : List String) → Distinct xs → dedup xs ≡ xs
dedup-eq_of_Distinct [] d = refl
dedup-eq_of_Distinct (x ∷ xs) d = rw (dedup-eq_of_Distinct xs d.1) (rw d.0)

module _ {P : Type 0} ⦃e : Eq P⦄ (k : Keys) (now : ℕ → Option ℕ) (aware : IsAware now) where
  append_each_total :
      (s : Session P) (items : List (CommitInput P))
      → IsOpen s
      → All IsInput items
      → Distinct (input_ids items)
      → AllNew s.db.commits items
      → (s' : Session P) × (append_each k now s items ≡ ok s')
  unfolding append_each
  append_each_total s [] o i d a = (s, refl)
  append_each_total s (item ∷ items) o i d a =
      let (t, r) = aware s.readings in
      let one : append_one k now s item ≡ ok (inserted k s item t) =
        append_one-new k now s item (find_row-new s.db.commits item.commit_id a.0)
        ∙ insert_row-inserted k now s item o i.0
        ∙ ap (after_reading k s item) r in
      let (s', rest) =
        append_each_total (inserted k s item t) items (inserted-IsOpen k s item t o i.0 a.0) i.1 d.1
          (still_new item.commit_id s.db.commits items d.0 a.1) in
      (s', rw one rest)

  -- On a valid journal and a clock whose readings have a zone, a batch of well-formed items with
  -- new identities, all different, is appended: the call returns.
  pub append_commits_total :
      (db : Journal P) (items : List (CommitInput P))
      → IsValid db
      → All IsInput items
      → Distinct (input_ids items)
      → AllNew db.commits items
      → (db' : Journal P) × (cs : List (WorldCommit P)) × (append_commits k now db items
          ≡ ok (db', cs))
  unfolding append_commits
  append_commits_total db [] v i d a = (db, [], refl)
  append_commits_total db (item ∷ items) v i d a =
      let o = begin-IsOpen k now db v in
      let (s, each) = append_each_total (begin k now db) (item ∷ items) o i d (unfold begin in a) in
      let (rows, cs, b) = append_each-Batch k now (begin k now db) (item ∷ items) o i each in
      (
        s.db,
        cs,
        rw (dedup-eq_of_Distinct (input_ids (item ∷ items)) d) (
            rw ((nat_beq_iff (length (input_ids (item ∷ items))) _).1 refl) (
              rw each (
                rw (
                  ap (load_commits s.db) b.listed
                  ∙ load_commits-AllStored s.db (item ∷ items) rows cs b.stored)))),
      )
