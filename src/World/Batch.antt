-- ===== src/World/Batch.antt =====
-- Whole batches of `append_commits` (src/aurora_bot/world/store.py): what a successful call leaves,
-- a repeated call, and when a call succeeds.
use aurora_bot.Prelude.{
  String, leb, ◌&&◌, if◌then◌else◌, ℕ, ◌≡◌, refl, ap, ◌∙◌, sym, subst, Bool, false, true, Option,
  List, [], ◌∷◌, ◌++◌, map, arith, Eq, string_eq, All, ok, append_assoc, append-nil, nat_beq, dedup,
  length, bind-eq-ok, ok-injective, refuse_if, not,
}
use aurora_bot.World.Frontier.{duplicate_ids}
use aurora_bot.World.Commit.{CommitInput, WorldCommit}
use aurora_bot.World.Journal.{
  CommitRow, Journal, Keys, Session, load_commits, reuse_row, append_one, append_each,
  append_commits, begin, top,
}
use aurora_bot.World.Dense.{count_at, count_at-IsDense}
use aurora_bot.World.Valid.{IsInput, IsValid, IsOpen, begin-IsOpen}
use aurora_bot.World.Append.{IsStored, append_one-Appended, append_one-found}

module _ {P : Type 0} ⦃e : Eq P⦄ where
  -- Each item is stored, with its row and its commit in the same places.
  abbrev pub AllStored :
      Journal P → List (CommitInput P) → List (CommitRow P) → List (WorldCommit P) → Type 0
  AllStored db [] [] [] = Unit
  AllStored db (item ∷ items) (row ∷ rows) (c ∷ cs) =
      IsStored db item row c × AllStored db items rows cs
  AllStored db _ _ _ = ⊥

  pub record Batch (s : Session P) (items : List (CommitInput P)) (s' : Session P)
      (rows : List (CommitRow P)) (cs : List (WorldCommit P)) : Type 0 where
    pub open_after : IsOpen s'
    pub stored : AllStored s'.db items rows cs
    pub listed : s'.appended ≡ s.appended ++ rows
    pub keeps :
        (other : CommitInput P) (row' : CommitRow P) (c' : WorldCommit P)
        → IsStored s.db other row' c'
        → IsStored s'.db other row' c'
    pub added : List (CommitRow P)
    pub older : s'.db.commits ≡ added ++ s.db.commits

  module _ (k : Keys) (now : ℕ → Option ℕ) where
    pub append_each-Batch :
        (s : Session P) (items : List (CommitInput P)) {s' : Session P}
        → IsOpen s
        → All IsInput items
        → append_each k now s items ≡ ok s'
        → (rows : List (CommitRow P)) × (cs : List (WorldCommit P)) × Batch s items s' rows cs
    unfolding append_each
    append_each-Batch s [] {s'} o i h =
        let same : s ≡ s' = ground arith in
        (
          [],
          [],
          subst (λ u. Batch s [] u [] []) same
              (record {
                open_after = o;
                stored = tt;
                listed = sym (append-nil s.appended);
                keeps = λ other row' c' x. x;
                added = [];
                older = refl;
              }),
        )
    append_each-Batch s (item ∷ items) o i h =
        let (s1, one, rest) = bind-eq-ok (append_one k now s item) _ h in
        let (row, c, a) = append_one-Appended k now s item o i.0 one in
        let (rows, cs, b) = append_each-Batch s1 items a.open_after i.1 rest in
        (
          row ∷ rows,
          c ∷ cs,
          record {
            open_after = b.open_after;
            stored = (b.keeps item row c a.stored, b.stored);
            listed =
                b.listed ∙ ap (λ l. l ++ rows) a.listed ∙ append_assoc s.appended (row ∷ []) rows;
            keeps = λ other row' c' x. b.keeps other row' c' (a.keeps other row' c' x);
            added = b.added ++ a.added;
            older =
                b.older
                ∙ ap (λ l. b.added ++ l) a.older
                ∙ sym (append_assoc b.added a.added s.db.commits);
          },
        )

    append_one-again :
        (s : Session P) (item : CommitInput P) (row : CommitRow P) (c : WorldCommit P)
        → IsStored s.db item row c
        → append_one k now s item ≡ ok (record s { appended = s.appended ++ row ∷ [] })
    append_one-again s item row c h =
        append_one-found k now s item row h.found
        ∙ (unfold reuse_row in rw (h.loaded) (rw h.matched))

    append_each-again :
        (s : Session P) (items : List (CommitInput P)) (rows : List (CommitRow P))
        (cs : List (WorldCommit P))
        → AllStored s.db items rows cs
        → append_each k now s items ≡ ok (record s { appended = s.appended ++ rows })
    unfolding append_each
    append_each-again s [] [] [] h =
        ap (λ l. ok (record s { appended = l })) (sym (append-nil s.appended))
    append_each-again s (item ∷ items) (row ∷ rows) (c ∷ cs) h =
        rw (append_one-again s item row c h.0) (
          append_each-again (record s { appended = s.appended ++ row ∷ [] }) items rows cs h.1
          ∙ ap (λ l. ok (record s { appended = l })) (append_assoc s.appended (row ∷ []) rows))
    append_each-again s [] (row ∷ rows) cs h = absurd h
    append_each-again s [] [] (c ∷ cs) h = absurd h
    append_each-again s (item ∷ items) [] cs h = absurd h
    append_each-again s (item ∷ items) (row ∷ rows) [] h = absurd h

  pub load_commits-AllStored :
      (db : Journal P) (items : List (CommitInput P)) (rows : List (CommitRow P))
      (cs : List (WorldCommit P))
      → AllStored db items rows cs
      → load_commits db rows ≡ ok cs
  unfolding load_commits
  load_commits-AllStored db [] [] [] h = refl
  load_commits-AllStored db (item ∷ items) (row ∷ rows) (c ∷ cs) h =
      rw h.0.loaded (rw (load_commits-AllStored db items rows cs h.1))
  load_commits-AllStored db [] (row ∷ rows) cs h = absurd h
  load_commits-AllStored db [] [] (c ∷ cs) h = absurd h
  load_commits-AllStored db (item ∷ items) [] cs h = absurd h
  load_commits-AllStored db (item ∷ items) (row ∷ rows) [] h = absurd h

  -- What a successful call leaves.
  pub record Outcome (db : Journal P) (items : List (CommitInput P)) (db' : Journal P)
      (cs : List (WorldCommit P)) : Type 0 where
    pub valid : IsValid db'
    pub rows : List (CommitRow P)
    pub stored : AllStored db' items rows cs
    pub added : List (CommitRow P)
    pub older : db'.commits ≡ added ++ db.commits

  module _ (k : Keys) (now : ℕ → Option ℕ) (db : Journal P) where
    abbrev same_ids : List (CommitInput P) → Bool
    same_ids items =
        let names = map (λ i. i.commit_id) items in nat_beq (length names) (length (dedup names))

    not_refused : (b : Bool) {u : Unit {0}} → refuse_if (not b) duplicate_ids ≡ ok u → b ≡ true
    not_refused true h = refl
    not_refused false h = absurd (cc)

    append_commits-steps :
        (item : CommitInput P) (items : List (CommitInput P)) {db' : Journal P}
        {cs : List (WorldCommit P)}
        → append_commits k now db (item ∷ items) ≡ ok (db', cs)
        → (same_ids (item ∷ items) ≡ true)
          × ((s : Session P) × (append_each k now (begin k now db) (item ∷ items) ≡ ok s)
              × (load_commits s.db s.appended ≡ ok cs)
              × (s.db ≡ db'))
    unfolding append_commits
    append_commits-steps item items {db'} {cs} h =
        let (u, pass, h1) =
          bind-eq-ok (refuse_if (not (same_ids (item ∷ items))) duplicate_ids) _ h in
        let (s, each, h2) = bind-eq-ok (append_each k now (begin k now db) (item ∷ items)) _ h1 in
        let (loaded, loads, h3) = bind-eq-ok (load_commits s.db s.appended) _ h2 in
        let same = ok-injective h3 in
        (not_refused _ pass, (s, each, loads ∙ ap ok (ap (λ p. p.1) same), ap (λ p. p.0) same))

    -- A successful call keeps the invariant of the journal, adds rows on top of those it had, and
    -- stores every item: its row is found by its identity and reads back as the returned commit in
    -- the item's place, which matches the item.
    pub append_commits-Outcome :
        (items : List (CommitInput P)) {db' : Journal P} {cs : List (WorldCommit P)}
        → IsValid db
        → All IsInput items
        → append_commits k now db items ≡ ok (db', cs)
        → Outcome db items db' cs
    unfolding append_commits begin
    append_commits-Outcome [] v i h =
        subst (λ u. Outcome db [] u.0 u.1) (ok-injective h)
          (record { valid = v; rows = []; stored = tt; added = []; older = refl })
    append_commits-Outcome (item ∷ items) {db'} {cs} v i h =
        let (same, (s, each, loads, there)) = append_commits-steps item items h in
        let (rows, commits, b) =
          append_each-Batch k now (begin k now db) (item ∷ items) (begin-IsOpen k now db v) i
            each in
        let returned : commits ≡ cs = ok-injective (
          sym (load_commits-AllStored s.db (item ∷ items) rows commits b.stored)
          ∙ sym (ap (load_commits s.db) b.listed)
          ∙ loads) in
        subst (λ u. Outcome db (item ∷ items) u cs) there
          (record {
            valid = b.open_after.valid;
            rows = rows;
            stored = subst (AllStored s.db (item ∷ items) rows) returned b.stored;
            added = b.added;
            older = b.older;
          })

    -- After a successful append_commits on a journal that meets its invariant, each scope has
    -- exactly one row for each sequence from 1 to its largest, and none for any other.
    pub append_commits-count_at :
        (items : List (CommitInput P)) {db' : Journal P} {cs : List (WorldCommit P)}
        → IsValid db
        → All IsInput items
        → append_commits k now db items ≡ ok (db', cs)
        → (scope : String) (n : ℕ)
        → count_at db'.scope_rows scope n
          ≡ (if leb 1 n && leb n (top db'.scope_rows scope) then 1 else 0)
    append_commits-count_at items {db'} v i h scope n =
        count_at-IsDense db'.scope_rows scope n (append_commits-Outcome items v i h).valid.dense

    -- A batch that was appended is appended again with no effect: whatever the clock says by then,
    -- the second call returns the commits of the first and leaves the journal as it is.
    pub append_commits_again :
        (later : ℕ → Option ℕ) (items : List (CommitInput P)) {db' : Journal P}
        {cs : List (WorldCommit P)}
        → IsValid db
        → All IsInput items
        → append_commits k now db items ≡ ok (db', cs)
        → append_commits k later db' items ≡ ok (db', cs)
    unfolding append_commits begin
    append_commits_again later [] {db'} v i h =
        let same = ok-injective h in ap (λ l. ok (db', l)) (ap (λ p. p.1) same)
    append_commits_again later (item ∷ items) {db'} {cs} v i h =
        let (same, rest) = append_commits-steps item items h in
        let o = append_commits-Outcome (item ∷ items) v i h in
        rw same (
          rw (append_each-again k later (begin k later db') (item ∷ items) o.rows cs o.stored)
            (rw (load_commits-AllStored db' (item ∷ items) o.rows cs o.stored)))
