-- ===== src/World/Stream.antt =====
-- `stream` of src/aurora_bot/world/store.py: a reader that goes on from the end of each page sees
-- every commit once, in the order of insertion.
use aurora_bot.Prelude.{
  ℕ, zero, suc, ◌+◌, ◌≤◌, ◌<◌, max, ◌≡◌, refl, ap, ◌∙◌, sym, Bool, false, not, ◌||◌, add-one, List,
  [], ◌∷◌, ◌++◌, arith, All, All-sorted, All-keep, All-take, keep-append, take-take-suc, keep, take,
  length, is_empty, leb, ltb, ltb→lt, lt→ltb, ok, Bool-cases, inl, inr, sorted, insert_sorted,
  append-nil,
}
use aurora_bot.World.Commit.{WorldCommit}
use aurora_bot.World.Journal.{CommitRow, Journal, load_commits, in_order}
use aurora_bot.World.Valid.{IsValid, IsDescending, Loads}
use aurora_bot.World.Queries.{StreamPage, max_body_page, rows_after, largest, stream, check_limit}

module _ {P : Type 0} where
  abbrev IsAscending : List (CommitRow P) → Type 0
  IsAscending [] = Unit
  IsAscending (r ∷ rows) =
      All (λ x. r.insertion_sequence < x.insertion_sequence) rows × IsAscending rows

  abbrev above : ℕ → CommitRow P → Bool
  above n row = ltb n row.insertion_sequence

  abbrev by_key : CommitRow P → CommitRow P → Bool
  by_key a b = leb a.insertion_sequence b.insertion_sequence

  insert_sorted-last :
      (x : CommitRow P) (rows : List (CommitRow P))
      → All (λ r. r.insertion_sequence < x.insertion_sequence) rows
      → insert_sorted by_key x rows ≡ rows ++ x ∷ []
  unfolding insert_sorted
  insert_sorted-last x [] h = refl
  insert_sorted-last x (r ∷ rows) h = ground (arith, insert_sorted-last x rows h.1)

  -- The newest row goes last.
  in_order-cons :
      (x : CommitRow P) (rows : List (CommitRow P))
      → IsDescending (x ∷ rows)
      → in_order (x ∷ rows) ≡ in_order rows ++ x ∷ []
  unfolding in_order sorted
  in_order-cons x rows h =
      insert_sorted-last x (sorted by_key rows)
        (All-sorted (λ r. r.insertion_sequence < x.insertion_sequence) by_key rows h.0)

  IsAscending-append :
      (rows : List (CommitRow P)) (x : CommitRow P)
      → IsAscending rows
      → All (λ r. r.insertion_sequence < x.insertion_sequence) rows
      → IsAscending (rows ++ x ∷ [])
  IsAscending-append [] x a h = (tt, tt)
  IsAscending-append (r ∷ rows) x a h = (last rows a.0 h.0, IsAscending-append rows x a.1 h.1)
    where
      last :
          (rs : List (CommitRow P))
          → All (λ y. r.insertion_sequence < y.insertion_sequence) rs
          → r.insertion_sequence < x.insertion_sequence
          → All (λ y. r.insertion_sequence < y.insertion_sequence) (rs ++ x ∷ [])
      last [] u v = (v, tt)
      last (y ∷ rs) u v = (u.0, last rs u.1 v)

  in_order-IsAscending :
      (rows : List (CommitRow P)) → IsDescending rows → IsAscending (in_order rows)
  in_order-IsAscending [] h = unfold in_order sorted in tt
  in_order-IsAscending (x ∷ rows) h = rw (in_order-cons x rows h) (
      IsAscending-append (in_order rows) x (in_order-IsAscending rows h.1) (
        unfold in_order in
        All-sorted (λ r. r.insertion_sequence < x.insertion_sequence) by_key rows h.0))

  keep-IsDescending :
      (p : CommitRow P → Bool) (rows : List (CommitRow P))
      → IsDescending rows
      → IsDescending (keep p rows)
  keep-IsDescending p [] h = tt
  keep-IsDescending p (x ∷ rows) h = elim (Bool-cases (p x)) [
    | inl t ↦ rw t (
      All-keep (λ r. r.insertion_sequence < x.insertion_sequence) p rows h.0,
      keep-IsDescending p rows h.1,
    )
    | inr f ↦ rw f (keep-IsDescending p rows h.1)
  ]

  in_order-keep :
      (p : CommitRow P → Bool) (rows : List (CommitRow P))
      → IsDescending rows
      → in_order (keep p rows) ≡ keep p (in_order rows)
  in_order-keep p [] h = unfold in_order sorted in refl
  in_order-keep p (x ∷ rows) h =
      let split = ap (keep p) (in_order-cons x rows h) ∙ keep-append p (in_order rows) (x ∷ []) in
      let rest = in_order-keep p rows h.1 in
      elim (Bool-cases (p x)) [
        | inl t ↦ rw split (
            rw t (
              in_order-cons x (keep p rows) (
                All-keep (λ r. r.insertion_sequence < x.insertion_sequence) p rows h.0,
                keep-IsDescending p rows h.1,
              )
              ∙ ap (λ l. l ++ x ∷ []) rest))
        | inr f ↦ rw split (rw f (rest ∙ sym (append-nil (keep p (in_order rows)))))
      ]

  keep-above :
      (n : ℕ) (rows : List (CommitRow P))
      → All (λ r. n < r.insertion_sequence) rows
      → keep (above n) rows ≡ rows
  keep-above n [] h = refl
  keep-above n (r ∷ rows) h =
      rw (lt→ltb n r.insertion_sequence h.0) (ap (◌∷◌ r) (keep-above n rows h.1))

  largest-le :
      (n : ℕ) (rows : List (CommitRow P))
      → All (λ r. n < r.insertion_sequence) rows
      → n ≤ largest n rows
  unfolding largest
  largest-le n [] h = omega arith
  largest-le n (r ∷ []) h = omega arith
  largest-le n (r ∷ r' ∷ rows) h = omega arith

  largest-cons :
      (n : ℕ) (r : CommitRow P) (rows : List (CommitRow P))
      → All (λ x. r.insertion_sequence < x.insertion_sequence) rows
      → largest n (r ∷ rows) ≡ largest r.insertion_sequence rows
  unfolding largest
  largest-cons n r [] h = refl
  largest-cons n r (x ∷ []) h = omega arith
  largest-cons n r (x ∷ y ∷ rows) h = omega (arith, largest-nonempty (y ∷ rows) refl)
    where
      largest-nonempty :
          (l : List (CommitRow P))
          → is_empty l ≡ false
          → largest n l ≡ largest r.insertion_sequence l
      largest-nonempty [] e = absurd (cc)
      largest-nonempty (a ∷ []) e = refl
      largest-nonempty (a ∷ b ∷ l) e = ap (max a.insertion_sequence) (largest-nonempty (b ∷ l) refl)

  -- A page of an ascending table and what lies behind its end make up the table.
  page-append :
      (n limit : ℕ) (rows : List (CommitRow P))
      → All (λ r. n < r.insertion_sequence) rows
      → IsAscending rows
      → take limit rows ++ keep (above (largest n (take limit rows))) rows ≡ rows
  page-append n zero rows h a = unfold largest in keep-above n rows h
  page-append n (suc limit) [] h a = refl
  page-append n (suc limit) (r ∷ rows) h a =
      let m = r.insertion_sequence in
      let up =
        largest-cons n r (take limit rows)
          (All-take (λ x. m < x.insertion_sequence) limit rows a.0) in
      let le =
        largest-le m (take limit rows) (All-take (λ x. m < x.insertion_sequence) limit rows a.0) in
      let out : above (largest n (r ∷ take limit rows)) r ≡ false = ground arith in
      rw out (
        ap (◌∷◌ r)
          (ap (λ k. take limit rows ++ keep (above k) rows) up ∙ page-append m limit rows a.0 a.1))

  keep-keep-above :
      (m n : ℕ) (rows : List (CommitRow P))
      → m ≤ n
      → keep (above n) (keep (above m) rows) ≡ keep (above n) rows
  keep-keep-above m n [] h = refl
  keep-keep-above m n (r ∷ rows) h = ground (arith, keep-keep-above m n rows h)

  All-keep-above :
      (n : ℕ) (rows : List (CommitRow P))
      → All (λ r. n < r.insertion_sequence) (keep (above n) rows)
  All-keep-above n [] = tt
  All-keep-above n (r ∷ rows) = elim (Bool-cases (above n r)) [
    | inl t ↦ rw t (ltb→lt n r.insertion_sequence t, All-keep-above n rows)
    | inr f ↦ rw f (All-keep-above n rows)
  ]

  keep-IsAscending :
      (p : CommitRow P → Bool) (rows : List (CommitRow P))
      → IsAscending rows
      → IsAscending (keep p rows)
  keep-IsAscending p [] h = tt
  keep-IsAscending p (x ∷ rows) h = elim (Bool-cases (p x)) [
    | inl t ↦ rw t (
      All-keep (λ r. x.insertion_sequence < r.insertion_sequence) p rows h.0,
      keep-IsAscending p rows h.1,
    )
    | inr f ↦ rw f (keep-IsAscending p rows h.1)
  ]

  pub load_commits-Loads :
      (db : Journal P) (rows : List (CommitRow P))
      → All (Loads db) rows
      → (cs : List (WorldCommit P)) × (load_commits db rows ≡ ok cs)
  unfolding load_commits
  load_commits-Loads db [] h = ([], refl)
  load_commits-Loads db (row ∷ rows) h =
      let (cs, e) = load_commits-Loads db rows h.1 in (h.0.0 ∷ cs, rw h.0.1 (rw e))

  -- One more row than the page holds is asked for, to see whether there are more.
  more_behind :
      (n : ℕ) (xs ys : List (CommitRow P))
      → take n xs ++ ys ≡ xs
      → ltb n (length (take (n + 1) xs)) ≡ not (is_empty ys)
  more_behind zero [] [] h = refl
  more_behind zero [] (y ∷ ys) h = absurd (cc)
  more_behind zero (x ∷ xs) [] h = absurd (cc)
  more_behind zero (x ∷ xs) (y ∷ ys) h = refl
  more_behind (suc n) [] [] h = ground arith
  more_behind (suc n) [] (y ∷ ys) h = absurd (cc)
  more_behind (suc n) (x ∷ xs) ys h = ground (arith, more_behind n xs ys (cc))

  module _ (db : Journal P) (after limit : ℕ) (v : IsValid db) where
    rows_split :
        rows_after db after
        ≡ take limit (rows_after db after)
          ++ rows_after db (largest after (take limit (rows_after db after)))
    unfolding rows_after
    rows_split =
        let sorted_rows = in_order db.commits in
        let rows = keep (above after) sorted_rows in
        let ordered = in_order-IsAscending db.commits v.keys in
        let end = largest after (take limit rows) in
        let above_all = All-keep-above after sorted_rows in
        let le =
          largest-le after (take limit rows)
            (All-take (λ r. after < r.insertion_sequence) limit rows above_all) in
        rw (in_order-keep (above after) db.commits v.keys) (
          rw (in_order-keep (above end) db.commits v.keys) (
            sym (
              ap (λ l. take limit rows ++ l) (sym (keep-keep-above after end sorted_rows le))
              ∙ page-append after limit rows above_all
                  (keep-IsAscending (above after) sorted_rows ordered))))

    -- With a limit that the source accepts, `stream` returns a page on a valid journal. The rows
    -- behind the start cursor are the page's rows followed by those behind the page's end, so a
    -- reader that goes on from there misses nothing and sees nothing twice; `has_more` says
    -- whether any are left.
    pub stream_resumes :
        1 ≤ limit
        → limit ≤ max_body_page
        → (page : StreamPage P) × (stream db after limit ≡ ok page)
          × (load_commits db (take limit (rows_after db after)) ≡ ok page.commits)
          × (rows_after db after ≡ take limit (rows_after db after) ++ rows_after db page.end)
          × (page.has_more ≡ not (is_empty (rows_after db page.end)))
    unfolding stream check_limit
    stream_resumes low high =
        let rows = rows_after db after in
        let whole = All-take (Loads db) limit rows (
          unfold rows_after in_order in
          All-sorted (Loads db) by_key _ (All-keep (Loads db) (above after) db.commits v.whole)) in
        let (cs, loads) = load_commits-Loads db (take limit rows) whole in
        let cut : take limit (take (limit + 1) rows) ≡ take limit rows =
          rw add-one (take-take-suc limit rows) in
        let passes : (ltb limit 1 || ltb max_body_page limit) ≡ false = ground arith in
        (
          record {
            after = after;
            end = largest after (take limit rows);
            commits = cs;
            has_more = ltb limit (length (take (limit + 1) rows));
          },
          rw passes (rw cut (rw loads)),
          loads,
          rows_split,
          more_behind limit rows _ (sym rows_split),
        )
