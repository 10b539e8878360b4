-- ===== src/World/Rows.antt =====
-- What `_load_commits` and `_as_commit` of src/aurora_bot/world/store.py give back for the rows
-- that `append_commits` adds.
use aurora_bot.Prelude.{
  ℕ, String, ◌≡◌, refl, ap, ◌∙◌, false, true, some, List, [], ◌∷◌, ◌++◌, arith, eq_iff, string_eq,
  ◌==◌, all, contains, Distinct, append_assoc, append-nil, ==_refl, all-contains, inl, inr,
  ==_cases,
}
use aurora_bot.Prelude.Dict
use aurora_bot.Prelude.Dict.{Dict}
use aurora_bot.World.Commit.{same_set, same_dict, same_entry}
use aurora_bot.World.Journal.{ScopeRow, BaseRow, scopes_of, bases_of, add_scope_rows, add_base_rows}

-- The keys of `b` are new to `a`.
abbrev pub Apart : Dict String ℕ → Dict String ℕ → Type 0
Apart a b = (s : String) → contains (Dict.keys b) s ≡ true → contains (Dict.keys a) s ≡ false

pub scopes_of-add_scope_rows :
    (id : String) (entries : Dict String ℕ) (rows : List ScopeRow)
    → Distinct (Dict.keys entries)
    → Apart (scopes_of rows id) entries
    → scopes_of (add_scope_rows id entries rows) id ≡ scopes_of rows id ++ entries
unfolding add_scope_rows
scopes_of-add_scope_rows id [] rows d h = rw append-nil
scopes_of-add_scope_rows id ((s, n) ∷ entries) rows d h =
    scopes_of-add_scope_rows id entries _ d.1 (λ j c.
      rw step (ground (arith, Dict.contains-keys-put (scopes_of rows id) s j n, h j, eq_iff s j)))
    ∙ rw step (
        rw (Dict.put-absent (scopes_of rows id) s n (h s (ground (arith, eq_iff s s))))
          (append_assoc (scopes_of rows id) ((s, n) ∷ []) entries))
  where
    step :
        scopes_of (record { commit_id = id; scope = s; sequence = n } ∷ rows) id
        ≡ Dict.put (scopes_of rows id) s n
    step = unfold scopes_of in rw (==_refl id)

pub scopes_of-add_scope_rows_ne :
    (id other : String) (entries : Dict String ℕ) (rows : List ScopeRow)
    → (id == other) ≡ false
    → scopes_of (add_scope_rows id entries rows) other ≡ scopes_of rows other
unfolding add_scope_rows
scopes_of-add_scope_rows_ne id other [] rows h = refl
scopes_of-add_scope_rows_ne id other ((s, n) ∷ entries) rows h =
    scopes_of-add_scope_rows_ne id other entries _ h ∙ (unfold scopes_of in rw h)

pub bases_of-add_base_rows :
    (id : String) (entries : Dict String ℕ) (rows : List BaseRow)
    → Distinct (Dict.keys entries)
    → Apart (bases_of rows id) entries
    → bases_of (add_base_rows id entries rows) id ≡ bases_of rows id ++ entries
unfolding add_base_rows
bases_of-add_base_rows id [] rows d h = rw append-nil
bases_of-add_base_rows id ((s, n) ∷ entries) rows d h =
    bases_of-add_base_rows id entries _ d.1 (λ j c.
      rw step (ground (arith, Dict.contains-keys-put (bases_of rows id) s j n, h j, eq_iff s j)))
    ∙ rw step (
        rw (Dict.put-absent (bases_of rows id) s n (h s (ground (arith, eq_iff s s))))
          (append_assoc (bases_of rows id) ((s, n) ∷ []) entries))
  where
    step :
        bases_of (record { commit_id = id; scope = s; sequence = n } ∷ rows) id
        ≡ Dict.put (bases_of rows id) s n
    step = unfold bases_of in rw (==_refl id)

pub bases_of-add_base_rows_ne :
    (id other : String) (entries : Dict String ℕ) (rows : List BaseRow)
    → (id == other) ≡ false
    → bases_of (add_base_rows id entries rows) other ≡ bases_of rows other
unfolding add_base_rows
bases_of-add_base_rows_ne id other [] rows h = refl
bases_of-add_base_rows_ne id other ((s, n) ∷ entries) rows h =
    bases_of-add_base_rows_ne id other entries _ h ∙ (unfold bases_of in rw h)

-- A set is the same as any list with the same members.
pub same_set-contains :
    (a b : List String) → ((s : String) → contains a s ≡ contains b s) → same_set a b ≡ true
same_set-contains a b h =
    rw (all-contains (contains b) a (λ s c. cc (h s)))
      (rw (all-contains (contains a) b (λ s c. cc (h s))))

-- A dictionary lies in another: every value is found.
entries_found :
    (d full : Dict String ℕ)
    → Distinct (Dict.keys d)
    → ((s : String) (n : ℕ) → Dict.get d s ≡ some n → Dict.get full s ≡ some n)
    → all (λ entry. same_entry (Dict.get full entry.0) entry.1) d ≡ true
entries_found [] full u h = refl
entries_found ((j, w) ∷ d) full u h = rw (h j w (unfold Dict.get in rw (==_refl j))) (
    ground (
      arith,
      entries_found d full u.1 (λ s n g. h s n (
          unfold Dict.get in
          elim (==_cases j s) [
            | inl (t, p) ↦ absurd (ground (arith, Dict.get-absent d j u.0, ap (Dict.get d) p))
            | inr (t, p) ↦ rw t g
          ])),
    ))

pub same_dict_refl : (d : Dict String ℕ) → Distinct (Dict.keys d) → same_dict d d ≡ true
same_dict_refl d u = rw (entries_found d d u (λ s n g. g)) refl
