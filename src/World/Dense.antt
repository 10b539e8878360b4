-- ===== src/World/Dense.antt =====
-- The sequences of a scope (`_allocate_sequences` of src/aurora_bot/world/store.py) run 1, 2, 3, ...
-- without a gap and without a repetition.
use aurora_bot.Prelude.{
  ℕ, ◌+◌, max, String, ◌≡◌, refl, ap, ◌∙◌, false, true, ◌&&◌, ◌||◌, List, [], ◌∷◌, ◌++◌, map, arith,
  eq_iff, leb, nat_beq, if◌then◌else◌, string_eq, ◌==◌, contains, Distinct, append_assoc,
  append-nil,
}
use aurora_bot.Prelude.Dict
use aurora_bot.Prelude.Dict.{Dict}
use aurora_bot.World.Journal.{ScopeRow, top, next_sequence, allocate, add_scope_rows}

-- Each row's sequence is one more than the largest of its scope among the older rows.
abbrev pub IsDense : List ScopeRow → Type 0
IsDense [] = Unit
IsDense (r ∷ rows) = (r.sequence ≡ top rows r.scope + 1) × IsDense rows

-- The rows of a scope with a sequence.
unfoldable pub count_at : List ScopeRow → String → ℕ → ℕ
count_at [] scope n = 0
count_at (r ∷ rows) scope n =
    (if r.scope == scope && nat_beq r.sequence n then 1 else 0) + count_at rows scope n

-- In a dense table a scope has exactly one row for each sequence from 1 up to its largest, and no
-- row for any other.
pub count_at-IsDense :
    (rows : List ScopeRow) (scope : String) (n : ℕ)
    → IsDense rows
    → count_at rows scope n ≡ (if leb 1 n && leb n (top rows scope) then 1 else 0)
unfolding count_at top
count_at-IsDense [] scope n h = ground arith
count_at-IsDense (r ∷ rows) scope n h =
    ground (arith, count_at-IsDense rows scope n h.1, eq_iff r.scope scope)

-- What is allocated to each scope of a list.
abbrev pub assigned : (String → ℕ) → List String → Dict String ℕ
assigned f = map (λ s. (s, f s))

contains-keys-assigned :
    (f : String → ℕ) (scopes : List String) (s : String)
    → contains (Dict.keys (assigned f scopes)) s ≡ contains scopes s
contains-keys-assigned f [] s = refl
contains-keys-assigned f (x ∷ scopes) s = ap (λ b. x == s || b) (contains-keys-assigned f scopes s)

pub keys-assigned : (f : String → ℕ) (scopes : List String) → Dict.keys (assigned f scopes) ≡ scopes
keys-assigned f [] = refl
keys-assigned f (x ∷ scopes) = ap (◌∷◌ x) (keys-assigned f scopes)

-- The cached next sequence of every scope is the one that the table would give.
abbrev pub IsFresh : List ScopeRow → Dict String ℕ → List String → Type 0
IsFresh rows next scopes =
    (s : String) → contains scopes s ≡ true → next_sequence rows next s ≡ top rows s + 1

next_sequence-put :
    (rows : List ScopeRow) (next : Dict String ℕ) (scope s : String) (n : ℕ)
    → next_sequence rows (Dict.put next scope n) s
      ≡ (if scope == s then n else next_sequence rows next s)
unfolding next_sequence
next_sequence-put rows next scope s n = ground (arith, Dict.get-put next scope s n, eq_iff scope s)

pub allocate-sequences :
    (rows : List ScopeRow) (next sequences : Dict String ℕ) (scopes : List String)
    → Distinct scopes
    → IsFresh rows next scopes
    → ((s : String) → contains scopes s ≡ true → contains (Dict.keys sequences) s ≡ false)
    → (allocate rows next sequences scopes).0 ≡ sequences ++ assigned (λ s. top rows s + 1) scopes
unfolding allocate
allocate-sequences rows next sequences [] d fresh new = rw append-nil
allocate-sequences rows next sequences (x ∷ scopes) d fresh new =
    let n = next_sequence rows next x in
    let e : n ≡ top rows x + 1 = fresh x (ground (arith, eq_iff x x)) in
    allocate-sequences rows (Dict.put next x (n + 1)) (Dict.put sequences x n) scopes d.1
      (λ s h. ground (arith, next_sequence-put rows next x s (n + 1), eq_iff x s, fresh s))
      (λ s h. ground (arith, Dict.contains-keys-put sequences x s n, eq_iff x s, new s))
    ∙ rw (Dict.put-absent sequences x n (new x (ground (arith, eq_iff x x)))) (
        rw e (
          append_assoc sequences ((x, top rows x + 1) ∷ [])
            (assigned (λ s. top rows s + 1) scopes)))

pub allocate-next :
    (rows : List ScopeRow) (next sequences : Dict String ℕ) (scopes : List String) (s : String)
    → Distinct scopes
    → next_sequence rows (allocate rows next sequences scopes).1 s
      ≡ (if contains scopes s then next_sequence rows next s + 1 else next_sequence rows next s)
unfolding allocate
allocate-next rows next sequences [] s d = refl
allocate-next rows next sequences (x ∷ scopes) s d =
    let n = next_sequence rows next x in
    ground (
      arith,
      allocate-next rows (Dict.put next x (n + 1)) (Dict.put sequences x n) scopes s d.1,
      next_sequence-put rows next x s (n + 1),
      eq_iff x s,
    )

pub top-add_scope_rows :
    (id : String) (f : String → ℕ) (scopes : List String) (rows : List ScopeRow) (s : String)
    → Distinct scopes
    → top (add_scope_rows id (assigned f scopes) rows) s
      ≡ (if contains scopes s then max (f s) (top rows s) else top rows s)
unfolding add_scope_rows top
top-add_scope_rows id f [] rows s d = refl
top-add_scope_rows id f (x ∷ scopes) rows s d = ground (
  arith,
  top-add_scope_rows id f scopes (record { commit_id = id; scope = x; sequence = f x } ∷ rows) s
      d.1,
  eq_iff x s,
  ap f,
)

-- New rows at the next sequences keep the table dense.
pub add_scope_rows-IsDense :
    (id : String) (f : String → ℕ) (scopes : List String) (rows : List ScopeRow)
    → Distinct scopes
    → ((s : String) → contains scopes s ≡ true → f s ≡ top rows s + 1)
    → IsDense rows
    → IsDense (add_scope_rows id (assigned f scopes) rows)
unfolding add_scope_rows
add_scope_rows-IsDense id f [] rows d fit h = h
add_scope_rows-IsDense id f (x ∷ scopes) rows d fit h =
    add_scope_rows-IsDense id f scopes _ d.1
      (λ s c. unfold top in ground (arith, fit s, eq_iff x s))
      (fit x (ground (arith, eq_iff x x)), h)
