-- ===== src/Scopes/Matching.antt =====
-- What a pattern covers (`matches` of src/aurora_bot/contracts/scope.py), apart from the way it is
-- computed.
use aurora_bot.Prelude.{
  contains, nat_eq, ℕ, ◌≡◌, ◌≢◌, ◌↔◌, ◌⊎◌, inl, inr, refl, ap, sym, ◌∙◌, subst, String, Bool, true,
  false, List, [], ◌∷◌, ◌++◌, arith, codes, nat_beq, nat_beq_iff, Bool-cases, if_case, is_empty,
  if◌then◌else◌, ◌&&◌,
}
use aurora_bot.Scopes.Patterns.{
  ScopeDeclaration, Parts, partition, same_text, any_text, full_match, matches_path, owner_of,
  owner_covers, matches, star, colon, newline, literal, is_incomplete,
}

-- A text of at least one character and without a newline.
pub data Line : List ℕ → Type 0 where
  one : (c : ℕ) → c ≢ newline → Line (c ∷ [])
  more : (c : ℕ) (s : List ℕ) → c ≢ newline → Line s → Line (c ∷ s)

-- A value that a path pattern stands for: each star for a line, other characters for themselves.
pub data Covers : List ℕ → List ℕ → Type 0 where
  end : Covers [] []
  letter : (p : ℕ) (ps s : List ℕ) → p ≢ star → Covers ps s → Covers (p ∷ ps) (p ∷ s)
  line : (ps part s : List ℕ) → Line part → Covers ps s → Covers (star ∷ ps) (part ++ s)

any_text-Line :
    (rest : List ℕ → Bool) (part s : List ℕ)
    → Line part
    → rest s ≡ true
    → any_text rest (part ++ s) ≡ true
unfolding any_text
any_text-Line rest _ s (one c n) h = ground (arith)
any_text-Line rest _ s (more c t n l) h = ground (arith, any_text-Line rest t s l h)

any_text_split :
    (rest : List ℕ → Bool) (s : List ℕ)
    → any_text rest s ≡ true
    → (part : List ℕ) × (tail : List ℕ) × (s ≡ part ++ tail) × Line part × (rest tail ≡ true)
unfolding any_text
any_text_split rest [] h = absurd (cc)
any_text_split rest (c ∷ s) h = elim (Bool-cases (rest s)) [
  | inl t ↦ (c ∷ [], s, refl, one c (ground arith), t)
  | inr f ↦
      let r = any_text_split rest s (ground arith) in
      (c ∷ r.0, r.1, ap (◌∷◌ c) r.2, more c r.0 (ground arith) r.3, r.4)
]

full_match-Covers : (p s : List ℕ) → Covers p s → full_match p s ≡ true
unfolding full_match
full_match-Covers _ _ end = refl
full_match-Covers _ _ (letter p ps s n c) = ground (arith, full_match-Covers ps s c)
full_match-Covers _ _ (line ps part t l c) =
    any_text-Line (full_match ps) part t l (full_match-Covers ps t c)

Covers-literal :
    (p : ℕ) (ps s : List ℕ)
    → literal p (full_match ps) s ≡ true
    → p ≢ star
    → ((t : List ℕ) → full_match ps t ≡ true → Covers ps t)
    → Covers (p ∷ ps) s
Covers-literal p ps [] h n f = absurd (cc)
Covers-literal p ps (c ∷ s) h n f =
    subst (λ q. Covers (p ∷ ps) (q ∷ s)) ((nat_beq_iff p c).0 (ground arith))
      (letter p ps s n (f s (ground arith)))

Covers-full_match : (p s : List ℕ) → full_match p s ≡ true → Covers p s
unfolding full_match
Covers-full_match [] [] h = end
Covers-full_match [] (c ∷ s) h = absurd (cc)
Covers-full_match (p ∷ ps) s h = elim (Bool-cases (nat_beq p star)) [
  | inl t ↦
      let r = any_text_split (full_match ps) s (ground arith) in
      subst (λ q. Covers (q ∷ ps) s) (sym ((nat_beq_iff p star).0 t))
        (subst (Covers (star ∷ ps)) (sym r.2) (line ps r.0 r.1 r.3 (Covers-full_match ps r.1 r.4)))
  | inr f ↦ Covers-literal p ps s (ground arith) (λ u. ground arith) (Covers-full_match ps)
]

same_text_iff : (s t : List ℕ) → (same_text s t ≡ true) ↔ (s ≡ t)
same_text_iff [] [] = ground arith
same_text_iff [] (c ∷ t) = (λ h. absurd (cc), λ p. absurd (cc))
same_text_iff (c ∷ s) [] = (λ h. absurd (cc), λ p. absurd (cc))
same_text_iff (c ∷ s) (d ∷ t) = ground (arith, same_text_iff s t)

matches_path_iff : (p s : List ℕ) → (matches_path p s ≡ true) ↔ ((p ≡ s) ⊎ Covers p s)
unfolding matches_path
matches_path_iff p s = elim (Bool-cases (same_text p s)) [
  | inl t ↦ (λ h. inl ((same_text_iff p s).0 t), λ c. ground arith)
  | inr f ↦ (
    λ h. inr (Covers-full_match p s (ground arith)),
    λ c. elim c [
      | inl q ↦ ground (arith, same_text_iff p s)
      | inr v ↦ ground (arith, full_match-Covers p s v)
    ],
  )
]

-- A text is divided at a colon, the first one.
abbrev pub IsDivided : List ℕ → List ℕ → List ℕ → Type 0
IsDivided s owner path = (s ≡ owner ++ colon ∷ path) × (contains owner colon ≡ false)

after : ℕ → Parts → Parts
after c parts = record parts { owner = c ∷ parts.owner }

partition-IsDivided :
    (s owner path : List ℕ)
    → IsDivided s owner path
    → partition s ≡ record { owner = owner; separator = true; path = path }
unfolding partition after
partition-IsDivided s [] path h = ap partition h.0
partition-IsDivided s (c ∷ owner) path h =
    ap partition h.0
    ∙ if_case (λ r. r ≡ record { owner = c ∷ owner; separator = true; path = path })
        (nat_beq c colon) _ _ (λ t. ground (arith, nat_beq_iff c colon))
        (λ f.
          ap (after c)
            (partition-IsDivided (owner ++ colon ∷ path) owner path (refl, ground arith)))

IsDivided-partition :
    (s : List ℕ)
    → (partition s).separator ≡ true
    → IsDivided s (partition s).owner (partition s).path
unfolding partition
IsDivided-partition [] = λ h. absurd (cc)
IsDivided-partition (c ∷ s) =
    if_case (λ (r : Parts). r.separator ≡ true → IsDivided (c ∷ s) r.owner r.path) (nat_beq c colon)
      _ _ (λ t h. (ap (λ x. x ∷ s) ((nat_beq_iff c colon).0 t), refl))
      (λ f h. let r = IsDivided-partition s h in (ap (◌∷◌ c) r.0, ground arith))

-- The declared owner is any or this one; the declared path is this one or covers it.
abbrev pub IsCovered : List ℕ → List ℕ → List ℕ → List ℕ → Type 0
IsCovered declared pattern owner path =
    (owner ≢ [])
    × (path ≢ [])
    × ((declared ≡ star ∷ []) ⊎ (declared ≡ owner))
    × ((pattern ≡ path) ⊎ Covers pattern path)

owner_covers_iff :
    (declared owner : List ℕ)
    → (owner_covers declared owner ≡ true) ↔ ((declared ≡ star ∷ []) ⊎ (declared ≡ owner))
owner_covers_iff declared owner =
    ground (arith, same_text_iff declared (star ∷ []), same_text_iff declared owner)

is_empty_iff : (s : List ℕ) → (is_empty s ≡ false) ↔ (s ≢ [])
is_empty_iff [] = ground arith
is_empty_iff (c ∷ s) = (λ h p. absurd (cc), λ h. refl)

covers_parts : List ℕ → List ℕ → Parts → Bool
covers_parts declared pattern parts =
    if is_incomplete parts
    then false
    else owner_covers declared parts.owner && matches_path pattern parts.path

covers_parts_iff :
    (declared pattern : List ℕ) (parts : Parts)
    → (covers_parts declared pattern parts ≡ true)
      ↔ ((parts.separator ≡ true) × IsCovered declared pattern parts.owner parts.path)
unfolding covers_parts
covers_parts_iff declared pattern parts =
    let o = owner_covers_iff declared parts.owner in
    let p = matches_path_iff pattern parts.path in
    let a = is_empty_iff parts.owner in
    let b = is_empty_iff parts.path in
    (
      λ h. (
        ground arith,
        (a.0 (ground arith), b.0 (ground arith), o.0 (ground arith), p.0 (ground arith)),
      ),
      λ h.
          let x = a.1 h.1.0 in
          let y = b.1 h.1.1 in let u = o.1 h.1.2 in let v = p.1 h.1.3 in ground arith,
    )

-- A declaration whose pattern is divided into an owner and a path matches a scope exactly if the
-- scope is divided at its first colon into a nonempty owner and a nonempty path, the declared owner
-- is a star or that owner, and the declared path is that path or covers it, each star standing for
-- one or more characters other than a newline.
pub matches-IsCovered :
    (d : ScopeDeclaration) (scope : String) (declared pattern : List ℕ)
    → IsDivided (codes d.pattern_text) declared pattern
    → (matches d scope ≡ true) ↔ (
        (owner : List ℕ) × (path : List ℕ) × IsDivided (codes scope) owner path
        × IsCovered declared pattern owner path)
unfolding matches owner_of covers_parts
matches-IsCovered d scope declared pattern h =
    let p = partition-IsDivided (codes d.pattern_text) declared pattern h in
    let whole : matches d scope ≡ covers_parts declared pattern (partition (codes scope)) =
      ap (λ (r : Parts). covers_parts r.owner r.path (partition (codes scope))) p in
    let both = covers_parts_iff declared pattern (partition (codes scope)) in
    (
      λ m.
          let c = both.0 (sym whole ∙ m) in
          (
            (partition (codes scope)).owner,
            (partition (codes scope)).path,
            IsDivided-partition (codes scope) c.0,
            c.1,
          ),
      λ e.
          whole
          ∙ both.1 (
              subst
                (λ (r : Parts). (r.separator ≡ true) × IsCovered declared pattern r.owner r.path)
                (sym (partition-IsDivided (codes scope) e.0 e.1 e.2)) (refl, e.3)),
    )
