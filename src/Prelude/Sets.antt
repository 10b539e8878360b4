-- ===== src/Prelude/Sets.antt =====
-- Lists without repetitions as sets: differences and sizes.
use aurora_bot.Prelude.{
  suc, ◌≤◌, ◌<◌, ◌≡◌, refl, ap, Bool, true, false, not, List, [], ◌∷◌, ◌++◌, Eq, ◌==◌, ==_cases,
  arith, length, keep, contains, contains-append, contains-keep, minus, Distinct, Bool-cases, inl,
  inr, length-keep-le,
}

module _ {ℓ} {A : Type ℓ} ⦃e : Eq A⦄ where
  pub minus-add_other :
      (xs done : List A) (s : A) → contains xs s ≡ false → minus xs (done ++ s ∷ []) ≡ minus xs done
  minus-add_other [] done s h = refl
  minus-add_other (x ∷ xs) done s h = ground (
    arith,
    e.test_iff s x,
    e.test_iff x s,
    contains-append done (s ∷ []) x,
    minus-add_other xs done s,
  )

  -- One more element taken off.
  pub length-minus-add :
      (xs done : List A) (s : A)
      → Distinct xs
      → contains done s ≡ false
      → contains xs s ≡ true
      → length (minus xs done) ≡ suc (length (minus xs (done ++ s ∷ [])))
  length-minus-add [] done s d n h = absurd (cc)
  length-minus-add (x ∷ xs) done s d n h = elim (==_cases x s) [
    | inl (t, p) ↦ ground (
      arith,
      e.test_iff s x,
      contains-append done (s ∷ []) x,
      ap (contains done) p,
      ap (contains xs) p,
      ap length (minus-add_other xs done s (ground (arith, ap (contains xs) p))),
    )
    | inr (f, p) ↦ ground (
      arith,
      e.test_iff s x,
      e.test_iff x s,
      contains-append done (s ∷ []) x,
      length-minus-add xs done s,
    )
  ]

  length-keep_lt :
      (xs : List A) (a : A)
      → contains xs a ≡ true
      → length (keep (λ x. not (x == a)) xs) < length xs
  length-keep_lt [] a h = absurd (cc)
  length-keep_lt (x ∷ xs) a h =
      ground (arith, length-keep_lt xs a, length-keep-le (λ y. not (y == a)) xs)

  -- A list without repetitions is no longer than one that has all its elements.
  pub length-le_of_subset :
      (xs ys : List A)
      → Distinct xs
      → ((a : A) → contains xs a ≡ true → contains ys a ≡ true)
      → length xs ≤ length ys
  length-le_of_subset [] ys d h = omega arith
  length-le_of_subset (x ∷ xs) ys d h = omega (
    arith,
    length-le_of_subset xs (keep (λ y. not (y == x)) ys) d.1 smaller,
    length-keep_lt ys x (h x (ground (arith, e.test_iff x x))),
  )
    where
      smaller : (a : A) → contains xs a ≡ true → contains (keep (λ y. not (y == x)) ys) a ≡ true
      smaller a c = ground (
        arith,
        contains-keep (λ y. not (y == x)) ys a,
        h a,
        d.0,
        e.test_iff a x,
        ap (contains xs),
      )

  -- Where it is as long, it has them all.
  pub contains_of_length :
      (xs ys : List A) (a : A)
      → Distinct xs
      → ((b : A) → contains xs b ≡ true → contains ys b ≡ true)
      → length ys ≤ length xs
      → contains ys a ≡ true
      → contains xs a ≡ true
  contains_of_length xs ys a d h l c = elim (Bool-cases (contains xs a)) [
    | inl t ↦ t
    | inr f ↦ absurd (
        omega (
          arith,
          length-le_of_subset (a ∷ xs) ys (f, d)
              (λ b k. ground (arith, h b, e.test_iff a b, ap (contains ys))),
        ))
  ]

  pub Distinct-keep : (p : A → Bool) (xs : List A) → Distinct xs → Distinct (keep p xs)
  Distinct-keep p [] d = tt
  Distinct-keep p (x ∷ xs) d = ground (arith, Distinct-keep p xs, contains-keep p xs x)

  pub Distinct-snoc :
      (xs : List A) (a : A) → Distinct xs → contains xs a ≡ false → Distinct (xs ++ a ∷ [])
  Distinct-snoc [] a d h = (refl, tt)
  Distinct-snoc (x ∷ xs) a d h =
      ground
        (arith, Distinct-snoc xs a, contains-append xs (a ∷ []) x, e.test_iff a x, e.test_iff x a)
