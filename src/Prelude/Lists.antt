-- ===== src/Prelude/Lists.antt =====
-- Python's lists, tuples and sets: a set is a list without repetitions, whose order no statement
-- uses.
use Prim.Native.Nat.{ℕ, zero, suc, ◌+◌, ◌≤◌}
use mathlib.Core.Path.{◌≡◌, refl, ap, ◌∙◌}
use mathlib.Core.Logic.{inl, inr}
use mathlib.Core.Bool.{Bool, true, false, not, ◌&&◌, ◌||◌}
use mathlib.Core.Option.{Option, none, some}
use mathlib.Core.List.{List, [], ◌∷◌, ◌++◌}
use native.Mathlib.Omega.{arith}
use aurora_bot.Prelude.Tests.{Eq, ◌==◌, if◌then◌else◌, ==_cases, Bool-cases}

module _ {ℓ} {A : Type ℓ} where
  abbrev pub length : List A → ℕ
  length [] = 0
  length (x ∷ xs) = suc (length xs)

  abbrev pub take : ℕ → List A → List A
  take zero xs = []
  take (suc n) [] = []
  take (suc n) (x ∷ xs) = x ∷ take n xs

  abbrev pub drop : ℕ → List A → List A
  drop zero xs = xs
  drop (suc n) [] = []
  drop (suc n) (x ∷ xs) = drop n xs

  abbrev pub get_elem? : List A → ℕ → Option A
  get_elem? [] i = none
  get_elem? (x ∷ xs) zero = some x
  get_elem? (x ∷ xs) (suc i) = get_elem? xs i

  -- [x for x in xs if p(x)]
  abbrev pub keep : (A → Bool) → List A → List A
  keep p [] = []
  keep p (x ∷ xs) = let rest = keep p xs in if p x then x ∷ rest else rest

  -- next((x for x in xs if p(x)), None)
  abbrev pub first : (A → Bool) → List A → Option A
  first p [] = none
  first p (x ∷ xs) = let rest = first p xs in if p x then some x else rest

  abbrev pub any : (A → Bool) → List A → Bool
  any p [] = false
  any p (x ∷ xs) = p x || any p xs

  abbrev pub all : (A → Bool) → List A → Bool
  all p [] = true
  all p (x ∷ xs) = p x && all p xs

  abbrev pub is_empty : List A → Bool
  is_empty [] = true
  is_empty (x ∷ xs) = false

  pub length-append : (xs ys : List A) → length (xs ++ ys) ≡ length xs + length ys
  length-append [] ys = omega arith
  length-append (x ∷ xs) ys = omega (arith, length-append xs ys)

  pub length-keep-le : (p : A → Bool) (xs : List A) → length (keep p xs) ≤ length xs
  length-keep-le p [] = omega arith
  length-keep-le p (x ∷ xs) = ground (arith, length-keep-le p xs)

-- Every element satisfies a predicate.
abbrev pub All {ℓ κ} : {A : Type ℓ} → (A → Type κ) → List A → Type κ
All P [] = Unit
All P (x ∷ xs) = P x × All P xs

pub All-append {ℓ κ} :
    {A : Type ℓ} (P : A → Type κ) (xs ys : List A) → All P xs → All P ys → All P (xs ++ ys)
All-append P [] ys hx hy = hy
All-append P (x ∷ xs) ys hx hy = (hx.0, All-append P xs ys hx.1 hy)

pub All-weaken {ℓ κ} :
    {A : Type ℓ} (P Q : A → Type κ) (xs : List A) → ((x : A) → P x → Q x) → All P xs → All Q xs
All-weaken P Q [] f h = tt
All-weaken P Q (x ∷ xs) f h = (f x h.0, All-weaken P Q xs f h.1)

module _ {ℓ} {A : Type ℓ} ⦃e : Eq A⦄ where
  -- a in xs
  abbrev pub contains : List A → A → Bool
  contains [] a = false
  contains (x ∷ xs) a = x == a || contains xs a

  -- No element occurs twice.
  abbrev pub Distinct : List A → Type 0
  Distinct [] = Unit
  Distinct (x ∷ xs) = (contains xs x ≡ false) × Distinct xs

  -- set(xs)
  abbrev pub dedup : List A → List A
  dedup [] = []
  dedup (x ∷ xs) = let rest = dedup xs in if contains rest x then rest else x ∷ rest

  -- set.add
  abbrev pub add : A → List A → List A
  add a xs = if contains xs a then xs else xs ++ a ∷ []

  -- a - b on sets
  abbrev pub minus : List A → List A → List A
  minus xs ys = keep (λ x. not (contains ys x)) xs

  pub contains-append :
      (xs ys : List A) (a : A) → contains (xs ++ ys) a ≡ (contains xs a || contains ys a)
  contains-append [] ys a = refl
  contains-append (x ∷ xs) ys a = ground (arith, contains-append xs ys a)

  pub contains-keep :
      (p : A → Bool) (xs : List A) (a : A) → contains (keep p xs) a ≡ (p a && contains xs a)
  contains-keep p [] a = ground arith
  contains-keep p (x ∷ xs) a = ground (arith, e.test_iff x a, contains-keep p xs a, ap p)

  pub contains-dedup : (xs : List A) (a : A) → contains (dedup xs) a ≡ contains xs a
  contains-dedup [] a = refl
  contains-dedup (x ∷ xs) a =
      ground (arith, e.test_iff x a, contains-dedup xs a, contains-dedup xs x)

  pub dedup-Distinct : (xs : List A) → Distinct (dedup xs)
  dedup-Distinct [] = tt
  dedup-Distinct (x ∷ xs) = ground (arith, dedup-Distinct xs)

  pub all-contains :
      (p : A → Bool) (xs : List A) → ((a : A) → contains xs a ≡ true → p a ≡ true) → all p xs ≡ true
  all-contains p [] h = refl
  all-contains p (x ∷ xs) h =
      ground (arith, h x, e.test_iff x x, all-contains p xs (λ a c. h a (ground arith)))

  pub contains-ne :
      (xs : List A) (a b : A) → contains xs a ≡ true → contains xs b ≡ false → (a == b) ≡ false
  contains-ne xs a b ha hb = elim (==_cases a b) [
    | inl (t, p) ↦ cc (ap (contains xs) p)
    | inr (f, n) ↦ f
  ]

  pub contains-minus :
      (xs ys : List A) (a : A) → contains (minus xs ys) a ≡ (not (contains ys a) && contains xs a)
  contains-minus xs ys a = contains-keep (λ x. not (contains ys x)) xs a

-- sorted(xs), by an order given as a Boolean test.
module _ {ℓ} {A : Type ℓ} (le : A → A → Bool) where
  unfoldable pub insert_sorted : A → List A → List A
  insert_sorted a [] = a ∷ []
  insert_sorted a (x ∷ xs) = if le a x then a ∷ x ∷ xs else x ∷ insert_sorted a xs

  unfoldable pub sorted : List A → List A
  unfolding insert_sorted
  sorted [] = []
  sorted (x ∷ xs) = insert_sorted x (sorted xs)

module _ {ℓ} {A : Type ℓ} ⦃e : Eq A⦄ (le : A → A → Bool) where
  pub contains-insert_sorted :
      (a : A) (xs : List A) (b : A) → contains (insert_sorted le a xs) b ≡ (a == b || contains xs b)
  unfolding insert_sorted
  contains-insert_sorted a [] b = refl
  contains-insert_sorted a (x ∷ xs) b = ground (arith, contains-insert_sorted a xs b)

  pub contains-sorted : (xs : List A) (b : A) → contains (sorted le xs) b ≡ contains xs b
  unfolding sorted
  contains-sorted [] b = refl
  contains-sorted (x ∷ xs) b =
      contains-insert_sorted x (sorted le xs) b ∙ ap (λ t. x == b || t) (contains-sorted xs b)

  any-insert_sorted :
      (p : A → Bool) (a : A) (xs : List A) → any p (insert_sorted le a xs) ≡ (p a || any p xs)
  unfolding insert_sorted
  any-insert_sorted p a [] = refl
  any-insert_sorted p a (x ∷ xs) = ground (arith, any-insert_sorted p a xs)

  pub insert_sorted-Distinct :
      (a : A) (xs : List A) → contains xs a ≡ false → Distinct xs → Distinct (insert_sorted le a xs)
  unfolding insert_sorted
  insert_sorted-Distinct a [] h d = (refl, tt)
  insert_sorted-Distinct a (x ∷ xs) h d = ground (
    arith,
    insert_sorted-Distinct a xs,
    contains-insert_sorted a xs x,
    e.test_iff a x,
    e.test_iff x a,
  )

  pub sorted-Distinct : (xs : List A) → Distinct xs → Distinct (sorted le xs)
  unfolding sorted
  sorted-Distinct [] d = tt
  sorted-Distinct (x ∷ xs) d =
      insert_sorted-Distinct x (sorted le xs) (contains-sorted xs x ∙ d.0) (sorted-Distinct xs d.1)

  pub any-sorted : (p : A → Bool) (xs : List A) → any p (sorted le xs) ≡ any p xs
  unfolding sorted
  any-sorted p [] = refl
  any-sorted p (x ∷ xs) =
      any-insert_sorted p x (sorted le xs) ∙ ap (λ b. p x || b) (any-sorted p xs)

module _ {ℓ κ} {A : Type ℓ} (P : A → Type κ) where
  pub All-insert_sorted :
      (le : A → A → Bool) (a : A) (xs : List A) → P a → All P xs → All P (insert_sorted le a xs)
  unfolding insert_sorted
  All-insert_sorted le a [] pa h = (pa, tt)
  All-insert_sorted le a (x ∷ xs) pa h = elim (Bool-cases (le a x)) [
    | inl t ↦ rw t (pa, h)
    | inr f ↦ rw f (h.0, All-insert_sorted le a xs pa h.1)
  ]

  pub All-sorted : (le : A → A → Bool) (xs : List A) → All P xs → All P (sorted le xs)
  unfolding sorted
  All-sorted le [] h = tt
  All-sorted le (x ∷ xs) h = All-insert_sorted le x (sorted le xs) h.0 (All-sorted le xs h.1)

  pub All-keep : (p : A → Bool) (xs : List A) → All P xs → All P (keep p xs)
  All-keep p [] h = tt
  All-keep p (x ∷ xs) h = elim (Bool-cases (p x)) [
    | inl t ↦ rw t (h.0, All-keep p xs h.1)
    | inr f ↦ rw f (All-keep p xs h.1)
  ]

  pub All-take : (n : ℕ) (xs : List A) → All P xs → All P (take n xs)
  All-take zero xs h = tt
  All-take (suc n) [] h = tt
  All-take (suc n) (x ∷ xs) h = (h.0, All-take n xs h.1)

module _ {ℓ} {A : Type ℓ} where
  pub keep-append : (p : A → Bool) (xs ys : List A) → keep p (xs ++ ys) ≡ keep p xs ++ keep p ys
  keep-append p [] ys = refl
  keep-append p (x ∷ xs) ys = ground (arith, keep-append p xs ys)

  pub take-take-suc : (n : ℕ) (xs : List A) → take n (take (suc n) xs) ≡ take n xs
  take-take-suc zero xs = refl
  take-take-suc (suc n) [] = refl
  take-take-suc (suc n) (x ∷ xs) = ap (◌∷◌ x) (take-take-suc n xs)
