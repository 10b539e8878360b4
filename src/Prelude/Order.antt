-- ===== src/Prelude/Order.antt =====
-- What `sorted` returns: an ordered list, in which elements that compare equal keep their order.
use aurora_bot.Prelude.{
  ◌≡◌, refl, Bool, true, false, List, [], ◌∷◌, All, All-weaken, keep, if◌then◌else◌, if_case,
  insert_sorted, All-insert_sorted, sorted, arith, ap, ◌∙◌,
}

module _ {ℓ} {A : Type ℓ} (le : A → A → Bool) where
  abbrev pub Ordered : List A → Type 0
  Ordered [] = Unit
  Ordered (x ∷ xs) = All (λ y. le x y ≡ true) xs × Ordered xs

  keep-insert_sorted :
      (q : A → Bool) (a : A) (xs : List A)
      → ((x y : A) → q x ≡ true → q y ≡ true → le x y ≡ true)
      → keep q (insert_sorted le a xs) ≡ keep q (a ∷ xs)
  unfolding insert_sorted
  keep-insert_sorted q a [] f = refl
  keep-insert_sorted q a (x ∷ xs) f = ground (arith, keep-insert_sorted q a xs f, f a x)

  -- Sorting is stable.
  pub keep-sorted :
      (q : A → Bool) (xs : List A)
      → ((x y : A) → q x ≡ true → q y ≡ true → le x y ≡ true)
      → keep q (sorted le xs) ≡ keep q xs
  unfolding sorted
  keep-sorted q [] f = refl
  keep-sorted q (x ∷ xs) f =
      keep-insert_sorted q x (sorted le xs) f
      ∙ ap (λ t. if q x then x ∷ t else t) (keep-sorted q xs f)

  All-insert_sorted_back {κ} :
      (P : A → Type κ) (a : A) (xs : List A) → All P (insert_sorted le a xs) → P a × All P xs
  unfolding insert_sorted
  All-insert_sorted_back P a [] = λ h. h
  All-insert_sorted_back P a (x ∷ xs) =
      if_case (λ r. All P r → P a × All P (x ∷ xs)) (le a x) _ _ (λ b h. h)
        (λ b h. let r = All-insert_sorted_back P a xs h.1 in (r.0, (h.0, r.1)))

  pub All-sorted_back {κ} : (P : A → Type κ) (xs : List A) → All P (sorted le xs) → All P xs
  unfolding sorted
  All-sorted_back P [] h = tt
  All-sorted_back P (x ∷ xs) h =
      let r = All-insert_sorted_back P x (sorted le xs) h in (r.0, All-sorted_back P xs r.1)

  module _ (total : (a b : A) → le a b ≡ false → le b a ≡ true)
      (trans : (a b c : A) → le a b ≡ true → le b c ≡ true → le a c ≡ true) where
    insert_sorted-Ordered : (a : A) (xs : List A) → Ordered xs → Ordered (insert_sorted le a xs)
    unfolding insert_sorted
    insert_sorted-Ordered a [] o = (tt, tt)
    insert_sorted-Ordered a (x ∷ xs) o =
        if_case Ordered (le a x) _ _
          (λ b. ((b, All-weaken (λ y. le x y ≡ true) _ xs (λ y h. trans a x y b h) o.0), o))
          (λ b. (
            All-insert_sorted (λ y. le x y ≡ true) le a xs (total a x b) o.0,
            insert_sorted-Ordered a xs o.1,
          ))

    pub sorted-Ordered : (xs : List A) → Ordered (sorted le xs)
    unfolding sorted
    sorted-Ordered [] = tt
    sorted-Ordered (x ∷ xs) = insert_sorted-Ordered x (sorted le xs) (sorted-Ordered xs)
