-- ===== src/Operations/Counting.antt =====
-- Sums over the calls under way, and what replacing or removing a call does to them.
use aurora_bot.Prelude.{ℕ, zero, suc, ◌+◌, ◌≤◌, ◌≡◌, some, List, [], ◌∷◌, arith, get_elem?}
use aurora_bot.Operations.Dispatch.{replace_at, remove_at}

module _ {A : Type 0} where
  abbrev pub total : (A → ℕ) → List A → ℕ
  total w [] = 0
  total w (x ∷ xs) = w x + total w xs

  pub total-replace_at :
      (w : A → ℕ) (xs : List A) (i : ℕ) (x y : A)
      → get_elem? xs i ≡ some x
      → total w (replace_at xs i y) + w x ≡ total w xs + w y
  total-replace_at w [] i x y h = absurd (cc)
  total-replace_at w (z ∷ xs) zero x y h = ground arith
  total-replace_at w (z ∷ xs) (suc i) x y h = omega (arith, total-replace_at w xs i x y h)

  pub total-remove_at :
      (w : A → ℕ) (xs : List A) (i : ℕ) (x : A)
      → get_elem? xs i ≡ some x
      → total w (remove_at xs i) + w x ≡ total w xs
  total-remove_at w [] i x h = absurd (cc)
  total-remove_at w (z ∷ xs) zero x h = ground arith
  total-remove_at w (z ∷ xs) (suc i) x h = omega (arith, total-remove_at w xs i x h)

  pub total-le : (w v : A → ℕ) → ((x : A) → w x ≤ v x) → (xs : List A) → total w xs ≤ total v xs
  total-le w v h [] = omega arith
  total-le w v h (x ∷ xs) = omega (arith, h x, total-le w v h xs)
