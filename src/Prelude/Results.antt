-- ===== src/Prelude/Results.antt =====
-- Fallible code: a value or the exception that it raises.
use mathlib.Core.Path.{◌≡◌, refl}
use mathlib.Core.Logic.{◌⊎◌, inl, inr}
use mathlib.Core.Bool.{Bool, true, false}
use mathlib.Core.List.{List, [], ◌∷◌}

pub data Result {ℓ} (E A : Type ℓ) : Type ℓ where
  ok : A → Result E A
  err : E → Result E A

-- if bad: raise e
abbrev pub refuse_if : {E : Type 0} → Bool → E → Result E (Unit {0})
refuse_if true e = err e
refuse_if false e = ok tt

module _ {ℓ} {E : Type ℓ} where
  infixl 5 ◌>>=◌
  -- The rest of a block, where the part before it returns.
  abbrev pub ◌>>=◌ : {A B : Type ℓ} → Result E A → (A → Result E B) → Result E B
  err e >>= rest = err e
  ok a >>= rest = rest a

  -- A block that returns has parts that return.
  pub bind-eq-ok :
      {A B : Type ℓ} (part : Result E A) (rest : A → Result E B) {b : B}
      → (part >>= rest) ≡ ok b
      → (a : A) × (part ≡ ok a) × (rest a ≡ ok b)
  bind-eq-ok (err e) rest h = cc
  bind-eq-ok (ok a) rest h = (a, refl, h)

  pub >>=-assoc :
      {A B C : Type ℓ} (m : Result E A) (f : A → Result E B) (g : B → Result E C)
      → (m >>= λ a. f a >>= g) ≡ ((m >>= f) >>= g)
  >>=-assoc (err e) f g = refl
  >>=-assoc (ok a) f g = refl

  infixl 5 ◌>>◌
  abbrev pub ◌>>◌ : {A B : Type ℓ} → Result E A → Result E B → Result E B
  part >> rest = part >>= λ _. rest

pub Result-cases {ℓ} :
    {E A : Type ℓ} (m : Result E A) → ((a : A) × (m ≡ ok a)) ⊎ ((e : E) × (m ≡ err e))
Result-cases (ok a) = inl (a, refl)
Result-cases (err e) = inr (e, refl)

-- [f(x) for x in xs], where f may raise
abbrev pub traverse {ℓ} : {E A B : Type ℓ} → (A → Result E B) → List A → Result E (List B)
traverse f [] = ok []
traverse f (x ∷ xs) = do y ← f x; ys ← traverse f xs; ok (y ∷ ys)

pub ok-injective {ℓ} : {E A : Type ℓ} {a b : A} → ◌≡◌ {A = Result E A} (ok a) (ok b) → a ≡ b
ok-injective p = cc
