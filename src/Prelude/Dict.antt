-- ===== src/Prelude/Dict.antt =====
-- Python's `dict` as an association list in insertion order.
use mathlib.Core.Path.{◌≡◌, refl}
use mathlib.Core.Bool.{true, false, ◌||◌}
use mathlib.Core.Option
use mathlib.Core.Option.{Option, none, some}
use mathlib.Core.List.{List, [], ◌∷◌, ◌++◌, map}
use native.Mathlib.Omega.{arith}
use aurora_bot.Prelude.Tests.{Eq, ◌==◌, if◌then◌else◌}
use aurora_bot.Prelude.Lists.{contains, Distinct}

abbrev pub Dict {ℓ} : Type ℓ → Type ℓ → Type ℓ
Dict K V = List (K × V)

module _ {ℓ} {K V : Type ℓ} where
  -- tuple(d)
  abbrev pub keys : Dict K V → List K
  keys = map (λ p. p.0)

  -- tuple(d.values())
  abbrev pub values : Dict K V → List V
  values = map (λ p. p.1)

module _ {ℓ} {K V : Type ℓ} ⦃e : Eq K⦄ where
  -- d.get(k)
  unfoldable pub get : Dict K V → K → Option V
  get [] k = none
  get ((j, v) ∷ d) k = if j == k then some v else get d k

  -- d.get(k, default)
  unfoldable pub get_or : Dict K V → K → V → V
  get_or [] k v = v
  get_or ((j, w) ∷ d) k v = if j == k then w else get_or d k v

  -- d[k] = v
  unfoldable pub put : Dict K V → K → V → Dict K V
  put [] k v = (k, v) ∷ []
  put ((j, w) ∷ d) k v = if j == k then (j, v) ∷ d else (j, w) ∷ put d k v

  pub get-put :
      (d : Dict K V) (k j : K) (v : V) → get (put d k v) j ≡ (if k == j then some v else get d j)
  unfolding get put
  get-put [] k j v = refl
  get-put ((i, w) ∷ d) k j v =
      ground (arith, e.test_iff i k, e.test_iff i j, e.test_iff k j, get-put d k j v)

  pub get_or-put :
      (d : Dict K V) (k j : K) (v w : V)
      → get_or (put d k v) j w ≡ (if k == j then v else get_or d j w)
  unfolding get_or put
  get_or-put [] k j v w = refl
  get_or-put ((i, u) ∷ d) k j v w =
      ground (arith, e.test_iff i k, e.test_iff i j, e.test_iff k j, get_or-put d k j v w)

  pub contains-keys-put :
      (d : Dict K V) (k j : K) (v : V)
      → contains (keys (put d k v)) j ≡ (k == j || contains (keys d) j)
  unfolding put
  contains-keys-put [] k j v = refl
  contains-keys-put ((i, w) ∷ d) k j v =
      ground (arith, e.test_iff i k, e.test_iff i j, e.test_iff k j, contains-keys-put d k j v)

  pub get_or-absent :
      (d : Dict K V) (k : K) (v : V) → contains (keys d) k ≡ false → get_or d k v ≡ v
  unfolding get_or
  get_or-absent [] k v h = refl
  get_or-absent ((j, w) ∷ d) k v h = ground (arith, get_or-absent d k v)

  pub get-absent : (d : Dict K V) (k : K) → contains (keys d) k ≡ false → get d k ≡ none
  unfolding get
  get-absent [] k h = refl
  get-absent ((j, w) ∷ d) k h = ground (arith, get-absent d k)

  -- A new key goes to the end.
  pub put-absent :
      (d : Dict K V) (k : K) (v : V) → contains (keys d) k ≡ false → put d k v ≡ d ++ (k, v) ∷ []
  unfolding put
  put-absent [] k v h = refl
  put-absent ((j, w) ∷ d) k v h = ground (arith, put-absent d k v)

  pub get_or-get : (d : Dict K V) (k : K) (v : V) → get_or d k v ≡ Option.get_or (get d k) v
  unfolding get_or get
  get_or-get [] k v = refl
  get_or-get ((j, w) ∷ d) k v = ground (arith, get_or-get d k v)

  pub put-Distinct :
      (d : Dict K V) (k : K) (v : V) → Distinct (keys d) → Distinct (keys (put d k v))
  unfolding put
  put-Distinct [] k v h = (refl, tt)
  put-Distinct ((j, w) ∷ d) k v h =
      ground (arith, put-Distinct d k v, contains-keys-put d k j v, e.test_iff j k, e.test_iff k j)

  pub get_or-cons :
      (d : Dict K V) (j k : K) (w v : V)
      → get_or ((j, w) ∷ d) k v ≡ (if j == k then w else get_or d k v)
  unfolding get_or
  get_or-cons d j k w v = refl

  -- A value that is overwritten at once leaves nothing.
  pub put-put : (d : Dict K V) (k : K) (v w : V) → put (put d k v) k w ≡ put d k w
  unfolding put
  put-put [] k v w = ground (arith, e.test_iff k k)
  put-put ((j, u) ∷ d) k v w = ground (arith, e.test_iff j k, put-put d k v w)

  -- d.update(values)
  unfoldable pub put_all : Dict K V → Dict K V → Dict K V
  put_all [] d = d
  put_all ((k, v) ∷ values) d = put_all values (put d k v)

  -- d[k] = d[k]
  pub put-get_or :
      (d : Dict K V) (k : K) (v : V) → contains (keys d) k ≡ true → put d k (get_or d k v) ≡ d
  unfolding put get_or
  put-get_or [] k v h = absurd (cc)
  put-get_or ((j, u) ∷ d) k v h = ground (arith, e.test_iff j k, put-get_or d k v)

  -- d.pop(k)
  unfoldable pub pop : Dict K V → K → Dict K V
  pop [] k = []
  pop ((j, v) ∷ d) k = let rest = pop d k in if j == k then rest else (j, v) ∷ rest

  pub get-pop : (d : Dict K V) (k j : K) → get (pop d k) j ≡ (if k == j then none else get d j)
  unfolding get pop
  get-pop [] k j = ground arith
  get-pop ((i, w) ∷ d) k j =
      ground (arith, e.test_iff i k, e.test_iff i j, e.test_iff k j, get-pop d k j)
