-- ===== src/Kernel/Resolve/Loop.antt =====
-- The whole loop of `_topological` of src/aurora_kernel/resolve.py, and lemmas on orders and what
-- is left out of them.
use aurora_bot.Prelude.{
  ℕ, zero, suc, ◌+◌, ◌≡◌, ◌⊎◌, refl, ap, ◌∙◌, String, true, false, some, List, [], ◌∷◌, ◌++◌,
  eq_iff, string_eq, nat_eq, arith, length, length-append, any, get_elem?, contains, minus,
  contains-minus, nat_beq_iff, Distinct, is_empty, inl,
}
use aurora_bot.Prelude.Dict.{Dict}
use aurora_bot.Prelude.Sets.{length-le_of_subset}
use aurora_bot.Kernel.Declaration.{ModuleSpec}
use aurora_bot.Kernel.Optional.{identities}
use aurora_bot.Kernel.Resolve.Topological.{position_of, search_order}
use aurora_bot.Kernel.Resolve.Release.{get_elem?-position_of}
use aurora_bot.Kernel.Resolve.Search.{InOrder, Inv, Inv-next, deps, waiting}

pub length-identities :
    {C : Type 0} (specs : List (ModuleSpec C)) → length (identities specs) ≡ length specs
unfolding identities
length-identities [] = refl
length-identities (s ∷ specs) = ap suc (length-identities specs)

module _ {C : Type 0} (specs : List (ModuleSpec C)) (resolved : Dict String (List String))
    (names_differ : Distinct (identities specs))
    (deps_differ : (n : String) → Distinct (deps specs resolved n)) where
  least :
      (degrees : Dict String ℕ) (p : ℕ) (queue : List ℕ) (result : List (ModuleSpec C))
      → Inv specs resolved degrees (p ∷ queue) result
      → (spec : ModuleSpec C) × (get_elem? specs p ≡ some spec)
  least degrees p queue result v = go (v.queued p (ground (arith, nat_beq_iff p p)))
    where
      go :
          (n : String) × (p ≡ position_of (identities specs) n)
            × (contains (identities specs) n ≡ true)
            × (contains (identities result) n ≡ false)
            × (waiting specs resolved (identities result) n ≡ 0)
          → (spec : ModuleSpec C) × (get_elem? specs p ≡ some spec)
      go (n, e, i, f, w) =
          let r = get_elem?-position_of specs n i in (r.0, ap (get_elem? specs) e ∙ r.1)

  -- The loop ends with an empty heap: each round adds a module, and there are no more of them.
  pub search_order-Inv :
      (fuel : ℕ) (degrees : Dict String ℕ) (queue : List ℕ) (result : List (ModuleSpec C))
      → Inv specs resolved degrees queue result
      → fuel + length result ≡ suc (length specs)
      → (degrees' : Dict String ℕ) × Inv specs resolved degrees' []
          (search_order fuel specs (identities specs) resolved degrees queue result)
  unfolding search_order
  search_order-Inv zero degrees queue result v f = absurd (
      omega (
        arith,
        length-le_of_subset (identities result) (identities specs) v.once v.inside,
        length-identities result,
        length-identities specs,
      ))
  search_order-Inv (suc fuel) degrees [] result v f = (degrees, v)
  search_order-Inv (suc fuel) degrees (p ∷ queue) result v f =
      let (spec, found) = least degrees p queue result v in
      rw (found, search_order)
        (search_order-Inv fuel _ _ (result ++ spec ∷ [])
          (Inv-next specs resolved names_differ deps_differ degrees p queue result v spec found)
          (omega (arith, length-append result (spec ∷ []))))

pub InOrder-weaken :
    (deps waits : String → List String) (seen done : List String)
    → ((n d : String)
        → contains done n ≡ true
        → contains (waits n) d ≡ true
        → contains (deps n) d ≡ true)
    → InOrder deps seen done
    → InOrder waits seen done
InOrder-weaken deps waits seen [] f o = tt
InOrder-weaken deps waits seen (n ∷ done) f o = (
  λ d h. o.0 d (f n d (ground (arith, eq_iff n n)) h),
  InOrder-weaken deps waits (seen ++ n ∷ []) done (λ m d c h. f m d (ground arith) h) o.1,
)

-- Something of a list is left over: some element of it is among what is left of a larger one.
pub any-minus :
    (xs names done : List String)
    → ((d : String) → contains xs d ≡ true → contains names d ≡ true)
    → length (minus xs done) ≡ 0 ⊎ (any (λ d. contains (minus names done) d) xs ≡ true)
any-minus [] names done f = inl refl
any-minus (x ∷ xs) names done f = ground (
  arith,
  any-minus xs names done (λ d h. f d (ground arith)),
  contains-minus names done x,
  f x,
  eq_iff x x,
)

pub is_empty-minus :
    (names done : List String) (n : String)
    → is_empty (minus names done) ≡ true
    → contains names n ≡ true
    → contains done n ≡ true
is_empty-minus [] done n e h = absurd (cc)
is_empty-minus (x ∷ names) done n e h =
    ground (arith, is_empty-minus names done n, eq_iff x n, ap (contains done))
