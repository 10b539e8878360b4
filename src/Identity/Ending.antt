-- ===== src/Identity/Ending.antt =====
-- `TagTable.expand` (src/aurora_bot/contracts/identity.py) ends, and its only failures are those of
-- the tags.
use aurora_bot.Prelude.{
  ℕ, zero, suc, ◌+◌, ◌≡◌, ◌≢◌, ◌↔◌, ◌⊎◌, inl, inr, refl, sym, ap, ◌∙◌, subst, String, Bool, true,
  false, Option, none, some, List, [], ◌∷◌, ◌++◌, length, length-append, contains, arith, leb,
  Bool-cases, Result, ok, err, ◌>>=◌, ◌>>◌, refuse_if, string_eq,
}
use aurora_bot.Prelude.Dict
use aurora_bot.Prelude.Dict.{Dict}
use aurora_bot.Identity.Identifiers.{IdentityError, cycle, too_deep, unknown_tag, out_of_fuel}
use aurora_bot.Identity.Tags.{
  tag_of, max_tag_depth, check_tag, values_of, expand_named, expand_all, expand_into, expand,
}
use aurora_bot.Identity.Expansion.{Expands, nothing, entry, tag, expand_into-Expands}

-- A result that does not say that the fuel was spent.
abbrev Ends : {A : Type 0} → Result IdentityError A → Type 0
Ends r = r ≢ err out_of_fuel

bind-Ends :
    {A B : Type 0} (r : Result IdentityError A) (f : A → Result IdentityError B)
    → Ends r
    → ((a : A) → Ends (f a))
    → Ends (r >>= f)
bind-Ends (ok a) f h g = g a
bind-Ends (err e) f h g = λ p. h (cc)

refused-Ends :
    {A : Type 0} (x y : Bool) (rest : Result IdentityError A)
    → (y ≡ false → Ends rest)
    → Ends ((refuse_if x cycle >> refuse_if y too_deep) >> rest)
refused-Ends true y rest h = λ p. absurd (cc)
refused-Ends false true rest h = λ p. absurd (cc)
refused-Ends false false rest h = h refl

looked_up-Ends :
    (o : Option (List String))
    → Ends {A = List String} (elim o [ none ↦ err unknown_tag | some values ↦ ok values ])
looked_up-Ends none = λ p. absurd (cc)
looked_up-Ends (some v) = λ p. absurd (cc)

values_of-Ends : (tags : Dict String (List String)) (name : String) → Ends (values_of tags name)
unfolding values_of
values_of-Ends tags name = looked_up-Ends (Dict.get tags name)

module _ (tags : Dict String (List String)) where
  expand_named-Ends :
      (inside : List String → List String → Result IdentityError (List String))
      (stack : List String) (e : String) (o : Option String)
      → (leb max_tag_depth (length stack) ≡ false
          → (name : String) (values : List String) → Ends (inside (stack ++ name ∷ []) values))
      → Ends (expand_named tags inside stack e o)
  unfolding expand_named check_tag
  expand_named-Ends inside stack e none h = λ p. absurd (cc)
  expand_named-Ends inside stack e (some name) h =
      refused-Ends (contains stack name) (leb max_tag_depth (length stack)) _
        (λ f. bind-Ends (values_of tags name) _ (values_of-Ends tags name) (h f name))

  expand_all-Ends :
      (inside : List String → List String → Result IdentityError (List String))
      (stack entries : List String)
      → (leb max_tag_depth (length stack) ≡ false
          → (name : String) (values : List String) → Ends (inside (stack ++ name ∷ []) values))
      → Ends (expand_all tags inside stack entries)
  unfolding expand_all
  expand_all-Ends inside stack [] h = λ p. absurd (cc)
  expand_all-Ends inside stack (e ∷ es) h =
      bind-Ends (expand_named tags inside stack e (tag_of e)) _
        (expand_named-Ends inside stack e (tag_of e) h)
        (λ a.
          bind-Ends (expand_all tags inside stack es) _ (expand_all-Ends inside stack es h)
            (λ b p. absurd (cc)))

  expand_into-Ends :
      (n : ℕ) (stack entries : List String)
      → n + length stack ≡ max_tag_depth
      → Ends (expand_into tags (suc n) stack entries)
  unfolding expand_into
  expand_into-Ends zero stack entries l =
      expand_all-Ends (expand_into tags zero) stack entries (λ f. absurd (ground arith))
  expand_into-Ends (suc n) stack entries l =
      expand_all-Ends (expand_into tags (suc n)) stack entries (λ f name values.
        expand_into-Ends n (stack ++ name ∷ []) values
          (omega (arith, length-append stack (name ∷ []))))

  -- For every table of tags, with cycles or not, and all entries, the fuel of the model is enough:
  -- one level more than the depth that the code allows.
  pub expand-ends : (entries : List String) → expand tags entries ≢ err out_of_fuel
  unfolding expand
  expand-ends entries = expand_into-Ends max_tag_depth [] entries refl

-- A result, unless tags are in a cycle.
abbrev Outcome : {A : Type 0} → Result IdentityError A → A → Type 0
Outcome r a = (r ≡ ok a) ⊎ (r ≡ err cycle)

bind-Outcome :
    {A B : Type 0} (r : Result IdentityError A) (f : A → Result IdentityError B) (a : A) (b : B)
    → Outcome r a
    → Outcome (f a) b
    → Outcome (r >>= f) b
bind-Outcome r f a b (inl h) (inl g) = inl (ap (λ x. x >>= f) h ∙ g)
bind-Outcome r f a b (inl h) (inr g) = inr (ap (λ x. x >>= f) h ∙ g)
bind-Outcome r f a b (inr h) g = inr (ap (λ x. x >>= f) h)

check_tag-Outcome :
    (stack : List String) (name : String)
    → leb max_tag_depth (length stack) ≡ false
    → Outcome (check_tag stack name) tt
unfolding check_tag
check_tag-Outcome stack name f = elim (Bool-cases (contains stack name)) [
  | inl t ↦
      inr (ap (λ b. refuse_if b cycle >> refuse_if (leb max_tag_depth (length stack)) too_deep) t)
  | inr n ↦ inl (
      ap (λ b. refuse_if b cycle >> refuse_if (leb max_tag_depth (length stack)) too_deep) n
      ∙ ap (λ b. refuse_if b too_deep) f)
]

module _ (tags : Dict String (List String)) where
  look_up : Option (List String) → Result IdentityError (List String)
  look_up o = elim o [ none ↦ err unknown_tag | some values ↦ ok values ]

  Expands-Outcome :
      (n : ℕ) (stack entries out : List String)
      → n + length stack ≡ max_tag_depth
      → Expands tags n entries out
      → Outcome (expand_into tags (suc n) stack entries) out
  unfolding expand_into expand_all expand_named values_of look_up
  Expands-Outcome _ stack _ _ l (nothing n) = inl refl
  Expands-Outcome _ stack _ _ l (entry n e es out p x) =
      bind-Outcome (expand_named tags (expand_into tags n) stack e (tag_of e)) _ (e ∷ []) (e ∷ out)
        (inl (ap (expand_named tags (expand_into tags n) stack e) p))
        (bind-Outcome (expand_into tags (suc n) stack es) _ out (e ∷ out)
          (Expands-Outcome n stack es out l x) (inl refl))
  Expands-Outcome _ stack _ _ l (tag n e name es values inner out p g x y) =
      bind-Outcome (expand_named tags (expand_into tags (suc n)) stack e (tag_of e)) _ inner
        (inner ++ out)
        (subst (λ o. Outcome (expand_named tags (expand_into tags (suc n)) stack e o) inner) (sym p)
          (bind-Outcome (check_tag stack name) _ tt inner
            (check_tag-Outcome stack name (ground arith))
            (subst (λ r. Outcome (r >>= expand_into tags (suc n) (stack ++ name ∷ [])) inner)
              (sym (ap look_up g))
              (Expands-Outcome n (stack ++ name ∷ []) values inner
                (omega (arith, length-append stack (name ∷ []))) x))))
        (bind-Outcome (expand_into tags (suc (suc n)) stack es) _ out (inner ++ out)
          (Expands-Outcome (suc n) stack es out l y) (inl refl))

  -- Where no cycle is reported, entries expand to a list exactly if it is what they stand for, in
  -- order, with tags at most 16 levels deep.
  pub expand-Expands :
      (entries out : List String)
      → expand tags entries ≢ err cycle
      → (expand tags entries ≡ ok out) ↔ Expands tags max_tag_depth entries out
  unfolding expand
  expand-Expands entries out h = (
    expand_into-Expands tags max_tag_depth [] entries out refl,
    λ x. elim (Expands-Outcome max_tag_depth [] entries out refl x) [
      | inl g ↦ g
      | inr c ↦ absurd (h c)
    ],
  )
