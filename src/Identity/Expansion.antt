-- ===== src/Identity/Expansion.antt =====
-- What `TagTable.expand` (src/aurora_bot/contracts/identity.py) returns.
use aurora_bot.Prelude.{
  ℕ, zero, suc, ◌+◌, ◌≡◌, inl, inr, refl, sym, ap, subst, String, Bool, true, false, Option, none,
  some, List, [], ◌∷◌, ◌++◌, length, length-append, contains, arith, leb, Option-cases, Result, ok,
  err, ◌>>◌, refuse_if, bind-eq-ok, ok-injective, string_eq,
}
use aurora_bot.Prelude.Dict
use aurora_bot.Prelude.Dict.{Dict}
use aurora_bot.Identity.Identifiers.{IdentityError, cycle, too_deep, unknown_tag}
use aurora_bot.Identity.Tags.{
  tag_of, max_tag_depth, check_tag, values_of, expand_named, expand_all, expand_into,
}

-- Entries and what they stand for, with tags at most so many levels deep.
pub data Expands (tags : Dict String (List String)) : ℕ → List String → List String → Type 0 where
  nothing : (n : ℕ) → Expands tags n [] []
  entry :
      (n : ℕ) (e : String) (es out : List String)
      → tag_of e ≡ none
      → Expands tags n es out
      → Expands tags n (e ∷ es) (e ∷ out)
  tag :
      (n : ℕ) (e name : String) (es values inner out : List String)
      → tag_of e ≡ some name
      → Dict.get tags name ≡ some values
      → Expands tags n values inner
      → Expands tags (suc n) es out
      → Expands tags (suc n) (e ∷ es) (inner ++ out)

abbrev Expander : Type 0
Expander = List String → List String → Result IdentityError (List String)

accepted_both :
    {A : Type 0} (x y : Bool) (rest : Result IdentityError A) (a : A)
    → ((refuse_if x cycle >> refuse_if y too_deep) >> rest) ≡ ok a
    → (y ≡ false) × (rest ≡ ok a)
accepted_both true y rest a h = absurd (cc)
accepted_both false true rest a h = absurd (cc)
accepted_both false false rest a h = (refl, h)

-- A tag that is accepted is not below too many others.
accepted_tag :
    {A : Type 0} (stack : List String) (name : String) (rest : Result IdentityError A) (a : A)
    → (check_tag stack name >> rest) ≡ ok a
    → (leb max_tag_depth (length stack) ≡ false) × (rest ≡ ok a)
unfolding check_tag
accepted_tag stack name = accepted_both (contains stack name) (leb max_tag_depth (length stack))

found :
    (o : Option (List String)) (values : List String)
    → (elim o [ none ↦ err unknown_tag | some v ↦ ok v ]) ≡ ok values
    → o ≡ some values
found none values h = absurd (cc)
found (some v) values h = ap some (ok-injective h)

module _ (tags : Dict String (List String)) where
  found_values :
      (name : String) (values : List String)
      → values_of tags name ≡ ok values
      → Dict.get tags name ≡ some values
  unfolding values_of
  found_values name values h = found (Dict.get tags name) values h

  -- What the tests of an entry give.
  abbrev Way : Expander → List String → String → List String → Option String → Type 0
  Way inside stack e out none = e ∷ [] ≡ out
  Way inside stack e out (some name) =
      (values : List String) × (leb max_tag_depth (length stack) ≡ false)
      × (Dict.get tags name ≡ some values)
      × (inside (stack ++ name ∷ []) values ≡ ok out)

  expand_named-Way :
      (inside : Expander) (stack : List String) (e : String) (out : List String) (o : Option String)
      → expand_named tags inside stack e o ≡ ok out
      → Way inside stack e out o
  unfolding expand_named
  expand_named-Way inside stack e out none h = ok-injective h
  expand_named-Way inside stack e out (some name) h =
      let a = accepted_tag stack name _ out h in
      let r = bind-eq-ok (values_of tags name) _ a.1 in (r.0, a.0, found_values name r.0 r.1, r.2)

  -- Tags can be expanded one level less deep inside of an accepted tag.
  abbrev Deeper : ℕ → List String → Expander → Type 0
  Deeper n stack inside =
      leb max_tag_depth (length stack) ≡ false
      → (m : ℕ) × (n ≡ suc m)
        × ((name : String) (values out : List String)
            → inside (stack ++ name ∷ []) values ≡ ok out
            → Expands tags m values out)

  expand_all-Expands :
      (n : ℕ) (stack : List String) (inside : Expander) (entries out : List String)
      → Deeper n stack inside
      → expand_all tags inside stack entries ≡ ok out
      → Expands tags n entries out
  unfolding expand_all
  expand_all-Expands n stack inside [] out d h =
      subst (Expands tags n []) (ok-injective h) (nothing n)
  expand_all-Expands n stack inside (e ∷ es) out d h =
      let r = bind-eq-ok (expand_named tags inside stack e (tag_of e)) _ h in
      let q = bind-eq-ok (expand_all tags inside stack es) _ r.2 in
      let rest = expand_all-Expands n stack inside es q.0 d q.1 in
      subst (Expands tags n (e ∷ es)) (ok-injective q.2) (elim (Option-cases (tag_of e)) [
        | inl p ↦
            let w =
              expand_named-Way inside stack e r.0 none
                (subst (λ o. expand_named tags inside stack e o ≡ ok r.0) p r.1) in
            subst (λ i. Expands tags n (e ∷ es) (i ++ q.0)) w (entry n e es q.0 p rest)
        | inr (name, p) ↦
            let w =
              expand_named-Way inside stack e r.0 (some name)
                (subst (λ o. expand_named tags inside stack e o ≡ ok r.0) p r.1) in
            let k = d w.1 in
            subst (λ i. Expands tags i (e ∷ es) (r.0 ++ q.0)) (sym k.1)
              (tag k.0 e name es w.0 r.0 q.0 p w.2 (k.2 name w.0 r.0 w.3)
                (subst (λ i. Expands tags i es q.0) k.1 rest))
      ])

  pub expand_into-Expands :
      (n : ℕ) (stack entries out : List String)
      → n + length stack ≡ max_tag_depth
      → expand_into tags (suc n) stack entries ≡ ok out
      → Expands tags n entries out
  unfolding expand_into
  expand_into-Expands zero stack entries out l h =
      expand_all-Expands zero stack (expand_into tags zero) entries out (λ f. absurd (ground arith))
        h
  expand_into-Expands (suc n) stack entries out l h =
      expand_all-Expands (suc n) stack (expand_into tags (suc n)) entries out
        (λ f. (
          n,
          refl,
          λ name values inner k.
              expand_into-Expands n (stack ++ name ∷ []) values inner
                (omega (arith, length-append stack (name ∷ []))) k,
        ))
        h
