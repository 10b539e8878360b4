-- ===== src/Identity/Parsing.antt =====
-- The round trip of `Identifier.parse` and `str` (src/aurora_bot/contracts/identity.py).
use Prim.Native.Char.{Char, code}
use text.Mathlib.TextEquality.{Char-path}
use aurora_bot.Prelude.{
  ◌≡◌, ◌↔◌, refl, sym, ap, ap₂, ◌∙◌, subst, String, Bool, true, false, not, none, arith, codes,
  nat_beq, nat_beq_iff, Bool-cases, inl, inr, if◌then◌else◌, if_case, is_blank, is_space, Result,
  ok, ◌>>◌, refuse_if, ok-injective,
}
use aurora_bot.Identity.Names.{scan, namespace_form, is_namespace, is_path}
use aurora_bot.Identity.Identifiers.{
  IdentityError, Identifier, identifier, colon, Parts, after, partition, identify, parse, join,
  print, bad_namespace, bad_path, empty_identity,
}

divided_later :
    (c : Char) (s t : String)
    → nat_beq (code c) colon ≡ false
    → partition (join s (join ":" t)) ≡ record { head = s; separator = true; tail = t }
    → partition (join (String.◌∷◌ c s) (join ":" t))
      ≡ record { head = String.◌∷◌ c s; separator = true; tail = t }
unfolding join partition
divided_later c s t f h =
    ap
      (λ b.
        if b
        then record { head = ""; separator = true; tail = join s (join ":" t) }
        else after c (partition (join s (join ":" t))))
      f
    ∙ ap (after c) h

-- A namespace is divided nowhere.
partition-join :
    (inside : Bool) (s t : String)
    → scan namespace_form inside (codes s) ≡ true
    → partition (join s (join ":" t)) ≡ record { head = s; separator = true; tail = t }
unfolding scan join partition
partition-join inside String.[] t h = refl
partition-join false (String.◌∷◌ c s) t h =
    divided_later c s t (ground arith) (partition-join true s t (ground arith))
partition-join true (String.◌∷◌ c s) t h =
    elim (Bool-cases (nat_beq (code c) namespace_form.separator)) [
      | inl d ↦ divided_later c s t (ground arith) (partition-join false s t (ground arith))
      | inr n ↦ divided_later c s t (ground arith) (partition-join true s t (ground arith))
    ]

join-partition :
    (s : String)
    → (partition s).separator ≡ true
    → join (partition s).head (join ":" (partition s).tail) ≡ s
unfolding join partition
join-partition String.[] = λ h. absurd (cc)
join-partition (String.◌∷◌ c s) =
    if_case (λ (r : Parts). r.separator ≡ true → join r.head (join ":" r.tail) ≡ String.◌∷◌ c s)
      (nat_beq (code c) colon) _ _
      (λ t h. ap (λ d. String.◌∷◌ d s) (Char-path _ c (sym ((nat_beq_iff (code c) colon).0 t))))
      (λ f h. ap (String.◌∷◌ c) (join-partition s h))

-- The two names of an identifier are as the code demands.
abbrev pub IsIdentifier : Identifier → Type 0
IsIdentifier i = (is_namespace i.namespace ≡ true) × (is_path i.path ≡ true)

both_accepted :
    (a b : Bool) (r i : Identifier)
    → (refuse_if (not a) bad_namespace >> (refuse_if (not b) bad_path >> ok r)) ≡ ok i
    → (r ≡ i) × (a ≡ true) × (b ≡ true)
both_accepted false b r i h = absurd (cc)
both_accepted true false r i h = absurd (cc)
both_accepted true true r i h = (ok-injective h, refl, refl)

identifier-IsIdentifier :
    (namespace path : String) (i : Identifier)
    → identifier namespace path ≡ ok i
    → (record { namespace = namespace; path = path } ≡ i) × IsIdentifier i
unfolding identifier
identifier-IsIdentifier namespace path i h =
    let r = both_accepted (is_namespace namespace) (is_path path) _ i h in
    (r.0, subst IsIdentifier r.0 (r.1, r.2))

IsIdentifier-identifier : (i : Identifier) → IsIdentifier i → identifier i.namespace i.path ≡ ok i
unfolding identifier
IsIdentifier-identifier i h =
    ap₂ (λ a b. refuse_if (not a) bad_namespace >> (refuse_if (not b) bad_path >> ok i)) h.0 h.1

join-is_blank :
    (s t : String) → scan namespace_form false (codes s) ≡ true → is_blank (join s t) ≡ false
unfolding join is_blank is_space scan
join-is_blank String.[] t h = absurd (cc)
join-is_blank (String.◌∷◌ c s) t h = ground arith

identified :
    (parts : Parts) (i : Identifier)
    → identify none parts ≡ ok i
    → (parts.separator ≡ true) × (identifier parts.head parts.tail ≡ ok i)
unfolding identify
identified parts i =
    if_case (λ r. r ≡ ok i → (parts.separator ≡ true) × (identifier parts.head parts.tail ≡ ok i))
      parts.separator _ _ (λ t h. (t, h)) (λ f h. absurd (cc))

not_blank :
    {A : Type 0} (blank : Bool) (rest : Result IdentityError A) (a : A)
    → (refuse_if blank empty_identity >> rest) ≡ ok a
    → rest ≡ ok a
not_blank true rest a h = absurd (cc)
not_blank false rest a h = h

-- Without a default owner, a text is parsed to an identifier exactly if the identifier is printed as
-- that text and its two names are a namespace and a path.
pub parse-print :
    (text : String) (i : Identifier)
    → (parse none text ≡ ok i) ↔ ((print i ≡ text) × IsIdentifier i)
unfolding parse print is_namespace identify
parse-print text i = (
  λ h.
      let r = identified (partition text) i (not_blank (is_blank text) _ i h) in
      let k = identifier-IsIdentifier (partition text).head (partition text).tail i r.1 in
      (ap print (sym k.0) ∙ join-partition text r.0, k.1),
  λ h.
      ap (parse none) (sym h.0)
      ∙ ap (λ b. refuse_if b empty_identity >> identify none (partition (print i)))
          (join-is_blank i.namespace (join ":" i.path) h.1.0)
      ∙ ap (identify none) (partition-join false i.namespace i.path h.1.0)
      ∙ IsIdentifier-identifier i h.1,
)
