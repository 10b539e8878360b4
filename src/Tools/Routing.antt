-- ===== src/Tools/Routing.antt =====
-- Which tool a built registry (src/aurora_bot/tools/registry.py) has for a name.
use aurora_bot.Prelude.{
  if_case, ◌||◌, ◌≡◌, ◌↔◌, refl, sym, ap, ◌∙◌, subst, String, Bool, true, false, Option, none, some,
  List, [], ◌∷◌, first, contains, contains-sorted, Distinct, sorted, str_le, ◌==◌, ==_refl,
  string_eq, eq_iff, arith, Result, ok, ◌>>=◌, ◌>>◌, refuse_if, bind-eq-ok, ok-injective,
  if◌then◌else◌, Bool-cases, inl, inr,
}
use aurora_bot.Prelude.Dict
use aurora_bot.Prelude.Dict.{Dict, put-absent, get-absent, get-put, contains-keys-put}
use aurora_bot.Tools.Registry.{
  Tool, ToolError, repeated_tool, names_of, register, with_tool, arrange, tool_registry,
}

refused :
    {A : Type 0} (bad : Bool) (rest : Result ToolError A) (a : A)
    → (refuse_if bad repeated_tool >> rest) ≡ ok a
    → (bad ≡ false) × (rest ≡ ok a)
refused true rest a h = absurd (cc)
refused false rest a h = (refl, h)

module _ {D C S : Type 0} where
  -- The first tool of a name.
  unfoldable pub find_tool : List (Tool D C S) → String → Option (Tool D C S)
  find_tool tools n = first (λ t. t.name == n) tools

  or_later : Option (Tool D C S) → Option (Tool D C S) → Option (Tool D C S)
  or_later none later = later
  or_later (some t) later = some t

  or_later_step :
      (a later : Option (Tool D C S)) (t : Tool D C S) (same : Bool)
      → (same ≡ true → a ≡ none)
      → or_later (if same then some t else a) later ≡ or_later a (if same then some t else later)
  unfolding or_later
  or_later_step none later t true h = refl
  or_later_step none later t false h = refl
  or_later_step (some u) later t true h = absurd (cc (h refl))
  or_later_step (some u) later t false h = refl

  get-register :
      (tools : List (Tool D C S)) (b r : Dict String (Tool D C S)) (n : String)
      → register tools b ≡ ok r
      → Dict.get r n ≡ or_later (Dict.get b n) (find_tool tools n)
  unfolding register find_tool or_later
  get-register [] b r n h = ap (λ d. Dict.get d n) (sym (ok-injective h)) ∙ go (Dict.get b n)
    where
      go : (o : Option (Tool D C S)) → o ≡ or_later o none
      go none = refl
      go (some t) = refl
  get-register (t ∷ tools) b r n h =
      let p = refused _ _ r h in
      get-register tools (Dict.put b t.name t) r n p.1
      ∙ ap (λ o. or_later o (find_tool tools n)) (get-put b t.name n t)
      ∙ or_later_step (Dict.get b n) (find_tool tools n) t (t.name == n)
          (λ s. subst (λ k. Dict.get b k ≡ none) ((eq_iff t.name n).0 s) (get-absent b t.name p.0))

  get-with_tool :
      (name n : String) (o : Option (Tool D C S)) (rest : Dict String (Tool D C S))
      → Dict.get (with_tool name o rest) n
        ≡ or_later (if name == n then o else none) (Dict.get rest n)
  unfolding Dict.get or_later
  get-with_tool name n none rest =
      if_case (λ r. Dict.get rest n ≡ or_later r (Dict.get rest n)) (name == n) _ _ (λ s. refl)
        (λ s. refl)
  get-with_tool name n (some t) rest = by_name (name == n)
    where
      by_name :
          (same : Bool)
          → (if same then some t else Dict.get rest n)
            ≡ or_later (if same then some t else none) (Dict.get rest n)
      by_name true = refl
      by_name false = refl

  same_value : (o : Option (Tool D C S)) (found : Bool) → or_later o (if found then o else none) ≡ o
  unfolding or_later
  same_value none true = refl
  same_value none false = refl
  same_value (some t) found = refl

  arranged_value :
      (a o : Option (Tool D C S)) (same found : Bool)
      → (same ≡ true → a ≡ o)
      → or_later (if same then a else none) (if found then o else none)
        ≡ (if same || found then o else none)
  unfolding or_later
  arranged_value a o true found h =
      ap (λ x. or_later x (if found then o else none)) (h refl) ∙ same_value o found
  arranged_value a o false found h = refl

  get-arrange :
      (names : List String) (b : Dict String (Tool D C S)) (n : String)
      → Dict.get (arrange names b) n ≡ (if contains names n then Dict.get b n else none)
  unfolding arrange Dict.get
  get-arrange [] b n = refl
  get-arrange (name ∷ names) b n =
      get-with_tool name n (Dict.get b name) (arrange names b)
      ∙ ap (or_later (if name == n then Dict.get b name else none)) (get-arrange names b n)
      ∙ arranged_value (Dict.get b name) (Dict.get b n) (name == n) (contains names n)
          (λ s. ap (Dict.get b) ((eq_iff name n).0 s))

  listed :
      (b : Dict String (Tool D C S)) (n : String)
      → (if contains (Dict.keys b) n then Dict.get b n else none) ≡ Dict.get b n
  listed b n = elim (Bool-cases (contains (Dict.keys b) n)) [
    | inl t ↦ ap (λ c. if c then Dict.get b n else none) t
    | inr f ↦ ap (λ c. if c then Dict.get b n else none) f ∙ sym (get-absent b n f)
  ]

  register-Distinct :
      (tools : List (Tool D C S)) (b r : Dict String (Tool D C S))
      → register tools b ≡ ok r
      → Distinct (names_of tools)
        × ((n : String) → contains (names_of tools) n ≡ true → contains (Dict.keys b) n ≡ false)
  unfolding register
  register-Distinct [] b r h = (tt, λ n c. absurd (cc))
  register-Distinct (t ∷ tools) b r h =
      let p = refused (contains (Dict.keys b) t.name) _ r h in
      let q = register-Distinct tools (Dict.put b t.name t) r p.1 in
      (
        ground (arith, q.0, q.1 t.name, contains-keys-put b t.name t.name t, ==_refl t.name),
        λ n c. ground (
          arith,
          p.0,
          q.1 n,
          contains-keys-put b t.name n t,
          eq_iff t.name n,
          ap (contains (Dict.keys b)),
        ),
      )

  Distinct-register :
      (tools : List (Tool D C S)) (b : Dict String (Tool D C S))
      → Distinct (names_of tools)
      → ((n : String) → contains (names_of tools) n ≡ true → contains (Dict.keys b) n ≡ false)
      → (r : Dict String (Tool D C S)) × (register tools b ≡ ok r)
  unfolding register
  Distinct-register [] b d h = (b, refl)
  Distinct-register (t ∷ tools) b d h =
      let rest = Distinct-register tools (Dict.put b t.name t) d.1 (λ n c. ground (
        arith,
        d.0,
        h n,
        contains-keys-put b t.name n t,
        eq_iff t.name n,
        ap (contains (names_of tools)),
      )) in
      (
        rest.0,
        ap (λ x. refuse_if x repeated_tool >> register tools (Dict.put b t.name t))
              (h t.name (ground (arith, ==_refl t.name)))
            ∙ rest.1,
      )

  arranged : Dict String (Tool D C S) → Result ToolError (Dict String (Tool D C S))
  arranged b = ok (arrange (sorted str_le (Dict.keys b)) b)

  -- A registry of tools is built exactly if no two of them have the same name.
  pub tool_registry-Distinct :
      (tools : List (Tool D C S))
      → ((r : Dict String (Tool D C S)) × (tool_registry tools ≡ ok r)) ↔ Distinct (names_of tools)
  unfolding tool_registry arranged
  tool_registry-Distinct tools = (
    λ h. let p = bind-eq-ok (register tools []) _ h.1 in (register-Distinct tools [] p.0 p.1).0,
    λ d.
        let p = Distinct-register tools [] d (λ n c. refl) in
        (arrange (sorted str_le (Dict.keys p.0)) p.0, ap (λ x. x >>= arranged) p.1),
  )

  -- A built registry has the first tool of each name.
  pub get-tool_registry :
      (tools : List (Tool D C S)) (r : Dict String (Tool D C S)) (n : String)
      → tool_registry tools ≡ ok r
      → Dict.get r n ≡ find_tool tools n
  unfolding tool_registry or_later Dict.get
  get-tool_registry tools r n h =
      let p = bind-eq-ok (register tools []) _ h in
      ap (λ d. Dict.get d n) (sym (ok-injective p.2))
      ∙ get-arrange (sorted str_le (Dict.keys p.0)) p.0 n
      ∙ ap (λ c. if c then Dict.get p.0 n else none) (contains-sorted str_le (Dict.keys p.0) n)
      ∙ listed p.0 n
      ∙ get-register tools [] p.0 n p.1
