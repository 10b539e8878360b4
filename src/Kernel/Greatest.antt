-- ===== src/Kernel/Greatest.antt =====
-- The modules that src/aurora_kernel/resolve.py keeps are the greatest set that supports itself.
use aurora_bot.Prelude.{
  ℕ, zero, suc, ◌<◌, String, ◌≡◌, refl, ap, sym, ◌∙◌, Bool, true, false, not, ◌&&◌, Option, some,
  List, [], ◌∷◌, arith, length, length-keep-le, keep, any, is_empty, contains, contains-append,
  string_eq, Bool-cases, if_case, subst, inl, inr,
}
use aurora_bot.Kernel.Declaration.{ModuleSpec}
use aurora_bot.Kernel.Optional.{
  provided, identities, lacks, is_unsatisfied, is_left_out, skipped, without, drop_loop,
  drop_unsatisfied_optional,
}

lacks-more :
    (wanted available more : List String)
    → ((x : String) → contains available x ≡ true → contains more x ≡ true)
    → lacks wanted more ≡ true
    → lacks wanted available ≡ true
lacks-more [] available more f h = h
lacks-more (w ∷ wanted) available more f h = ground (arith, lacks-more wanted available more f, f w)

module _ {C : Type 0} where
  -- The modules of some names.
  abbrev pub named : (String → Bool) → List (ModuleSpec C) → List (ModuleSpec C)
  named c specs = keep (λ spec. c spec.module_id) specs

  -- No module of the list is left out by the list.
  abbrev pub IsSupported : List (ModuleSpec C) → Type 0
  IsSupported specs = any (is_left_out specs) specs ≡ false

  provided-keep :
      (p : ModuleSpec C → Bool) (specs : List (ModuleSpec C)) (x : String)
      → contains (provided (keep p specs)) x ≡ true
      → contains (provided specs) x ≡ true
  unfolding provided
  provided-keep p [] x h = h
  provided-keep p (s ∷ specs) x h = ground (
    arith,
    provided-keep p specs x,
    contains-append s.provides (provided specs) x,
    contains-append s.provides (provided (keep p specs)) x,
  )

  identities-keep :
      (p : ModuleSpec C → Bool) (specs : List (ModuleSpec C)) (x : String)
      → contains (identities (keep p specs)) x ≡ true
      → contains (identities specs) x ≡ true
  unfolding identities
  identities-keep p [] x h = h
  identities-keep p (s ∷ specs) x h = ground (arith, identities-keep p specs x)

  -- What a list leaves out, a part of it leaves out.
  is_left_out-keep :
      (p : ModuleSpec C → Bool) (specs : List (ModuleSpec C)) (s : ModuleSpec C)
      → is_left_out specs s ≡ true
      → is_left_out (keep p specs) s ≡ true
  unfolding is_left_out is_unsatisfied
  is_left_out-keep p specs s h = ground (
    arith,
    lacks-more s.requires (provided (keep p specs)) (provided specs) (provided-keep p specs),
    lacks-more s.depends (identities (keep p specs)) (identities specs) (identities-keep p specs),
  )

  named-skip :
      (c : String → Bool) (u v : ModuleSpec C → Bool) (specs : List (ModuleSpec C)) (x : String)
      → ((s : ModuleSpec C) → u s ≡ true → v s ≡ true)
      → c x ≡ true
      → contains (identities (keep u specs)) x ≡ true
      → any v (named c specs) ≡ true
  unfolding identities
  named-skip c u v [] x f cx h = h
  named-skip c u v (s ∷ specs) x f cx h =
      ground (arith, named-skip c u v specs x f cx, f s, string_eq.test_iff s.module_id x, ap c)

  named-keep :
      (c n : String → Bool) (specs : List (ModuleSpec C))
      → ((x : String) → c x ≡ true → n x ≡ true)
      → named c (named n specs) ≡ named c specs
  named-keep c n [] f = refl
  named-keep c n (s ∷ specs) f = ground (arith, named-keep c n specs f, f s.module_id)

  named-named :
      (c n : String → Bool) (specs : List (ModuleSpec C))
      → named n (named c specs) ≡ named (λ x. c x && n x) specs
  named-named c n [] = refl
  named-named c n (s ∷ specs) = ground (arith, named-named c n specs)

  -- A round keeps every set that supports itself.
  without-named :
      (c : String → Bool) (specs : List (ModuleSpec C))
      → IsSupported (named c specs)
      → named c (without (skipped specs) specs) ≡ named c specs
  unfolding without skipped
  without-named c specs h = named-keep c _ specs λ x cx.
      elim (Bool-cases (contains (skipped specs) x)) [
        | inl b ↦ absurd (
            cc (
              h,
              named-skip c (is_left_out specs) (is_left_out (named c specs)) specs x
                  (is_left_out-keep _ specs) cx b,
            ))
        | inr b ↦ ap not b
      ]

  skip-any :
      (u : ModuleSpec C → Bool) (names : List String) (specs : List (ModuleSpec C))
      → ((x : String) → contains (identities (keep u specs)) x ≡ true → contains names x ≡ true)
      → is_empty (identities (keep u specs)) ≡ false
      → length (without names specs) < length specs
  unfolding identities without
  skip-any u names [] f h = absurd (cc)
  skip-any u names (s ∷ specs) f h = elim (Bool-cases (u s)) [
    | inl b ↦ ground (
      arith,
      f s.module_id,
      string_eq.test_iff s.module_id s.module_id,
      length-keep-le (λ spec. not (contains names spec.module_id)) specs,
    )
    | inr b ↦ ground (arith, skip-any u names specs (λ x g. f x (ground arith)))
  ]

  left_out-any :
      (u : ModuleSpec C → Bool) (specs : List (ModuleSpec C))
      → is_empty (identities (keep u specs)) ≡ true
      → any u specs ≡ false
  unfolding identities
  left_out-any u [] h = refl
  left_out-any u (s ∷ specs) h = ground (arith, left_out-any u specs)

  -- The outcome of the loop, for a list that names select from the given ones.
  pub record IsGreatest (specs : List (ModuleSpec C)) (outcome : Option (List (ModuleSpec C)))
      : Type 0 where
    pub left : List (ModuleSpec C)
    pub ends : outcome ≡ some left
    pub chosen : String → Bool
    pub selects : left ≡ named chosen specs
    pub supported : IsSupported left
    pub greatest : (c : String → Bool) → IsSupported (named c specs) → named c left ≡ named c specs

  drop_loop-IsGreatest :
      (specs remaining : List (ModuleSpec C)) (chosen : String → Bool) (fuel : ℕ)
      → remaining ≡ named chosen specs
      → length remaining < fuel
      → ((c : String → Bool) → IsSupported (named c specs) → named c remaining ≡ named c specs)
      → IsGreatest specs (drop_loop fuel remaining)
  unfolding drop_loop
  drop_loop-IsGreatest specs remaining chosen zero e l g = absurd (omega arith)
  drop_loop-IsGreatest specs remaining chosen (suc fuel) e l g =
      if_case (IsGreatest specs) (is_empty (skipped remaining)) _ _
        (λ b. record {
          left = remaining;
          ends = refl;
          chosen = chosen;
          selects = e;
          supported = left_out-any (is_left_out remaining) remaining (unfold skipped in b);
          greatest = g;
        })
        (λ b.
          drop_loop-IsGreatest specs (without (skipped remaining) remaining)
            (λ x. chosen x && not (contains (skipped remaining) x)) fuel
            (unfold without in
              (ap (named (λ x. not (contains (skipped remaining) x))) e
                ∙ named-named chosen _ specs))
            (smaller b)
            (λ c h. without-named c remaining (subst IsSupported (sym (g c h)) h) ∙ g c h))
    where
      smaller :
          is_empty (skipped remaining) ≡ false
          → length (without (skipped remaining) remaining) < fuel
      smaller b = omega (
        arith,
        skip-any (is_left_out remaining) (skipped remaining) remaining (λ x h. unfold skipped in h)
            (unfold skipped in b),
      )

  -- For every list of modules the loop ends, and leaves a list that supports itself: no optional
  -- module in it lacks a capability or a namespace that the list does not offer. The list is a
  -- selection by name of the given modules, in their order, and the greatest that supports itself:
  -- it holds every module of every other one.
  pub drop_unsatisfied_optional-IsGreatest :
      (specs : List (ModuleSpec C)) → IsGreatest specs (drop_unsatisfied_optional specs)
  unfolding drop_unsatisfied_optional
  drop_unsatisfied_optional-IsGreatest specs =
      drop_loop-IsGreatest specs specs (λ x. true) (suc (length specs)) (sym (named_all specs))
        (omega arith) (λ c h. refl)
    where
      named_all : (xs : List (ModuleSpec C)) → named (λ x. true) xs ≡ xs
      named_all [] = refl
      named_all (x ∷ xs) = ap (◌∷◌ x) (named_all xs)
