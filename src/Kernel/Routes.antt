-- ===== src/Kernel/Routes.antt =====
-- What `_select` of src/aurora_kernel/calls.py chooses.
use aurora_bot.Prelude.{
  true, false, ◌≡◌, refl, ap, sym, ◌∙◌, List, [], ◌∷◌, keep, sorted, All, Result, ok, err, if_case,
}
use aurora_bot.Prelude.Order.{Ordered, sorted-Ordered, keep-sorted, All-sorted_back}
use aurora_bot.Prelude.Int.{
  ℤ, int_le, int_beq, int_le_total, int_le_trans, int_beq-int_le, int_beq_join, int_beq_refl,
  int_beq_sym, int_beq_low,
}
use aurora_bot.Kernel.Declaration.{Callpoint}
use aurora_bot.Kernel.Calls.{
  CallError, foreign_point, repeated_point, undeclared_target, missing_handler, tied_handlers,
  Handler, CallRoute, priority_of, not_after, is_single, select_first, select,
}

module _ {C : Type 0} where
  -- The handlers with some priority, in their order.
  abbrev pub at_priority : ℤ → List (Handler C) → List (Handler C)
  at_priority n handlers = keep (λ h. int_beq (priority_of h) n) handlers

  ordered : (handlers : List (Handler C)) → Ordered not_after (sorted not_after handlers)
  ordered handlers =
      sorted-Ordered not_after (λ a b h. int_le_total (priority_of b) (priority_of a) h)
        (λ a b c h g. int_le_trans (priority_of c) (priority_of b) (priority_of a) g h) handlers

  stable :
      (n : ℤ) (handlers : List (Handler C))
      → at_priority n (sorted not_after handlers) ≡ at_priority n handlers
  stable n handlers =
      keep-sorted not_after _ handlers
        (λ x y h g. int_beq_join (priority_of y) (priority_of x) n g h)

  -- A call point that is not in the mode "single" always gets a route. It has every handler, in
  -- descending priority, and those of equal priority in the order of their registration.
  pub select_all :
      (point : Callpoint) (handlers : List (Handler C))
      → is_single point ≡ false
      → (route : CallRoute C) × (select point handlers ≡ ok route)
        × (route.point ≡ point)
        × Ordered not_after route.handlers
        × ((n : ℤ) → at_priority n route.handlers ≡ at_priority n handlers)
  unfolding select
  select_all point handlers f = (
    record { point = point; handlers = sorted not_after handlers },
    rw f,
    refl,
    ordered handlers,
    λ n. stable n handlers,
  )

  -- No handler is above one.
  abbrev pub IsTop : Handler C → List (Handler C) → Type 0
  IsTop h handlers = All (λ x. not_after h x ≡ true) handlers

  -- What is said of the route of a call point in the mode "single", or of its refusal.
  abbrev pub Chosen : Callpoint → List (Handler C) → Result CallError (CallRoute C) → Type 0
  Chosen point handlers (ok route) =
      (route.point ≡ point)
      × (h : Handler C) × (route.handlers ≡ h ∷ [])
      × (at_priority (priority_of h) handlers ≡ h ∷ [])
      × IsTop h handlers
  Chosen point handlers (err missing_handler) = handlers ≡ []
  Chosen point handlers (err e) =
      (e ≡ tied_handlers)
      × (h : Handler C) × (h' : Handler C) × (rest : List (Handler C)) × (at_priority
            (priority_of h) handlers
          ≡ h ∷ h' ∷ rest)
      × IsTop h handlers

  below :
      (a b : ℤ) (handlers : List (Handler C))
      → int_beq b a ≡ false
      → int_le b a ≡ true
      → All (λ x. int_le (priority_of x) b ≡ true) handlers
      → at_priority a handlers ≡ []
  below a b [] f l o = refl
  below a b (x ∷ handlers) f l o =
      rw (int_beq_low a b (priority_of x) f l o.0) (below a b handlers f l o.1)

  select_first-Chosen :
      (point : Callpoint) (handlers : List (Handler C))
      → Ordered not_after handlers
      → Chosen point handlers (select_first point handlers)
  unfolding select_first
  select_first-Chosen point [] o = refl
  select_first-Chosen point (h ∷ []) o = (
    refl,
    h,
    refl,
    rw (int_beq_refl (priority_of h)),
    (int_beq-int_le (priority_of h) (priority_of h) (int_beq_refl (priority_of h)), tt),
  )
  select_first-Chosen point (h ∷ h' ∷ rest) o =
      if_case (Chosen point (h ∷ h' ∷ rest)) (int_beq (priority_of h) (priority_of h')) _ _
        (λ b. (
          refl,
          h,
          h',
          at_priority (priority_of h) rest,
          rw (int_beq_refl (priority_of h), int_beq_sym (priority_of h') (priority_of h), b),
          top,
        ))
        (λ b. (
          refl,
          h,
          refl,
          rw (int_beq_refl (priority_of h), int_beq_sym (priority_of h') (priority_of h), b)
              (ap (◌∷◌ h) (
                below (priority_of h) (priority_of h') rest
                  (int_beq_sym (priority_of h') (priority_of h) ∙ b) o.0.0 o.1.0)),
          top,
        ))
    where
      top : IsTop h (h ∷ h' ∷ rest)
      top = (int_beq-int_le (priority_of h) (priority_of h) (int_beq_refl (priority_of h)), o.0)

  sorted-nil : (handlers : List (Handler C)) → sorted not_after handlers ≡ [] → handlers ≡ []
  sorted-nil [] h = refl
  sorted-nil (x ∷ handlers) h =
      absurd (cc (stable (priority_of x) (x ∷ handlers), h, int_beq_refl (priority_of x)))

  Chosen-sorted :
      (point : Callpoint) (handlers : List (Handler C)) (r : Result CallError (CallRoute C))
      → Chosen point (sorted not_after handlers) r
      → Chosen point handlers r
  Chosen-sorted point handlers (ok route) c =
      (c.0, c.1, c.2, sym (stable _ handlers) ∙ c.3, All-sorted_back not_after _ handlers c.4)
  Chosen-sorted point handlers (err missing_handler) c = sorted-nil handlers c
  Chosen-sorted point handlers (err foreign_point) c =
      (c.0, c.1, c.2, c.3, sym (stable _ handlers) ∙ c.4, All-sorted_back not_after _ handlers c.5)
  Chosen-sorted point handlers (err repeated_point) c =
      (c.0, c.1, c.2, c.3, sym (stable _ handlers) ∙ c.4, All-sorted_back not_after _ handlers c.5)
  Chosen-sorted point handlers (err undeclared_target) c =
      (c.0, c.1, c.2, c.3, sym (stable _ handlers) ∙ c.4, All-sorted_back not_after _ handlers c.5)
  Chosen-sorted point handlers (err tied_handlers) c =
      (c.0, c.1, c.2, c.3, sym (stable _ handlers) ∙ c.4, All-sorted_back not_after _ handlers c.5)

  -- A call point in the mode "single" gets a route exactly to the one handler of the highest
  -- priority; it is refused for want of a handler when it has none, and for a tie when two
  -- handlers share the highest priority, and in no other case.
  pub select_single :
      (point : Callpoint) (handlers : List (Handler C))
      → is_single point ≡ true
      → Chosen point handlers (select point handlers)
  unfolding select
  select_single point handlers t = rw t (
      Chosen-sorted point handlers _
        (select_first-Chosen point (sorted not_after handlers) (ordered handlers)))
