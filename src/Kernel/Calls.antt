-- ===== src/Kernel/Calls.antt =====
-- The call routes of src/aurora_kernel/calls.py; running the handlers is the interpreter's part.
use aurora_bot.Prelude.{
  ℕ, String, Bool, true, false, not, ◌&&◌, List, [], ◌∷◌, ◌++◌, nat_beq, string_eq, ◌==◌, codes,
  sorted, if◌then◌else◌, Result, ok, err, ◌>>=◌, ◌>>◌, refuse_if, traverse, any, contains,
}
use aurora_bot.Prelude.Dict
use aurora_bot.Prelude.Dict.{Dict}
use aurora_bot.Prelude.Int.{ℤ, int_le, int_beq}
use aurora_bot.Kernel.Declaration.{Callpoint, Hook, ModuleSpec}

pub data CallError : Type 0 where
  foreign_point repeated_point undeclared_target missing_handler tied_handlers : CallError

-- str.startswith, on code points
unfoldable pub starts_with : List ℕ → List ℕ → Bool
starts_with s [] = true
starts_with [] (p ∷ prefix) = false
starts_with (c ∷ s) (p ∷ prefix) = nat_beq c p && starts_with s prefix

-- point.name.startswith(f"{spec.module_id}:")
unfoldable pub belongs_to : String → Callpoint → Bool
unfolding starts_with
belongs_to module_id point = starts_with (codes point.name) (codes module_id ++ codes ":")

-- An implementation with the module that registers it.
abbrev pub Handler : Type 0 → Type 0
Handler C = String × Hook C

pub record CallRoute (C : Type 0) : Type 0 where
  pub point : Callpoint
  pub handlers : List (Handler C)

abbrev pub is_single : Callpoint → Bool
is_single point = point.mode == "single"

-- for point in spec.points
unfoldable pub add_points :
    String → List Callpoint → Dict String Callpoint → Result CallError (Dict String Callpoint)
unfolding belongs_to
add_points module_id [] points = ok points
add_points module_id (point ∷ rest) points = do
  refuse_if (not (belongs_to module_id point)) foreign_point
  refuse_if (contains (Dict.keys points) point.name) repeated_point
  add_points module_id rest (Dict.put points point.name point)

module _ {C : Type 0} where
  abbrev pub priority_of : Handler C → ℤ
  priority_of h = h.1.priority

  -- key=lambda item: -item[1].priority
  abbrev pub not_after : Handler C → Handler C → Bool
  not_after a b = int_le (priority_of b) (priority_of a)

  -- the branch of _select for the mode "single", on the ordered handlers
  unfoldable pub select_first : Callpoint → List (Handler C) → Result CallError (CallRoute C)
  select_first point [] = err missing_handler
  select_first point (h ∷ []) = ok (record { point = point; handlers = h ∷ [] })
  select_first point (h ∷ h' ∷ rest) =
      if int_beq (priority_of h) (priority_of h')
      then err tied_handlers
      else ok (record { point = point; handlers = h ∷ [] })

  -- _select
  unfoldable pub select : Callpoint → List (Handler C) → Result CallError (CallRoute C)
  unfolding select_first
  select point handlers =
      let ordered = sorted not_after handlers in
      if is_single point
      then select_first point ordered
      else ok (record { point = point; handlers = ordered })

  -- for hook in spec.handlers
  unfoldable pub add_handlers :
      String → List (Hook C) → Dict String (List (Handler C)) → Dict String (List (Handler C))
  add_handlers module_id [] handlers = handlers
  add_handlers module_id (hook ∷ rest) handlers = add_handlers module_id rest (
      Dict.put handlers hook.target (Dict.get_or handlers hook.target [] ++ (module_id, hook) ∷ []))

  -- the loop over the modules
  unfoldable pub register :
      List (ModuleSpec C)
      → Dict String Callpoint
      → Dict String (List (Handler C))
      → Result CallError (Dict String Callpoint × Dict String (List (Handler C)))
  unfolding add_points add_handlers
  register [] points handlers = ok (points, handlers)
  register (spec ∷ rest) points handlers = do
    points' ← add_points spec.module_id spec.points points
    register rest points' (add_handlers spec.module_id spec.handlers handlers)

  -- Calls.__init__
  unfoldable pub routes : List (ModuleSpec C) → Result CallError (Dict String (CallRoute C))
  unfolding register select
  routes specs = do
    found ← register specs [] []
    refuse_if (any (λ entry. not (contains (Dict.keys found.0) entry.0)) found.1) undeclared_target
    traverse
        (λ entry. do route ← select entry.1 (Dict.get_or found.1 entry.0 []); ok (entry.0, route))
        found.0
