-- ===== src/Kernel/Context/Tests.antt =====
-- The shared context at concrete inputs.
use aurora_bot.Prelude.{
  ℕ, String, Bool, true, false, ◌≡◌, ◌⊎◌, refl, some, none, List, [], ◌∷◌, string_eq, contains,
}
use aurora_bot.Prelude.Dict
use aurora_bot.Kernel.Context.State.{
  Context, returned, raised, left, conflict, empty, ensure, staged_of, transaction, update,
}
use aurora_bot.Kernel.Context.Commit.{
  Write, sets, steps, Serial, transaction-Serial, Updated, update-Updated,
}

abbrev acyclic : ℕ → Bool
acyclic v = false

-- A context with one namespace.
abbrev bot : Context ℕ
bot = left (ensure "bot" empty)

abbrev writes : List (Write ℕ)
writes = sets "bot" "mood" 3 ∷ []

-- A write in the meantime makes an update fail.
conflicts :
    update acyclic "bot" (("mood", 1) ∷ []) (steps acyclic writes) bot
    ≡ raised conflict (steps acyclic writes bot)
unfolding update ensure aurora_bot.Prelude.has_space Dict.put steps
conflicts = refl

transaction-Serial_example :
    (left (transaction (some 1) returned (steps acyclic writes) bot) ≡ bot)
    ⊎ Serial acyclic bot
        (steps acyclic writes bot)
        (returned (staged_of bot))
        (transaction (some 1) returned (steps acyclic writes) bot)
transaction-Serial_example = transaction-Serial acyclic (some 1) returned writes bot

update-Updated_example :
    Updated acyclic "bot"
      (("mood", 1) ∷ ("name", 2) ∷ [])
      bot
      (left (update acyclic "bot" (("mood", 1) ∷ ("name", 2) ∷ []) (λ x. x) bot))
unfolding ensure Dict.put aurora_bot.Prelude.has_space
update-Updated_example = update-Updated acyclic "bot" (("mood", 1) ∷ ("name", 2) ∷ []) bot refl
