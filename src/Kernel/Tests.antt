-- ===== src/Kernel/Tests.antt =====
-- Module declarations at concrete inputs, and the theorems at inputs that meet their conditions.
use aurora_bot.Prelude.{String, Bool, true, false, ◌≡◌, refl, some, List, [], ◌∷◌, string_eq}
use aurora_bot.Prelude.{map, ok, err, sorted}
use aurora_bot.Prelude.Dict.{put, get_or}
use aurora_bot.Prelude.Order.{Ordered}
use aurora_bot.Prelude.Int.{ℤ, pos, negsuc}
use aurora_bot.Kernel.Declaration.{ModuleSpec, Callpoint}
use aurora_bot.Kernel.Calls.{Handler, CallRoute, routes, select, not_after, undeclared_target}
use aurora_bot.Kernel.Routes.{at_priority, Chosen, select_all, select_single}
use aurora_bot.Kernel.Optional.{drop_unsatisfied_optional}
use aurora_bot.Kernel.Greatest.{IsGreatest, drop_unsatisfied_optional-IsGreatest}

abbrev module_of : String → List String → List String → Bool → ModuleSpec (Unit {0})
module_of id provides requires optional = record {
  module_id = id;
  depends = [];
  provides = provides;
  requires = requires;
  contributes = [];
  consumes = [];
  declares = [];
  priority = pos 0;
  optional = optional;
  order = [];
  hooks = [];
  points = [];
  handlers = [];
  manifest = record { version = "1.0.0"; kernel_api = ">=1,<2" };
}

abbrev world : ModuleSpec (Unit {0})
world = module_of "world" ("journal" ∷ []) [] false

-- Without a voice there is no speech, and without speech no song.
abbrev specs : List (ModuleSpec (Unit {0}))
specs =
    module_of "song" [] ("speech" ∷ []) true
    ∷ world
    ∷ module_of "speech" ("speech" ∷ []) ("voice" ∷ []) true
    ∷ []

drops_in_rounds : drop_unsatisfied_optional specs ≡ some (world ∷ [])
unfolding drop_unsatisfied_optional
drops_in_rounds = refl

drop_unsatisfied_optional-IsGreatest_example : IsGreatest specs (drop_unsatisfied_optional specs)
drop_unsatisfied_optional-IsGreatest_example = drop_unsatisfied_optional-IsGreatest specs

abbrev answer : String → Callpoint
answer mode = record { name = "world:answer"; mode = mode }

abbrev handler_of : String → ℤ → Handler (Unit {0})
handler_of module_id priority =
    (module_id, record { target = "world:answer"; callback = tt; priority = priority })

abbrev handlers : List (Handler (Unit {0}))
handlers = handler_of "a" (negsuc 0) ∷ handler_of "b" (pos 2) ∷ handler_of "c" (negsuc 0) ∷ []

abbrev offering : String → List (Handler (Unit {0})) → ModuleSpec (Unit {0})
offering mode hs = record world { points = answer mode ∷ []; handlers = map (λ h. h.1) hs }

routes_first :
    routes (offering "single" handlers ∷ [])
    ≡ ok (
        (
          "world:answer",
          record { point = answer "single"; handlers = handler_of "world" (pos 2) ∷ [] },
        )
        ∷ [])
unfolding routes put sorted get_or
routes_first = refl

routes_undeclared :
    routes (record world { handlers = map (λ h. h.1) handlers } ∷ []) ≡ err undeclared_target
unfolding routes put
routes_undeclared = refl

select_all_example :
    (route : CallRoute (Unit {0})) × (select (answer "collect") handlers ≡ ok route)
    × (route.point ≡ answer "collect")
    × Ordered not_after route.handlers
    × ((n : ℤ) → at_priority n route.handlers ≡ at_priority n handlers)
select_all_example = select_all (answer "collect") handlers refl

select_single_example : Chosen (answer "single") handlers (select (answer "single") handlers)
select_single_example = select_single (answer "single") handlers refl
