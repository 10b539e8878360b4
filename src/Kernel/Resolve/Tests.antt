-- ===== src/Kernel/Resolve/Tests.antt =====
-- Resolving modules at concrete inputs.
use aurora_bot.Prelude.{
  String, Bool, true, false, ◌≡◌, refl, some, none, List, [], ◌∷◌, string_eq, Distinct, arith, map,
  ok, err, Result,
}
use aurora_bot.Prelude.Dict
use aurora_bot.Prelude.Dict.{Dict}
use aurora_bot.Prelude.Int.{pos}
use aurora_bot.Kernel.Declaration.{ModuleSpec}
use aurora_bot.Kernel.Optional.{identities}
use aurora_bot.Kernel.Resolve.Checks.{cycle, repeated_module, tied_providers}
use aurora_bot.Kernel.Resolve.Topological.{topological}
use aurora_bot.Kernel.Resolve.Plan.{resolve}
use aurora_bot.Kernel.Resolve.Order.{Outcome, topological-Outcome}

abbrev pub module_of : {C : Type 0} → String → List String → List String → ModuleSpec C
module_of id provides requires = record {
  module_id = id;
  depends = [];
  provides = provides;
  requires = requires;
  contributes = [];
  consumes = [];
  declares = [];
  priority = pos 0;
  optional = false;
  order = [];
  hooks = [];
  points = [];
  handlers = [];
  manifest = record { version = "1.0.0"; kernel_api = ">=1,<2" };
}

abbrev world : ModuleSpec (Unit {0})
world = module_of "world" ("journal" ∷ []) ("time" ∷ [])

abbrev bot : ModuleSpec (Unit {0})
bot = module_of "bot" [] ("journal" ∷ [])

abbrev clock : ModuleSpec (Unit {0})
clock = module_of "clock" ("time" ∷ []) []

abbrev specs : List (ModuleSpec (Unit {0}))
specs = bot ∷ clock ∷ world ∷ []

abbrev dependencies : Dict String (List String)
dependencies = ("bot", "world" ∷ []) ∷ ("clock", []) ∷ ("world", "clock" ∷ []) ∷ []

orders : topological specs dependencies ≡ ok (clock ∷ world ∷ bot ∷ [])
unfolding topological aurora_bot.Prelude.sorted Dict.get_or Dict.put
orders = refl

finds_cycle :
    topological specs (("bot", "world" ∷ []) ∷ ("clock", "bot" ∷ []) ∷ ("world", "clock" ∷ []) ∷ [])
    ≡ err cycle
unfolding topological aurora_bot.Prelude.sorted Dict.get_or
finds_cycle = refl

dependencies-Distinct : (n : String) → Distinct (Dict.get_or dependencies n [])
unfolding Dict.get_or
dependencies-Distinct n = ground arith

topological-Outcome_example : Outcome specs dependencies (topological specs dependencies)
unfolding identities
topological-Outcome_example =
    topological-Outcome specs dependencies (refl, (refl, (refl, tt))) dependencies-Distinct

chooses_tied :
    resolve (λ m. true) (clock ∷ module_of "sun" ("time" ∷ []) [] ∷ []) ≡ err tied_providers
unfolding resolve Dict.put Dict.get_or aurora_bot.Prelude.str_le
chooses_tied = refl

repeats : resolve (λ m. true) (clock ∷ bot ∷ clock ∷ []) ≡ err repeated_module
unfolding resolve
repeats = refl
