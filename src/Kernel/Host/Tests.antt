-- ===== src/Kernel/Host/Tests.antt =====
-- The host's cleanup at concrete inputs.
use aurora_bot.Prelude.{
  ℕ, zero, suc, String, Bool, true, false, ◌≡◌, refl, some, none, Option, List, [], ◌∷◌, ◌++◌,
  string_eq, ok, err, Result, map,
}
use aurora_bot.Kernel.Declaration.{Phase, ModuleSpec}
use aurora_bot.Kernel.Phases.{prepare, construct, close}
use aurora_bot.Kernel.Resolve.Plan.{PhaseStep}
use aurora_bot.Kernel.Resolve.Tests.{module_of}
use aurora_bot.Kernel.Host.Failures.{hooked, cleaned, Failure, Callbacks}
use aurora_bot.Kernel.Host.Prepare.{Progress, rolled_back, rollback, prepare_host}
use aurora_bot.Kernel.Host.Assembly.{Assembly, release}
use aurora_bot.Kernel.Host.Released.{
  after, rollback_actions, rollback-after, release_actions, release-after, failures_of,
}
use aurora_bot.Kernel.Host.Supervision.{
  Op, fail, look, shut, supervise, recorded, arising, supervise-delivers,
}

-- Hooks and cleanups that are numbers: 0 raises, and a setup hook gives itself as its cleanup.
abbrev raised : ℕ → Option String
raised zero = some "broken"
raised (suc n) = none

abbrev callbacks : Callbacks ℕ ℕ String
callbacks = record {
  call = λ log n. raised n;
  set_up = λ log n. ok (some n);
  clean_up = λ log n. raised n;
}

abbrev hooks_of : String → List (Phase × ℕ) → ModuleSpec ℕ
hooks_of id hooks = record (module_of id [] []) { hooks = hooks }

abbrev good : ModuleSpec ℕ
good = hooks_of "good" ((prepare, 7) ∷ (construct, 1) ∷ (close, 0) ∷ [])

abbrev bad : ModuleSpec ℕ
bad = hooks_of "bad" ((prepare, 0) ∷ (construct, 0) ∷ (close, 2) ∷ [])

abbrev steps_of : List (PhaseStep ℕ)
steps_of =
    record { phase = prepare; modules = good ∷ bad ∷ [] }
    ∷ record { phase = construct; modules = good ∷ bad ∷ [] }
    ∷ record { phase = close; modules = bad ∷ good ∷ [] }
    ∷ []

abbrev failure : String → String → Failure String
failure module_name phase_name = record {
  module_name = module_name;
  phase_name = phase_name;
  error = "broken";
}

-- The construction of the second module fails: the first one is closed, and both are cleaned up.
rolls_back :
    prepare_host callbacks steps_of
    ≡ rolled_back "broken" (record {
      failures = failure "good" "close" ∷ failure "bad" "prepare" ∷ [];
      log =
          hooked "good" prepare
          ∷ hooked "bad" prepare
          ∷ hooked "good" construct
          ∷ hooked "bad" construct
          ∷ hooked "good" close
          ∷ cleaned "bad" "prepare"
          ∷ cleaned "good" "prepare"
          ∷ [];
    })
unfolding prepare_host aurora_bot.Prelude.Dict.get
rolls_back = refl

abbrev progress : Progress ℕ ℕ
progress = record {
  cleanups = record { module_name = "good"; phase_name = "prepare"; callback = 7 } ∷ [];
  constructed = good ∷ [];
  log = [];
}

rollback-after_example :
    rollback callbacks progress
    ≡ after callbacks
        (record { failures = []; log = [] })
        (rollback_actions {X = String} callbacks progress)
rollback-after_example = rollback-after callbacks progress

abbrev assembly : Assembly ℕ ℕ String
assembly = record {
  phases = steps_of;
  cleanups = progress.cleanups;
  tasks = [];
  failures = [];
  pending = [];
  released = none;
  activated = true;
  closed = false;
  log = [];
}

release-after_example :
    release callbacks assembly
    ≡ after callbacks (record { failures = []; log = [] }) (release_actions callbacks assembly)
release-after_example = release-after callbacks assembly

abbrev ops : List (Op String)
ops = fail (failure "a" "run") ∷ fail (failure "b" "run") ∷ look ∷ shut ∷ look ∷ shut ∷ []

delivers :
    (supervise callbacks ops assembly).0
    ≡ failure "a" "run" ∷ failure "b" "run" ∷ failure "good" "close" ∷ []
unfolding supervise aurora_bot.Prelude.Dict.get
delivers = refl

supervise-delivers_example :
    ((supervise callbacks ops assembly).0 ++ (supervise callbacks ops assembly).1.pending
      ≡ arising callbacks false (failures_of callbacks [] (release_actions callbacks assembly)) ops)
    × ((supervise callbacks ops assembly).1.failures ≡ recorded ops)
supervise-delivers_example = supervise-delivers callbacks ops assembly
