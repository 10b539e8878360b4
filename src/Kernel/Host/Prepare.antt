-- ===== src/Kernel/Host/Prepare.antt =====
-- `Host.prepare` and `Host._rollback` of src/aurora_kernel/host.py.
use aurora_bot.Prelude.{
  String, Option, none, some, List, [], ◌∷◌, ◌++◌, string_eq, reverse, contains, if◌then◌else◌,
  Result, ok, err,
}
use aurora_bot.Kernel.Declaration.{Phase, setup, ModuleSpec}
use aurora_bot.Kernel.Phases.{close, is_construction, kind_beq}
use aurora_bot.Kernel.Resolve.Plan.{PhaseStep}
use aurora_bot.Kernel.Host.Failures.{
  Event, hooked, ModuleCleanup, Callbacks, hook_of, Report, collect_hook, collect_cleanups,
}

-- What `prepare` has so far.
pub record Progress (C K : Type 0) : Type 0 where
  pub cleanups : List (ModuleCleanup K)
  pub constructed : List (ModuleSpec C)
  pub log : List Event

pub data Prepared (C K X : Type 0) : Type 0 where
  going : Progress C K → Prepared C K X
  stopped : X → Progress C K → Prepared C K X

-- How a call of `prepare` ends.
pub data Host (C K X : Type 0) : Type 0 where
  ready : Progress C K → Host C K X
  rolled_back : X → Report X → Host C K X

module _ {C K X : Type 0} (cb : Callbacks C K X) where
  abbrev add_cleanup : String → String → Option K → List (ModuleCleanup K) → List (ModuleCleanup K)
  add_cleanup module_id phase_name none cleanups = cleanups
  add_cleanup module_id phase_name (some k) cleanups =
      cleanups ++ record { module_name = module_id; phase_name = phase_name; callback = k } ∷ []

  -- the hook of a setup phase
  unfoldable pub run_setup :
      Phase → ModuleSpec C → Progress C K → Result X (Option K) → Prepared C K X
  run_setup phase spec g (err e) =
      stopped e (record g { log = g.log ++ hooked spec.module_id phase ∷ [] })
  run_setup phase spec g (ok k) = going (record g {
    cleanups = add_cleanup spec.module_id phase.name k g.cleanups;
    log = g.log ++ hooked spec.module_id phase ∷ [];
  })

  -- the hook of a build phase
  unfoldable pub run_build : Phase → ModuleSpec C → Progress C K → Option X → Prepared C K X
  run_build phase spec g (some e) =
      stopped e (record g { log = g.log ++ hooked spec.module_id phase ∷ [] })
  run_build phase spec g none = going (record g {
    constructed = g.constructed ++ spec ∷ [];
    log = g.log ++ hooked spec.module_id phase ∷ [];
  })

  unfoldable pub prepare_hook : Phase → ModuleSpec C → Option C → Progress C K → Prepared C K X
  unfolding run_setup run_build
  prepare_hook phase spec none g = going g
  prepare_hook phase spec (some hook) g =
      if kind_beq phase.kind setup
      then run_setup phase spec g (cb.set_up g.log hook)
      else run_build phase spec g (cb.call g.log hook)

  abbrev and_then : Prepared C K X → (Progress C K → Prepared C K X) → Prepared C K X
  and_then (going g) f = f g
  and_then (stopped e g) f = stopped e g

  unfoldable pub prepare_modules : Phase → List (ModuleSpec C) → Progress C K → Prepared C K X
  unfolding prepare_hook
  prepare_modules phase [] g = going g
  prepare_modules phase (spec ∷ rest) g =
      and_then (prepare_hook phase spec (hook_of spec phase) g) (prepare_modules phase rest)

  unfoldable pub prepare_phases : List (PhaseStep C) → Progress C K → Prepared C K X
  unfolding prepare_modules
  prepare_phases [] g = going g
  prepare_phases (step ∷ rest) g =
      and_then
        (if is_construction step.phase then prepare_modules step.phase step.modules g else going g)
        (prepare_phases rest)

  -- collect_failure of the closing hook, where there is one
  unfoldable pub close_module : ModuleSpec C → Option C → Report X → Report X
  unfolding collect_hook
  close_module spec none r = r
  close_module spec (some hook) r = collect_hook cb spec.module_id close hook r

  -- the first loop of _rollback
  unfoldable pub close_modules : List String → List (ModuleSpec C) → Report X → Report X
  unfolding close_module
  close_modules closed [] r = r
  close_modules closed (spec ∷ rest) r =
      let again = contains closed spec.module_id in
      close_modules (if again then closed else spec.module_id ∷ closed) rest
        (if again then r else close_module spec (hook_of spec close) r)

  -- _rollback
  unfoldable pub rollback : Progress C K → Report X
  unfolding close_modules collect_cleanups
  rollback g =
      collect_cleanups cb (reverse g.cleanups)
        (close_modules [] (reverse g.constructed) (record { failures = []; log = g.log }))

  abbrev host_of : Prepared C K X → Host C K X
  host_of (going g) = ready g
  host_of (stopped e g) = rolled_back e (rollback g)

  -- prepare, once the host is claimed; what it raises is left to raise_with_cleanup
  unfoldable pub prepare_host : List (PhaseStep C) → Host C K X
  unfolding prepare_phases rollback
  prepare_host phases =
      host_of (prepare_phases phases (record { cleanups = []; constructed = []; log = [] }))
