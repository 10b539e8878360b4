-- ===== src/Kernel/Host/Assembly.antt =====
-- `ManagedAssembly` of src/aurora_kernel/lifecycle.py. A background task is known by its module and
-- phase; that its cancellation is waited for is the event loop's part.
use aurora_bot.Prelude.{
  String, Bool, true, ◌||◌, Option, none, some, List, [], ◌∷◌, ◌++◌, string_eq, reverse,
  if◌then◌else◌,
}
use aurora_bot.Kernel.Declaration.{Phase, task, ModuleSpec}
use aurora_bot.Kernel.Phases.{is_construction, kind_beq}
use aurora_bot.Kernel.Resolve.Plan.{PhaseStep}
use aurora_bot.Kernel.Host.Failures.{
  Event, hooked, Failure, ModuleCleanup, Callbacks, hook_of, Report, collect_hook, collect_cleanups,
}

pub record Assembly (C K X : Type 0) : Type 0 where
  pub phases : List (PhaseStep C)
  pub cleanups : List (ModuleCleanup K)
  pub tasks : List (String × String)
  pub failures : List (Failure X)
  pub pending : List (Failure X)
  pub released : Option (List (Failure X))
  pub activated : Bool
  pub closed : Bool
  pub log : List Event

-- How `activate` ends; an error of a hook goes on to `abort`.
pub data Activation (X : Type 0) : Type 0 where
  activated already_activated : Activation X
  hook_failed : X → Activation X

-- What `next_failure` gives: a failure, the end, or it waits on.
pub data Next (X : Type 0) : Type 0 where
  given : Failure X → Next X
  ended waiting : Next X

module _ {C K X : Type 0} (cb : Callbacks C K X) where
  -- _start for one module
  unfoldable pub start_module :
      Phase → ModuleSpec C → Option C → Assembly C K X → Activation X × Assembly C K X
  start_module phase spec none a = (activated, a)
  start_module phase spec (some hook) a =
      if kind_beq phase.kind task
      then (activated, record a { tasks = a.tasks ++ (spec.module_id, phase.name) ∷ [] })
      else let a' = record a { log = a.log ++ hooked spec.module_id phase ∷ [] } in
        elim (cb.call a.log hook) [ none ↦ (activated, a') | some e ↦ (hook_failed e, a') ]

  abbrev go_on :
      Activation X × Assembly C K X
      → (Assembly C K X → Activation X × Assembly C K X)
      → Activation X × Assembly C K X
  go_on (activated, a) f = f a
  go_on (already_activated, a) f = (already_activated, a)
  go_on (hook_failed e, a) f = (hook_failed e, a)

  -- _start
  unfoldable pub start :
      Phase → List (ModuleSpec C) → Assembly C K X → Activation X × Assembly C K X
  unfolding start_module
  start phase [] a = (activated, a)
  start phase (spec ∷ rest) a =
      go_on (start_module phase spec (hook_of spec phase) a) (start phase rest)

  unfoldable pub start_phases : List (PhaseStep C) → Assembly C K X → Activation X × Assembly C K X
  unfolding start
  start_phases [] a = (activated, a)
  start_phases (step ∷ rest) a =
      go_on
        (if step.phase.shutdown || is_construction step.phase
          then (activated, a)
          else start step.phase step.modules a)
        (start_phases rest)

  -- activate, up to an error
  unfoldable pub activate : Assembly C K X → Activation X × Assembly C K X
  unfolding start_phases
  activate a =
      if a.closed || a.activated
      then (already_activated, a)
      else start_phases a.phases (record a { activated = true })

  -- _shutdown for one module
  unfoldable pub shut_module : Phase → ModuleSpec C → Option C → Report X → Report X
  unfolding collect_hook
  shut_module phase spec none r = r
  shut_module phase spec (some hook) r = collect_hook cb spec.module_id phase hook r

  -- _shutdown
  unfoldable pub shut_down : Phase → List (ModuleSpec C) → Report X → Report X
  unfolding shut_module
  shut_down phase [] r = r
  shut_down phase (spec ∷ rest) r =
      shut_down phase rest (shut_module phase spec (hook_of spec phase) r)

  unfoldable pub shut_down_phases : List (PhaseStep C) → Report X → Report X
  unfolding shut_down
  shut_down_phases [] r = r
  shut_down_phases (step ∷ rest) r =
      shut_down_phases rest (if step.phase.shutdown then shut_down step.phase step.modules r else r)

  -- _release; the failures that the cancelled tasks record are in `pending` by then
  unfoldable pub release : Assembly C K X → Report X
  unfolding shut_down_phases collect_cleanups
  release a =
      collect_cleanups cb (reverse a.cleanups)
        (shut_down_phases a.phases (record { failures = a.pending; log = a.log }))

  -- _close: the first caller owns the failures, and later ones wait for the same release
  unfoldable pub close_assembly : Assembly C K X → List (Failure X) × Assembly C K X
  unfolding release
  close_assembly a = elim a.released [
    | some failures ↦ ([], a)
    | none ↦
        let r = release a in
        (
          r.failures,
          record a {
            closed = true;
            released = some r.failures;
            pending = [];
            tasks = [];
            log = r.log;
          },
        )
  ]

  -- _record_failure
  unfoldable pub record_failure : Failure X → Assembly C K X → Assembly C K X
  record_failure f a = record a { failures = a.failures ++ f ∷ []; pending = a.pending ++ f ∷ [] }

  -- one look of next_failure
  unfoldable pub next_failure : Assembly C K X → Next X × Assembly C K X
  next_failure a = elim a.pending [
    | [] ↦ (if a.closed then ended else waiting, a)
    | f ∷ rest ↦ (given f, record a { pending = rest })
  ]
