-- ===== src/Kernel/Host/Released.antt =====
-- What a rollback and a release call, and which failures they collect, as one list of actions
-- (src/aurora_kernel/host.py, src/aurora_kernel/lifecycle.py).
use aurora_bot.Prelude.{
  String, string_eq, ◌≡◌, refl, sym, Option, none, some, List, [], ◌∷◌, ◌++◌, map, reverse,
  contains, if◌then◌else◌, append_assoc, append-nil, arith,
}
use aurora_bot.Kernel.Declaration.{Phase, ModuleSpec}
use aurora_bot.Kernel.Phases.{close}
use aurora_bot.Kernel.Resolve.Plan.{PhaseStep}
use aurora_bot.Kernel.Host.Failures.{
  Event, hooked, cleaned, Failure, ModuleCleanup, Callbacks, hook_of, Report, add_failure,
  collect_hook, collect_cleanup, collect_cleanups,
}
use aurora_bot.Kernel.Host.Prepare.{Progress, close_module, close_modules, rollback}
use aurora_bot.Kernel.Host.Assembly.{Assembly, shut_module, shut_down, shut_down_phases, release}

-- One thing to call: the hook of a module, or a cleanup.
pub data Action (C K : Type 0) : Type 0 where
  call_hook : String → Phase → C → Action C K
  clean : ModuleCleanup K → Action C K

abbrev pub hook_action : {C K : Type 0} → Phase → String → Option C → List (Action C K)
hook_action phase module_id none = []
hook_action phase module_id (some hook) = call_hook module_id phase hook ∷ []

-- The shutdown hooks of the modules of one phase, and of all shutdown phases, in order.
unfoldable pub module_actions : {C K : Type 0} → Phase → List (ModuleSpec C) → List (Action C K)
module_actions phase [] = []
module_actions phase (spec ∷ rest) =
    hook_action phase spec.module_id (hook_of spec phase) ++ module_actions phase rest

unfoldable pub phase_actions : {C K : Type 0} → List (PhaseStep C) → List (Action C K)
unfolding module_actions
phase_actions [] = []
phase_actions (step ∷ rest) =
    (if step.phase.shutdown then module_actions step.phase step.modules else [])
    ++ phase_actions rest

-- The closing hook of each module not in `closed`, once.
unfoldable pub close_actions :
    {C K : Type 0} → List String → List (ModuleSpec C) → List (Action C K)
close_actions closed [] = []
close_actions closed (spec ∷ rest) =
    let again = contains closed spec.module_id in
    (if again then [] else hook_action close spec.module_id (hook_of spec close))
    ++ close_actions (if again then closed else spec.module_id ∷ closed) rest

abbrev pub event : {C K : Type 0} → Action C K → Event
event (call_hook module_id phase hook) = hooked module_id phase
event (clean c) = cleaned c.module_name c.phase_name

module _ {C K X : Type 0} (cb : Callbacks C K X) where
  -- The failure of one action, after the events of `log`.
  abbrev pub failure_of : List Event → Action C K → List (Failure X)
  failure_of log (call_hook module_id phase hook) =
      add_failure module_id phase.name (cb.call log hook) []
  failure_of log (clean c) = add_failure c.module_name c.phase_name (cb.clean_up log c.callback) []

  -- The failures of the actions, each called after those before it, also where these failed.
  unfoldable pub failures_of : List Event → List (Action C K) → List (Failure X)
  failures_of log [] = []
  failures_of log (a ∷ rest) = failure_of log a ++ failures_of (log ++ event a ∷ []) rest

  -- `r`, and all the actions called.
  abbrev pub after : Report X → List (Action C K) → Report X
  after r actions = record {
    failures = r.failures ++ failures_of r.log actions;
    log = r.log ++ map event actions;
  }

  abbrev report : List (Failure X) → List Event → Report X
  report fs l = record { failures = fs; log = l }

  report_eq :
      (fs gs : List (Failure X)) (l m : List Event) → fs ≡ gs → l ≡ m → report fs l ≡ report gs m
  report_eq fs gs l m p q = ground (arith, p, q)

  after_nil : (r : Report X) → after r [] ≡ r
  unfolding failures_of
  after_nil r =
      report_eq (r.failures ++ []) r.failures (r.log ++ []) r.log (append-nil r.failures)
        (append-nil r.log)

  failures_of-append :
      (log : List Event) (xs ys : List (Action C K))
      → failures_of log (xs ++ ys) ≡ failures_of log xs ++ failures_of (log ++ map event xs) ys
  unfolding failures_of
  failures_of-append log [] ys = ground (arith, append-nil log)
  failures_of-append log (a ∷ xs) ys =
      grind (arith, failures_of-append (log ++ event a ∷ []) xs ys, append_assoc)

  map-event-append :
      (xs ys : List (Action C K)) → map event (xs ++ ys) ≡ map event xs ++ map event ys
  map-event-append [] ys = refl
  map-event-append (a ∷ xs) ys = ground (arith, map-event-append xs ys)

  after-append :
      (r : Report X) (xs ys : List (Action C K)) → after (after r xs) ys ≡ after r (xs ++ ys)
  after-append r xs ys =
      grind (arith, failures_of-append r.log xs ys, append_assoc, map-event-append xs ys)

  add_failure-append :
      (module_name phase_name : String) (e : Option X) (fs : List (Failure X))
      → add_failure module_name phase_name e fs ≡ fs ++ add_failure module_name phase_name e []
  add_failure-append module_name phase_name none fs = sym (append-nil fs)
  add_failure-append module_name phase_name (some e) fs = refl

  collect_hook-after :
      (module_id : String) (phase : Phase) (hook : C) (r : Report X)
      → collect_hook cb module_id phase hook r ≡ after r (call_hook module_id phase hook ∷ [])
  unfolding collect_hook failures_of
  collect_hook-after module_id phase hook r = grind (arith, append-nil, add_failure-append)

  collect_cleanup-after :
      (c : ModuleCleanup K) (r : Report X) → collect_cleanup cb c r ≡ after r (clean c ∷ [])
  unfolding collect_cleanup failures_of
  collect_cleanup-after c r = grind (arith, append-nil, add_failure-append)

  collect_cleanups-after :
      (cs : List (ModuleCleanup K)) (r : Report X)
      → collect_cleanups cb cs r ≡ after r (map clean cs)
  unfolding collect_cleanups
  collect_cleanups-after [] r = sym (after_nil r)
  collect_cleanups-after (c ∷ cs) r = ground (
    arith,
    collect_cleanup-after c r,
    collect_cleanups-after cs (collect_cleanup cb c r),
    after-append r (clean c ∷ []) (map clean cs),
  )

  close_module-after :
      (spec : ModuleSpec C) (hook : Option C) (r : Report X)
      → close_module cb spec hook r ≡ after r (hook_action close spec.module_id hook)
  unfolding close_module
  close_module-after spec none r = sym (after_nil r)
  close_module-after spec (some hook) r = collect_hook-after spec.module_id close hook r

  close_modules-after :
      (closed : List String) (specs : List (ModuleSpec C)) (r : Report X)
      → close_modules cb closed specs r ≡ after r (close_actions closed specs)
  unfolding close_modules close_actions
  close_modules-after closed [] r = sym (after_nil r)
  close_modules-after closed (spec ∷ rest) r =
      let again = contains closed spec.module_id in
      let here = hook_action {K = K} close spec.module_id (hook_of spec close) in
      let closed' = if again then closed else spec.module_id ∷ closed in
      let r' = if again then r else close_module cb spec (hook_of spec close) r in
      ground (
        arith,
        close_modules-after closed' rest r',
        close_module-after spec (hook_of spec close) r,
        after-append r here (close_actions closed' rest),
      )

  shut_module-after :
      (phase : Phase) (spec : ModuleSpec C) (hook : Option C) (r : Report X)
      → shut_module cb phase spec hook r ≡ after r (hook_action phase spec.module_id hook)
  unfolding shut_module
  shut_module-after phase spec none r = sym (after_nil r)
  shut_module-after phase spec (some hook) r = collect_hook-after spec.module_id phase hook r

  shut_down-after :
      (phase : Phase) (specs : List (ModuleSpec C)) (r : Report X)
      → shut_down cb phase specs r ≡ after r (module_actions phase specs)
  unfolding shut_down module_actions
  shut_down-after phase [] r = sym (after_nil r)
  shut_down-after phase (spec ∷ rest) r = ground (
    arith,
    shut_down-after phase rest (shut_module cb phase spec (hook_of spec phase) r),
    shut_module-after phase spec (hook_of spec phase) r,
    after-append r (hook_action phase spec.module_id (hook_of spec phase))
        (module_actions phase rest),
  )

  shut_down_phases-after :
      (phases : List (PhaseStep C)) (r : Report X)
      → shut_down_phases cb phases r ≡ after r (phase_actions phases)
  unfolding shut_down_phases phase_actions
  shut_down_phases-after [] r = sym (after_nil r)
  shut_down_phases-after (step ∷ rest) r =
      let here =
        if step.phase.shutdown then module_actions {K = K} step.phase step.modules else [] in
      let r' = if step.phase.shutdown then shut_down cb step.phase step.modules r else r in
      ground (
        arith,
        shut_down_phases-after rest r',
        shut_down-after step.phase step.modules r,
        after-append r here (phase_actions rest),
      )

  -- What a rollback has to call: the closing hook of each constructed module, the last one first
  -- and each module once, then the cleanups, the last one first.
  abbrev pub rollback_actions : Progress C K → List (Action C K)
  rollback_actions g = close_actions [] (reverse g.constructed) ++ map clean (reverse g.cleanups)

  -- A rollback calls all of these, one after the other, whichever of them fail, and its failures are
  -- exactly theirs, in that order.
  pub rollback-after :
      (g : Progress C K)
      → rollback cb g ≡ after (record { failures = []; log = g.log }) (rollback_actions g)
  unfolding rollback
  rollback-after g =
      let r = report [] g.log in
      let closing = close_actions {K = K} [] (reverse g.constructed) in
      ground (
        arith,
        close_modules-after [] (reverse g.constructed) r,
        collect_cleanups-after (reverse g.cleanups) (after r closing),
        after-append r closing (map clean (reverse g.cleanups)),
      )

  -- What a release has to call: the hooks of the shutdown phases, in order, then the cleanups, the
  -- last one first.
  abbrev pub release_actions : Assembly C K X → List (Action C K)
  release_actions a = phase_actions a.phases ++ map clean (reverse a.cleanups)

  -- A release calls all of these, one after the other, whichever of them fail, and reports the
  -- failures not yet delivered, then exactly those of the calls, in that order.
  pub release-after :
      (a : Assembly C K X)
      → release cb a ≡ after (record { failures = a.pending; log = a.log }) (release_actions a)
  unfolding release
  release-after a =
      let r = report a.pending a.log in
      let shutting = phase_actions {K = K} a.phases in
      ground (
        arith,
        shut_down_phases-after a.phases r,
        collect_cleanups-after (reverse a.cleanups) (after r shutting),
        after-append r shutting (map clean (reverse a.cleanups)),
      )
