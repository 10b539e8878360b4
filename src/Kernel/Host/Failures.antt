-- ===== src/Kernel/Host/Failures.antt =====
-- Hooks, their failures (src/aurora_kernel/failures.py), and what is raised after a cleanup
-- (src/aurora_kernel/tasks.py).
use aurora_bot.Prelude.{
  String, Bool, not, Option, none, some, List, [], ◌∷◌, ◌++◌, string_eq, is_empty, if◌then◌else◌,
  Result,
}
use aurora_bot.Prelude.Dict
use aurora_bot.Kernel.Declaration.{Phase, ModuleSpec}
use aurora_bot.Kernel.Phases.{phase_eq}

-- What has been called, the oldest first.
pub data Event : Type 0 where
  hooked : String → Phase → Event
  cleaned : String → String → Event

-- ModuleLifecycleError
pub record Failure (X : Type 0) : Type 0 where
  pub module_name : String
  pub phase_name : String
  pub error : X

-- ModuleCleanup
pub record ModuleCleanup (K : Type 0) : Type 0 where
  pub module_name : String
  pub phase_name : String
  pub callback : K

-- What the callbacks do, given what has been called before: a hook returns or raises, a setup hook
-- also gives a cleanup or none, and a cleanup returns or raises.
pub record Callbacks (C K X : Type 0) : Type 0 where
  pub call : List Event → C → Option X
  pub set_up : List Event → C → Result X (Option K)
  pub clean_up : List Event → K → Option X

-- spec.hook
abbrev pub hook_of : {C : Type 0} → ModuleSpec C → Phase → Option C
hook_of spec phase = Dict.get spec.hooks phase

-- A list of failures with what has been called.
pub record Report (X : Type 0) : Type 0 where
  pub failures : List (Failure X)
  pub log : List Event

abbrev pub add_failure :
    {X : Type 0} → String → String → Option X → List (Failure X) → List (Failure X)
add_failure module_name phase_name none failures = failures
add_failure module_name phase_name (some e) failures =
    failures ++ record { module_name = module_name; phase_name = phase_name; error = e } ∷ []

module _ {C K X : Type 0} (cb : Callbacks C K X) where
  -- collect_failure of a hook
  unfoldable pub collect_hook : String → Phase → C → Report X → Report X
  collect_hook module_id phase hook r = record {
    failures = add_failure module_id phase.name (cb.call r.log hook) r.failures;
    log = r.log ++ hooked module_id phase ∷ [];
  }

  -- ModuleCleanup.run, and the failure collected
  unfoldable pub collect_cleanup : ModuleCleanup K → Report X → Report X
  collect_cleanup c r = record {
    failures = add_failure c.module_name c.phase_name (cb.clean_up r.log c.callback) r.failures;
    log = r.log ++ cleaned c.module_name c.phase_name ∷ [];
  }

  unfoldable pub collect_cleanups : List (ModuleCleanup K) → Report X → Report X
  unfolding collect_cleanup
  collect_cleanups [] r = r
  collect_cleanups (c ∷ rest) r = collect_cleanups rest (collect_cleanup c r)

-- The errors that an exception carries: itself, or the members of its group or of its cause's.
pub data Raise (E : Type 0) : Type 0 where
  plain : E → Raise E
  group : List E → Raise E
  caused : E → List E → Raise E

-- raise_with_cleanup; `additional` are the failures that are not the error itself
unfoldable pub raise_with_cleanup :
    {E : Type 0} → (E → Bool) → (E → Bool) → E → List E → Option E → Raise E
raise_with_cleanup is_cancelled is_exception error additional none =
    if is_empty additional
    then plain error
    else if is_exception error
    then group (error ∷ additional)
    else caused error additional
raise_with_cleanup is_cancelled is_exception error additional (some interrupted) =
    if not (is_cancelled error)
    then caused interrupted (error ∷ additional)
    else if is_empty additional
    then plain error
    else if is_exception error
    then group (error ∷ additional)
    else caused error additional

-- raise_failures: nothing is raised for none, and one keeps its identity
unfoldable pub raise_failures : {E : Type 0} → List E → Option (Raise E)
raise_failures [] = none
raise_failures (e ∷ []) = some (plain e)
raise_failures (e ∷ e' ∷ rest) = some (group (e ∷ e' ∷ rest))
