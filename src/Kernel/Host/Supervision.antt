-- ===== src/Kernel/Host/Supervision.antt =====
-- Who hears of a failure: the supervisor by `next_failure`, or the caller of `close`
-- (src/aurora_kernel/lifecycle.py).
use aurora_bot.Prelude.{
  Bool, true, false, ◌≡◌, refl, sym, Option, none, some, List, [], ◌∷◌, ◌++◌, append_assoc,
  append-nil, arith, if◌then◌else◌,
}
use aurora_bot.Kernel.Host.Failures.{Failure, Callbacks}
use aurora_bot.Kernel.Host.Assembly.{
  Assembly, Next, given, ended, waiting, release, close_assembly, record_failure, next_failure,
}
use aurora_bot.Kernel.Host.Released.{failures_of, release_actions, release-after}

-- What happens to an assembly: a task fails, the supervisor looks, or the assembly is closed.
pub data Op (X : Type 0) : Type 0 where
  fail : Failure X → Op X
  look shut : Op X

abbrev heard_of : {X : Type 0} → Next X → List (Failure X)
heard_of (given f) = f ∷ []
heard_of ended = []
heard_of waiting = []

-- The failures that the tasks record.
unfoldable pub recorded : {X : Type 0} → List (Op X) → List (Failure X)
recorded [] = []
recorded (fail f ∷ ops) = f ∷ recorded ops
recorded (look ∷ ops) = recorded ops
recorded (shut ∷ ops) = recorded ops

module _ {C K X : Type 0} (cb : Callbacks C K X) where
  -- What the callers hear in the course of the operations, and the assembly at the end.
  unfoldable pub supervise : List (Op X) → Assembly C K X → List (Failure X) × Assembly C K X
  unfolding close_assembly record_failure next_failure
  supervise [] a = ([], a)
  supervise (fail f ∷ ops) a = supervise ops (record_failure cb f a)
  supervise (look ∷ ops) a =
      let looked = next_failure cb a in
      let rest = supervise ops looked.1 in (heard_of looked.0 ++ rest.0, rest.1)
  supervise (shut ∷ ops) a =
      let closed = close_assembly cb a in
      let rest = supervise ops closed.1 in (closed.0 ++ rest.0, rest.1)

  -- The failures there are, in order: those recorded, and those of the calls of the first close.
  unfoldable pub arising : Bool → List (Failure X) → List (Op X) → List (Failure X)
  arising released closing [] = []
  arising released closing (fail f ∷ ops) = f ∷ arising released closing ops
  arising released closing (look ∷ ops) = arising released closing ops
  arising true closing (shut ∷ ops) = arising true closing ops
  arising false closing (shut ∷ ops) = closing ++ arising true closing ops

  abbrev is_released : {A : Type 0} → Option A → Bool
  is_released none = false
  is_released (some x) = true

  -- An assembly whose release, when it still comes, fails as `closing`.
  abbrev pub Closing : List (Failure X) → Assembly C K X → Type 0
  Closing closing a =
      is_released a.released ≡ false → failures_of cb a.log (release_actions cb a) ≡ closing

  look_pending :
      (a : Assembly C K X)
      → heard_of (next_failure cb a).0 ++ (next_failure cb a).1.pending ≡ a.pending
  unfolding next_failure
  look_pending a = ground arith

  look_rest :
      (a : Assembly C K X)
      → ((next_failure cb a).1.phases ≡ a.phases)
        × ((next_failure cb a).1.cleanups ≡ a.cleanups)
        × ((next_failure cb a).1.log ≡ a.log)
        × ((next_failure cb a).1.released ≡ a.released)
  unfolding next_failure
  look_rest a = ground arith

  close_heard :
      (a : Assembly C K X) (closing : List (Failure X))
      → Closing closing a
      → (close_assembly cb a).0 ++ (close_assembly cb a).1.pending
        ≡ (if is_released a.released then a.pending else a.pending ++ closing)
  unfolding close_assembly
  close_heard a closing h =
      ground (arith, release-after cb a, append-nil (release cb a).failures, h)

  close_rest : (a : Assembly C K X) → is_released (close_assembly cb a).1.released ≡ true
  unfolding close_assembly
  close_rest a = ground arith

  Closing-released :
      (closing : List (Failure X)) (a : Assembly C K X)
      → is_released a.released ≡ true
      → Closing closing a
  Closing-released closing a r h = ground (arith, r, h)

  Closing-look :
      (closing : List (Failure X)) (a : Assembly C K X)
      → Closing closing a
      → Closing closing (next_failure cb a).1
  Closing-look closing a h r = ground (arith, look_rest a, h, r)

  supervise-arising :
      (ops : List (Op X)) (a : Assembly C K X) (closing : List (Failure X))
      → Closing closing a
      → (supervise ops a).0 ++ (supervise ops a).1.pending
        ≡ a.pending ++ arising (is_released a.released) closing ops
  unfolding supervise arising close_assembly record_failure next_failure
  supervise-arising [] a closing h = sym (append-nil a.pending)
  supervise-arising (fail f ∷ ops) a closing h = ground (
    arith,
    supervise-arising ops (record_failure cb f a) closing h,
    append_assoc a.pending (f ∷ []) (arising (is_released a.released) closing ops),
  )
  supervise-arising (look ∷ ops) a closing h =
      let looked = next_failure cb a in
      ground (
        arith,
        supervise-arising ops looked.1 closing (Closing-look closing a h),
        look_pending a,
        look_rest a,
        append_assoc (heard_of looked.0) (supervise ops looked.1).0
            (supervise ops looked.1).1.pending,
        append_assoc (heard_of looked.0) looked.1.pending
            (arising (is_released a.released) closing ops),
      )
  supervise-arising (shut ∷ ops) a closing h =
      let closed = close_assembly cb a in
      let shutting = arising true closing ops in
      ground (
        arith,
        supervise-arising ops closed.1 closing (Closing-released closing closed.1 (close_rest a)),
        close_heard a closing h,
        close_rest a,
        append_assoc closed.0 (supervise ops closed.1).0 (supervise ops closed.1).1.pending,
        append_assoc closed.0 closed.1.pending shutting,
        append_assoc a.pending closing shutting,
      )

  look_history : (a : Assembly C K X) → (next_failure cb a).1.failures ≡ a.failures
  unfolding next_failure
  look_history a = ground arith

  close_history : (a : Assembly C K X) → (close_assembly cb a).1.failures ≡ a.failures
  unfolding close_assembly
  close_history a = ground arith

  supervise-recorded :
      (ops : List (Op X)) (a : Assembly C K X)
      → (supervise ops a).1.failures ≡ a.failures ++ recorded ops
  unfolding supervise recorded record_failure
  supervise-recorded [] a = sym (append-nil a.failures)
  supervise-recorded (fail f ∷ ops) a = ground (
    arith,
    supervise-recorded ops (record_failure cb f a),
    append_assoc a.failures (f ∷ []) (recorded ops),
  )
  supervise-recorded (look ∷ ops) a =
      ground (arith, supervise-recorded ops (next_failure cb a).1, look_history a)
  supervise-recorded (shut ∷ ops) a =
      ground (arith, supervise-recorded ops (close_assembly cb a).1, close_history a)

  -- In any sequence of task failures, looks of the supervisor and closings, each failure, of a task
  -- or of a call of the first release, is delivered once and in the order in which it arose, or is
  -- still pending; later closings deliver and release nothing more; and the history is that of all
  -- task failures.
  pub supervise-delivers :
      (ops : List (Op X)) (a : Assembly C K X)
      → ((supervise ops a).0 ++ (supervise ops a).1.pending
          ≡ a.pending
            ++ arising (is_released a.released) (failures_of cb a.log (release_actions cb a)) ops)
        × ((supervise ops a).1.failures ≡ a.failures ++ recorded ops)
  supervise-delivers ops a = (supervise-arising ops a _ (λ r. refl), supervise-recorded ops a)
