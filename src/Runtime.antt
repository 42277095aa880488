-- ===== src/Runtime.antt =====
-- src/application/service_runtime.rs: the owner of one service's process tree, behind a mutex.
-- A call takes the guarded state and the world that its callbacks read and change, and returns both
-- with its result; what was changed before an error stays changed. `P` is the process, `W` the world.
pub mod Outcomes
pub mod Consistency
pub mod Invariant
pub mod Contract
pub mod Histories
use aku_supervisor.Base.{
  Bool, true, false, ◌&&◌, not, Option, none, some, is_some, Result, ok, err, map_err, Exec, pure,
  raise, get, modify, lift, guard, continue, ◌>>=◌, ◌>>◌, if◌then◌else◌,
}
use aku_supervisor.Domain.Lifecycle.{
  LifecycleState, TransitionError, transition_to, can_transition_to,
}
use Outcomes.{
  StartOutcome, StopOutcome, RestartOutcome, StopProgress, ServiceRuntimeError, started,
  already_running, already_stopped, restarted, complete, poisoned, transition, inspect,
}

-- `poisoned` is the mutex's flag: a thread panicked while it held the lock.
pub record RuntimeState (P : Type 0) : Type 0 where
  pub lock_poisoned : Bool
  pub lifecycle : LifecycleState
  pub process : Option P

module _ {P : Type 0} where
  abbrev pub new : RuntimeState P
  new = record { lock_poisoned = false; lifecycle = LifecycleState.stopped; process = none }

abbrev pub is_termination_pending : LifecycleState → Bool
is_termination_pending LifecycleState.termination_pending = true
is_termination_pending _ = false

abbrev pub is_failed : LifecycleState → Bool
is_failed LifecycleState.failed = true
is_failed _ = false

-- The lifecycle that a health observation asks for, and whether a service in `s` has to move there.
abbrev pub health_target : Bool → LifecycleState
health_target true = LifecycleState.running
health_target false = LifecycleState.unhealthy

abbrev pub health_moves : LifecycleState → Bool → Bool
health_moves LifecycleState.running false = true
health_moves LifecycleState.unhealthy true = true
health_moves _ _ = false

abbrev pub Run : Type 0 → Type 0 → Type 0 → Type 0 → Type 0
Run P W E = Exec (RuntimeState P × W) (ServiceRuntimeError E)

module _ {P W E : Type 0} where
  abbrev lock : Run P W E Unit
  lock s = guard (not s.0.lock_poisoned) poisoned s

  -- `inner.lifecycle = inner.lifecycle.transition_to(next).map_err(Transition)?`
  abbrev move : LifecycleState → Run P W E Unit
  move next s = elim (transition_to s.0.lifecycle next) [
    | ok state ↦ ((record (s.0) { lifecycle = state }, s.1), ok tt)
    | err e ↦ (s, err (transition e))
  ]

  abbrev own : Option P → Run P W E Unit
  own owner = modify (λ s. (record (s.0) { process = owner }, s.1))

  -- A callback that does not touch the owner: its result is a value.
  abbrev call : {A : Type 0} → (W → W × Result E A) → Run P W E (Result E A)
  call f s = let r = f s.1 in ((s.0, r.0), ok r.1)

  -- A callback on the owner, which it may change in place.
  abbrev call_owner : {A : Type 0} → P → (P → W → (P × W) × Result E A) → Run P W E (Result E A)
  call_owner p f s = let r = f p s.1 in ((record (s.0) { process = some r.0.0 }, r.0.1), ok r.1)

  abbrev pub lifecycle : Run P W E LifecycleState
  lifecycle = do lock; s ← get; pure s.0.lifecycle

  unfoldable pub has_process : Run P W E Bool
  has_process = do lock; s ← get; pure (is_some s.0.process)

  unfoldable pub apply_health : Bool → Run P W E Unit
  unfolding transition_to
  apply_health healthy = do
    lock
    s ← get
    if is_some s.0.process && health_moves s.0.lifecycle healthy
        then move (health_target healthy)
        else pure tt

  abbrev inspected : {A : Type 0} → Result E A → Run P W E A
  inspected r = lift (map_err inspect r)

  unfoldable pub inspect_with :
      {A : Type 0} → (LifecycleState → Option P → W → W × Result E A) → Run P W E A
  inspect_with f = do lock; s ← get; r ← call (f s.0.lifecycle s.0.process); inspected r

  abbrev release : LifecycleState → Run P W E Unit
  release state =
      if is_termination_pending state
      then move LifecycleState.stopped
      else (if is_failed state then pure tt else move LifecycleState.failed)

  abbrev observed : {A : Type 0} → Option A → Run P W E (Option A)
  observed none = pure none
  observed (some status) = do own none; s ← get; release s.0.lifecycle; pure (some status)

  abbrev reconcile_owner :
      {A : Type 0} → (P → W → (P × W) × Result E (Option A)) → Option P → Run P W E (Option A)
  reconcile_owner f none = pure none
  reconcile_owner f (some p) = do r ← call_owner p f; status ← inspected r; observed status

  unfoldable pub reconcile_exit_with :
      {A : Type 0} → (P → W → (P × W) × Result E (Option A)) → Run P W E (Option A)
  unfolding transition_to
  reconcile_exit_with f = do lock; s ← get; reconcile_owner f s.0.process

  -- The end of a start and of a restart.
  abbrev launched : {A : Type 0} → A → Result E P → Run P W E A
  launched outcome (ok p) = do own (some p); move LifecycleState.running; pure outcome
  launched outcome (err e) = do move LifecycleState.failed; raise (ServiceRuntimeError.start e)

  abbrev start_owner : (W → W × Result E P) → Option P → Run P W E StartOutcome
  start_owner spawn (some p) = pure already_running
  start_owner spawn none = do move LifecycleState.starting; r ← call spawn; launched started r

  unfoldable pub start_with : (W → W × Result E P) → Run P W E StartOutcome
  unfolding transition_to
  start_with spawn = do lock; s ← get; start_owner spawn s.0.process

  abbrev stop_result : Result E StopProgress → Run P W E StopOutcome
  stop_result (ok complete) = do own none; move LifecycleState.stopped; pure StopOutcome.stopped
  stop_result (ok StopProgress.termination_pending) = do
    move LifecycleState.termination_pending
    pure StopOutcome.termination_pending
  stop_result (err e) = do move LifecycleState.failed; raise (ServiceRuntimeError.stop e)

  abbrev acknowledge : LifecycleState → Run P W E StopOutcome
  acknowledge state =
      if is_failed state
      then (do move LifecycleState.stopped; pure StopOutcome.stopped)
      else pure already_stopped

  abbrev stop_owner :
      (P → W → (P × W) × Result E StopProgress) → LifecycleState → Option P → Run P W E StopOutcome
  stop_owner stop state none = acknowledge state
  stop_owner stop state (some p) = do
    move LifecycleState.stopping
    r ← call_owner p stop
    stop_result r

  unfoldable pub stop_with : (P → W → (P × W) × Result E StopProgress) → Run P W E StopOutcome
  unfolding transition_to
  stop_with stop = do lock; s ← get; stop_owner stop s.0.lifecycle s.0.process

  abbrev replace : (W → W × Result E P) → RestartOutcome → Run P W E RestartOutcome
  replace spawn outcome = do move LifecycleState.starting; r ← call spawn; launched outcome r

  abbrev restart_stopped : (W → W × Result E P) → Result E StopProgress → Run P W E RestartOutcome
  restart_stopped spawn (ok complete) = do
    own none
    move LifecycleState.stopped
    replace spawn restarted
  restart_stopped spawn (ok StopProgress.termination_pending) = do
    move LifecycleState.termination_pending
    pure RestartOutcome.termination_pending
  restart_stopped spawn (err e) = do move LifecycleState.failed; raise (ServiceRuntimeError.stop e)

  abbrev restart_owner :
      (P → W → (P × W) × Result E StopProgress)
      → (W → W × Result E P)
      → Option P
      → Run P W E RestartOutcome
  restart_owner stop spawn none = replace spawn RestartOutcome.started
  restart_owner stop spawn (some p) = do
    move LifecycleState.stopping
    r ← call_owner p stop
    restart_stopped spawn r

  unfoldable pub restart_with :
      (P → W → (P × W) × Result E StopProgress) → (W → W × Result E P) → Run P W E RestartOutcome
  unfolding transition_to
  restart_with stop spawn = do lock; s ← get; restart_owner stop spawn s.0.process
