-- ===== src/Runtime/Contract.antt =====
-- What the calls promise, written with no lifecycle table: each call as a plain case analysis on the
-- owner and on what the platform answered.
use aku_supervisor.Base.{
  Bool, true, false, Option, none, some, Result, ok, err, ◌≡◌, ap, ◌∙◌, arith,
}
use aku_supervisor.Domain.Lifecycle.{LifecycleState}
use aku_supervisor.Runtime.{RuntimeState, start_with, stop_with, restart_with}
use aku_supervisor.Runtime.Outcomes.{
  StartOutcome, StopOutcome, RestartOutcome, StopProgress, ServiceRuntimeError, started,
  already_running, already_stopped, restarted, complete,
}
use aku_supervisor.Runtime.Consistency.{consistent, IsConsistent}

module _ {P : Type 0} where
  abbrev pub owns : P → LifecycleState → RuntimeState P
  owns p state = record { lock_poisoned = false; lifecycle = state; process = some p }

  abbrev pub idle : LifecycleState → RuntimeState P
  idle state = record { lock_poisoned = false; lifecycle = state; process = none }

module _ {P W E : Type 0} where
  -- A new process is owned and running; without one the service has failed and owns nothing.
  abbrev pub spawned :
      {A : Type 0} → A → W × Result E P → (RuntimeState P × W) × Result (ServiceRuntimeError E) A
  spawned outcome (w, ok p) = ((owns p LifecycleState.running, w), ok outcome)
  spawned outcome (w, err e) = ((idle LifecycleState.failed, w), err (ServiceRuntimeError.start e))

  -- A stop that is not complete, or that failed, keeps the owner.
  abbrev pub stopped_with :
      (P × W) × Result E StopProgress
      → (RuntimeState P × W) × Result (ServiceRuntimeError E) StopOutcome
  stopped_with ((p, w), ok complete) = ((idle LifecycleState.stopped, w), ok StopOutcome.stopped)
  stopped_with ((p, w), ok StopProgress.termination_pending) =
      ((owns p LifecycleState.termination_pending, w), ok StopOutcome.termination_pending)
  stopped_with ((p, w), err e) =
      ((owns p LifecycleState.failed, w), err (ServiceRuntimeError.stop e))

  -- The replacement is spawned only after the old owner is gone.
  abbrev pub replaced_with :
      (W → W × Result E P)
      → (P × W) × Result E StopProgress
      → (RuntimeState P × W) × Result (ServiceRuntimeError E) RestartOutcome
  replaced_with spawn ((p, w), ok complete) = spawned restarted (spawn w)
  replaced_with spawn ((p, w), ok StopProgress.termination_pending) =
      ((owns p LifecycleState.termination_pending, w), ok RestartOutcome.termination_pending)
  replaced_with spawn ((p, w), err e) =
      ((owns p LifecycleState.failed, w), err (ServiceRuntimeError.stop e))

module _ {P W E : Type 0} (spawn : W → W × Result E P)
    (stop : P → W → (P × W) × Result E StopProgress) (w : W) where
  restart_idle :
      (state : LifecycleState)
      → consistent {P = P} state none ≡ true
      → restart_with stop spawn (idle state, w) ≡ spawned RestartOutcome.started (spawn w)
  unfolding restart_with
  restart_idle LifecycleState.stopped inv = ground arith
  restart_idle _ inv = ground arith

  restart_owned :
      (p : P) (state : LifecycleState)
      → consistent state (some p) ≡ true
      → restart_with stop spawn (owns p state, w) ≡ replaced_with spawn (stop p w)
  unfolding restart_with
  restart_owned p LifecycleState.running inv = ground arith
  restart_owned p _ inv = ground arith

module _ {P W E : Type 0} where
  abbrev pub start_contract :
      (W → W × Result E P)
      → RuntimeState P
      → Option P
      → W
      → (RuntimeState P × W) × Result (ServiceRuntimeError E) StartOutcome
  start_contract spawn r none w = spawned started (spawn w)
  start_contract spawn r (some p) w = ((r, w), ok already_running)

  abbrev pub stop_contract :
      (P → W → (P × W) × Result E StopProgress)
      → LifecycleState
      → Option P
      → W
      → (RuntimeState P × W) × Result (ServiceRuntimeError E) StopOutcome
  stop_contract stop LifecycleState.failed none w =
      ((idle LifecycleState.stopped, w), ok StopOutcome.stopped)
  stop_contract stop state none w = ((idle state, w), ok already_stopped)
  stop_contract stop state (some p) w = stopped_with (stop p w)

  abbrev pub restart_contract :
      (P → W → (P × W) × Result E StopProgress)
      → (W → W × Result E P)
      → Option P
      → W
      → (RuntimeState P × W) × Result (ServiceRuntimeError E) RestartOutcome
  restart_contract stop spawn none w = spawned RestartOutcome.started (spawn w)
  restart_contract stop spawn (some p) w = replaced_with spawn (stop p w)

  -- With the lock sound and in a consistent state, a start is what its contract says: nothing when
  -- there is an owner, and otherwise a spawn, whose process is then owned and running, or whose error
  -- leaves a failed service with no owner.
  pub start_with-eq :
      (spawn : W → W × Result E P) (r : RuntimeState P) (w : W)
      → r.lock_poisoned ≡ false
      → IsConsistent r
      → start_with spawn (r, w) ≡ start_contract spawn r r.process w
  unfolding start_with
  start_with-eq spawn r w h inv = ground arith

  -- With the lock sound and in a consistent state, a stop is what its contract says: the stop callback
  -- is called at most once and only with the owner, which is given up only when the tree is gone; a tree
  -- that is still ending, or an error, keeps it.
  pub stop_with-eq :
      (stop : P → W → (P × W) × Result E StopProgress) (r : RuntimeState P) (w : W)
      → r.lock_poisoned ≡ false
      → IsConsistent r
      → stop_with stop (r, w) ≡ stop_contract stop r.lifecycle r.process w
  unfolding stop_with
  stop_with-eq stop r w h inv = ground arith

  restart_state :
      (stop : P → W → (P × W) × Result E StopProgress) (spawn : W → W × Result E P)
      (state : LifecycleState) (owner : Option P) (w : W)
      → consistent state owner ≡ true
      → restart_with stop spawn
          (record { lock_poisoned = false; lifecycle = state; process = owner }, w)
        ≡ restart_contract stop spawn owner w
  restart_state stop spawn state none w inv = restart_idle spawn stop w state inv
  restart_state stop spawn state (some p) w inv = restart_owned spawn stop w p state inv

  -- With the lock sound and in a consistent state, a restart is what its contract says: without an owner
  -- it spawns; with one it stops it first, and spawns the replacement only after the old tree is gone.
  pub restart_with-eq :
      (stop : P → W → (P × W) × Result E StopProgress) (spawn : W → W × Result E P)
      (r : RuntimeState P) (w : W)
      → r.lock_poisoned ≡ false
      → IsConsistent r
      → restart_with stop spawn (r, w) ≡ restart_contract stop spawn r.process w
  restart_with-eq stop spawn r w h inv =
      ap (λ (b : Bool). restart_with stop spawn (record r { lock_poisoned = b }, w)) h
      ∙ restart_state stop spawn r.lifecycle r.process w inv
