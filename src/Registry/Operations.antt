-- ===== src/Registry/Operations.antt =====
-- src/application/service_registry.rs: start, stop and restart of one entry. `fuel` bounds the rounds
-- of each wait. The look-up of the entry is in `Registry.Dispatch`.
use aku_supervisor.Base.{
  ℕ, Bool, true, false, Option, none, some, Result, ok, err, map_err, Exec, pure, lift, get, guard,
  ◌>>=◌, ◌>>◌, if◌then◌else◌,
}
use aku_supervisor.Domain.Actor.{Actor, is_recovery}
use aku_supervisor.Domain.Control.{
  LifecycleAction, authorize, apply_user_action, recovery_desired_state_stopped,
}
use aku_supervisor.Domain.Reason.{Reason}
use aku_supervisor.Health.{unknown_health}
use aku_supervisor.Ports.{Backend, TreeStopReport}
use aku_supervisor.Runtime.{RuntimeState, has_process, start_with, stop_with, restart_with}
use aku_supervisor.Runtime.Outcomes.{
  ServiceRuntimeError, StartOutcome, StopOutcome, RestartOutcome, started, already_running,
}
use aku_supervisor.Registry.Supervision.{
  SupervisionState, wants_running, request_running, request_stopped, record_started,
  defer_restart_after_termination,
}
use aku_supervisor.Registry.Types.{
  BackendOperationError, ServiceStopResult, ServiceRestartResult, unauthorized, runtime,
}
use aku_supervisor.Registry.Entry.{
  Op, lock_mutation, lock_control, lock_health, lock_supervision, set_policy, set_last_action,
  set_supervision, set_health, machine, on_runtime,
}
use aku_supervisor.Registry.Observe.{lookup_error, wait_until_healthy}
use aku_supervisor.Registry.Launch.{launch, Reporting, stop_tree, launch_reporting}

abbrev pub with_report :
    {E A : Type 0} → Option TreeStopReport → Result E A → Result E (A × Option TreeStopReport)
with_report shutdown (ok a) = ok (a, shutdown)
with_report shutdown (err e) = err e

module _ (B : Backend) where
  unfoldable pub preflight_entry : Op B Unit
  preflight_entry = do
    s ← get
    checked ← machine B (B.preflight_launch s.0.registration.id s.0.registration.launch)
    lift (
        map_err (λ e. runtime (ServiceRuntimeError.start (BackendOperationError.process e)))
          checked)

  unfoldable pub authorize_recovery : Actor → Op B Unit
  authorize_recovery actor =
      if is_recovery actor
      then (do
        lock_supervision B
        s ← get
        guard (wants_running s.0.supervision.desired_state)
            (unauthorized recovery_desired_state_stopped))
      else pure tt

  abbrev pub authorized : Actor → LifecycleAction → Op B Unit
  authorized actor action = do
    s ← get
    lift (map_err unauthorized (authorize s.0.control.policy actor action))

  -- What an accepted start or restart writes down before it touches a process.
  unfoldable pub accept : Actor → LifecycleAction → Reason → Op B Unit
  accept actor action reason = do
    set_policy B (λ p. apply_user_action p actor action)
    set_last_action B action actor reason
    lock_supervision B
    set_supervision B (λ sup. request_running sup actor)

  unfoldable pub mark_started : LifecycleAction → Op B Unit
  mark_started action = do
    lock_supervision B
    instant ← machine B B.instant_ms
    unix ← machine B B.unix_ms
    set_supervision B (λ sup. record_started sup action instant unix)

  abbrev pub after_start : ℕ → StartOutcome → Op B StartOutcome
  after_start fuel already_running = pure already_running
  after_start fuel started = do
    mark_started LifecycleAction.start
    wait_until_healthy B fuel
    pure started

  unfoldable pub start_accepted : ℕ → Actor → Reason → Op B StartOutcome
  start_accepted fuel actor reason = do
    preflight_entry
    accept actor LifecycleAction.start reason
    s ← get
    outcome ← on_runtime B runtime (start_with (launch B fuel s.0))
    after_start fuel outcome

  -- The permissions that a start and a restart share, in the code's order.
  unfoldable pub permitted : Actor → LifecycleAction → Op B Unit
  permitted actor action = do
    lock_mutation B
    lock_control B
    authorized actor action
    authorize_recovery actor

  unfoldable pub start : ℕ → Actor → Reason → Op B StartOutcome
  start fuel actor reason = do
    permitted actor LifecycleAction.start
    has ← on_runtime B (lookup_error {E = Unit {0}}) has_process
    if has then pure already_running else start_accepted fuel actor reason

  -- A runtime call whose callbacks report a shutdown; the second part is the report.
  abbrev pub on_runtime_reporting :
      {A : Type 0}
      → Exec
          (RuntimeState B.Process × Reporting B)
          (ServiceRuntimeError (BackendOperationError B.ProcessError B.PortError))
          A
      → Op B (A × Option TreeStopReport)
  on_runtime_reporting m s =
      let r = m (s.0.runtime, (s.1, none)) in
      ((record (s.0) { runtime = r.0.0 }, r.0.1.0), with_report r.0.1.1 (map_err runtime r.1))

  abbrev pub keep_pids : Option TreeStopReport → SupervisionState → SupervisionState
  keep_pids none sup = sup
  keep_pids (some report) sup = record sup { last_owned_pids = report.owned_pids_before }

  abbrev pub clears_health : StopOutcome → Bool
  clears_health StopOutcome.already_stopped = false
  clears_health _ = true

  abbrev pub forget_health : Op B Unit
  forget_health = do lock_health B; set_health B unknown_health

  -- `TerminationPending` with a report: the tree's processes are remembered.
  abbrev pub remember : StopOutcome → Option TreeStopReport → Op B Unit
  remember StopOutcome.termination_pending (some report) = do
    lock_supervision B
    set_supervision B (keep_pids (some report))
  remember _ _ = pure tt

  unfoldable pub stop_with_report : Actor → Reason → Op B ServiceStopResult
  stop_with_report actor reason = do
    lock_mutation B
    lock_control B
    authorized actor LifecycleAction.stop
    set_policy B (λ p. apply_user_action p actor LifecycleAction.stop)
    set_last_action B LifecycleAction.stop actor reason
    lock_supervision B
    set_supervision B request_stopped
    s ← get
    stopped ← on_runtime_reporting (stop_with (stop_tree B s.0.registration.shutdown_grace))
    if clears_health stopped.0 then forget_health else pure tt
    remember stopped.0 stopped.1
    pure (record { outcome = stopped.0; shutdown = stopped.1 })

  abbrev pub after_restart : ℕ → RestartOutcome → Option TreeStopReport → Op B Unit
  after_restart fuel RestartOutcome.termination_pending shutdown = do
    lock_supervision B
    set_supervision B (λ sup. keep_pids shutdown (defer_restart_after_termination sup))
    forget_health
  after_restart fuel _ shutdown = do mark_started LifecycleAction.restart; wait_until_healthy B fuel

  unfoldable pub restart_accepted : ℕ → Actor → Reason → Op B ServiceRestartResult
  restart_accepted fuel actor reason = do
    preflight_entry
    accept actor LifecycleAction.restart reason
    s ← get
    replaced ←
        on_runtime_reporting
          (restart_with (stop_tree B s.0.registration.shutdown_grace) (launch_reporting B fuel s.0))
    after_restart fuel replaced.0 replaced.1
    pure (record { outcome = replaced.0; shutdown = replaced.1 })

  unfoldable pub restart_with_report : ℕ → Actor → Reason → Op B ServiceRestartResult
  restart_with_report fuel actor reason = do
    permitted actor LifecycleAction.restart
    restart_accepted fuel actor reason
