-- ===== src/Registry/Refresh.antt =====
-- src/application/service_registry.rs: the periodic reconciliation of one entry, and its snapshot.
use aku_supervisor.Base.{
  ℕ, String, false, Option, none, some, List, [], Result, ok, map_ok, is_empty, pure, get, ◌>>=◌,
  ◌>>◌, if◌then◌else◌,
}
use Prim.Native.String.{◌++◌ as text_append}
use aku_supervisor.Domain.Lifecycle.{LifecycleState}
use aku_supervisor.Health.{HealthSnapshot, unknown_health, unhealthy_at, transport_down}
use aku_supervisor.Ports.{Backend, ExitStatus, ℤ}
use aku_supervisor.Runtime.{inspect_with, reconcile_exit_with, is_termination_pending}
use aku_supervisor.Registry.Supervision.{record_exit}
use aku_supervisor.Registry.Types.{ProcessExitEvent, ServiceRefresh}
use aku_supervisor.Registry.Entry.{
  Op, lock_mutation, lock_control, lock_health, lock_supervision, set_supervision, set_health,
  machine, on_runtime,
}
use aku_supervisor.Registry.Observe.{map_observation_error, observe_health}

module _ (B : Backend) where
  abbrev pub exit_detail : Option ℤ → String
  exit_detail none = "owned process tree exited"
  exit_detail (some code) =
      text_append (text_append "owned process tree exited" " with code ") (B.show_code code)

  abbrev pub state_and_pids :
      LifecycleState
      → Option B.Process
      → B.World
      → B.World × Result B.ProcessError (LifecycleState × List ℕ)
  state_and_pids state none w = (w, ok (state, []))
  state_and_pids state (some p) w =
      let r = B.owned_pids p w in (r.0, map_ok (λ pids. (state, pids)) r.1)

  abbrev pub exit_health : LifecycleState → ExitStatus → Op B (HealthSnapshot B.Json)
  exit_health previous status = if is_termination_pending previous then pure unknown_health else (do
    s ← get
    now ← machine B B.unix_ms
    pure
        (unhealthy_at now false (transport_down s.0.registration.health) (exit_detail status.code)))

  -- The tree is gone: plan what follows, and report it.
  unfoldable pub report_exit :
      (window : ℕ) → LifecycleState → ExitStatus → Op B (Option ProcessExitEvent)
  report_exit window previous status = do
    lock_control B
    lock_supervision B
    s ← get
    instant ← machine B B.instant_ms
    unix ← machine B B.unix_ms
    let planned =
        record_exit s.0.supervision status s.0.registration.restart_policy
          s.0.control.policy.operator_hold window instant unix
    set_supervision B (λ _. planned.0)
    health ← exit_health previous status
    lock_health B
    set_health B health
    set_supervision B (λ sup. record sup { last_owned_pids = [] })
    pure (
        some (record {
          service_id = s.0.registration.id;
          previous_state = previous;
          owned_pids_before = planned.0.last_owned_pids;
          exit_code = status.code;
          successful = status.success;
          automatic_restart_planned = planned.1;
          deferred_restart_planned = planned.2;
        }))

  abbrev pub exit_of :
      (window : ℕ) → LifecycleState → Option ExitStatus → Op B (Option ProcessExitEvent)
  exit_of window previous none = pure none
  exit_of window previous (some status) = report_exit window previous status

  abbrev pub remember_pids : List ℕ → Op B (Option ProcessExitEvent)
  remember_pids pids = do
    lock_supervision B
    set_supervision B (λ sup. record sup { last_owned_pids = pids })
    pure none

  unfoldable pub reconcile_process_exit : (window : ℕ) → Op B (Option ProcessExitEvent)
  reconcile_process_exit window = do
    seen ← on_runtime B map_observation_error (inspect_with state_and_pids)
    if is_empty seen.1
        then (do
          status ← on_runtime B map_observation_error (reconcile_exit_with B.try_wait)
          exit_of window seen.0 status)
        else remember_pids seen.1

  abbrev pub refreshed_health : Option ProcessExitEvent → Op B (HealthSnapshot B.Json)
  refreshed_health none = observe_health B none
  refreshed_health (some event) = do lock_health B; s ← get; pure s.0.health

  -- The body of the loop of `refresh_services`.
  unfoldable pub refresh : (window : ℕ) → Op B (ServiceRefresh B.Json)
  refresh window = do
    lock_mutation B
    exited ← reconcile_process_exit window
    seen ← refreshed_health exited
    pure (record { health = seen; process_exit = exited })
