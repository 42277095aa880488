-- ===== src/Registry/Supervision.antt =====
-- src/application/service_registry.rs: `SupervisionState`, which decides on automatic restarts.
pub mod Plans
use aku_supervisor.Base.{
  ℕ, ◌+◌, ◌-◌, ◌^◌, min, Bool, true, false, not, ◌&&◌, Option, none, some, List, [], leb, ◌==◌,
  if◌then◌else◌,
}
use aku_supervisor.Domain.Actor.{Actor, is_recovery}
use aku_supervisor.Domain.Control.{LifecycleAction, OperatorHold, holds_stopped}
use aku_supervisor.Domain.Lifecycle.{DesiredState}
use aku_supervisor.Ports.{ExitStatus, ℤ}
use aku_supervisor.Registry.Types.{ServiceRestartPolicy}

pub record SupervisionState : Type 0 where
  pub desired_state : DesiredState
  pub started_at_unix_ms : Option ℕ
  pub started_at : Option ℕ
  pub last_exit_code : Option ℤ
  pub last_exit_at_unix_ms : Option ℕ
  pub restart_count : ℕ  -- u32
  pub automatic_restarts_in_episode : ℕ  -- u32
  pub restart_after_termination : Bool
  pub last_owned_pids : List ℕ

abbrev pub new : SupervisionState
new = record {
  desired_state = DesiredState.stopped;
  started_at_unix_ms = none;
  started_at = none;
  last_exit_code = none;
  last_exit_at_unix_ms = none;
  restart_count = 0;
  automatic_restarts_in_episode = 0;
  restart_after_termination = false;
  last_owned_pids = [];
}

abbrev pub wants_running : DesiredState → Bool
wants_running DesiredState.running = true
wants_running DesiredState.stopped = false

abbrev pub is_on_failure : ServiceRestartPolicy → Bool
is_on_failure ServiceRestartPolicy.on_failure = true
is_on_failure ServiceRestartPolicy.manual = false

abbrev pub is_restart : LifecycleAction → Bool
is_restart LifecycleAction.restart = true
is_restart _ = false

abbrev pub u32_max : ℕ
u32_max = 4294967295

-- `u32::saturating_add(1)`
abbrev pub saturating_suc : ℕ → ℕ
saturating_suc n = min (n + 1) u32_max

unfoldable pub request_running : SupervisionState → Actor → SupervisionState
request_running s actor = record s {
  desired_state = DesiredState.running;
  restart_after_termination = false;
  automatic_restarts_in_episode = if is_recovery actor then s.automatic_restarts_in_episode else 0;
}

unfoldable pub request_stopped : SupervisionState → SupervisionState
request_stopped s = record s {
  desired_state = DesiredState.stopped;
  started_at = none;
  started_at_unix_ms = none;
  automatic_restarts_in_episode = 0;
  restart_after_termination = false;
  last_owned_pids = [];
}

-- `instant` and `unix` are the times that the code reads from the clocks.
unfoldable pub record_started : SupervisionState → LifecycleAction → ℕ → ℕ → SupervisionState
record_started s action instant unix = record s {
  started_at = some instant;
  started_at_unix_ms = some unix;
  last_owned_pids = [];
  restart_after_termination = false;
  restart_count = if is_restart action then saturating_suc s.restart_count else s.restart_count;
}

unfoldable pub defer_restart_after_termination : SupervisionState → SupervisionState
defer_restart_after_termination s = record s { restart_after_termination = true }

-- `started_at.is_some_and(|started| started.elapsed() >= stability_window)`
abbrev pub was_stable : Option ℕ → ℕ → ℕ → Bool
was_stable none instant window = false
was_stable (some started) instant window = leb window (instant - started)

abbrev pub episode : SupervisionState → ℕ → ℕ → ℕ
episode s instant window =
    if was_stable s.started_at instant window then 0 else s.automatic_restarts_in_episode

abbrev pub deferred_plan : SupervisionState → OperatorHold → Bool
deferred_plan s hold =
    s.restart_after_termination && (wants_running s.desired_state && not (holds_stopped hold))

abbrev pub automatic_plan :
    SupervisionState → ExitStatus → ServiceRestartPolicy → OperatorHold → ℕ → ℕ → Bool
automatic_plan s status policy hold instant window =
    not (deferred_plan s hold)
    && (is_on_failure policy
        && (not status.success
            && (wants_running s.desired_state
                && (not (holds_stopped hold) && episode s instant window == 0))))

-- The new state, and whether an automatic and whether a deferred restart is planned.
unfoldable pub record_exit :
    SupervisionState
    → ExitStatus
    → ServiceRestartPolicy
    → OperatorHold
    → (window instant unix : ℕ) → SupervisionState × Bool × Bool
record_exit s status policy hold window instant unix =
    let automatic = automatic_plan s status policy hold instant window in
    (
      record s {
        started_at = none;
        started_at_unix_ms = none;
        last_exit_code = status.code;
        last_exit_at_unix_ms = some unix;
        restart_after_termination = false;
        automatic_restarts_in_episode = if automatic then 1 else episode s instant window;
      },
      automatic,
      deferred_plan s hold,
    )
