-- ===== src/Domain/Control.antt =====
-- src/domain/control.rs: which principal may start, stop or restart a service.
use aku_supervisor.Base.{Bool, true, false, not, ◌&&◌, Result, ok, err, if◌then◌else◌}
use aku_supervisor.Domain.Actor.{Actor, is_user, is_agent}

pub data LifecycleAction : Type 0 where
  start stop restart : LifecycleAction

pub data OperatorHold : Type 0 where
  none running stopped : OperatorHold

abbrev pub holds_stopped : OperatorHold → Bool
holds_stopped OperatorHold.stopped = true
holds_stopped _ = false

pub record ControlPolicy : Type 0 where
  pub operator_hold : OperatorHold
  pub agent_start_allowed : Bool

abbrev pub default : ControlPolicy
default = record { operator_hold = OperatorHold.none; agent_start_allowed = true }

pub data AuthorizationError : Type 0 where
  operator_hold_stopped agent_start_disabled recovery_desired_state_stopped : AuthorizationError

pub set_agent_start_allowed : ControlPolicy → Bool → ControlPolicy
set_agent_start_allowed p allowed = record p { agent_start_allowed = allowed }

-- `matches!(action, Start | Restart)`
abbrev pub is_launch : LifecycleAction → Bool
is_launch LifecycleAction.stop = false
is_launch _ = true

unfoldable pub authorize :
    ControlPolicy → Actor → LifecycleAction → Result AuthorizationError (Unit {0})
authorize p actor action =
    if is_launch action
    then (if holds_stopped p.operator_hold && not (is_user actor)
        then err operator_hold_stopped
        else (if is_agent actor && not p.agent_start_allowed
            then err agent_start_disabled
            else ok tt))
    else ok tt

abbrev hold_after : LifecycleAction → OperatorHold
hold_after LifecycleAction.start = OperatorHold.none
hold_after LifecycleAction.restart = OperatorHold.none
hold_after LifecycleAction.stop = OperatorHold.stopped

unfoldable pub apply_user_action : ControlPolicy → Actor → LifecycleAction → ControlPolicy
apply_user_action p actor action =
    if not (is_user actor) then p else record p { operator_hold = hold_after action }

unfoldable pub hold_running : ControlPolicy → Actor → ControlPolicy
hold_running p actor =
    if is_user actor then record p { operator_hold = OperatorHold.running } else p
