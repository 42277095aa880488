-- ===== src/Control.antt =====
-- src/application/control_api.rs: the actions, results and errors that every control adapter shares.
use aku_supervisor.Base.{String, Option, none}
use Prim.Native.String.{◌++◌ as text_append}
use aku_supervisor.Ports.{TreeStopReport}
use aku_supervisor.Runtime.Outcomes.{ServiceRuntimeError, StartOutcome, StopOutcome, RestartOutcome}
use aku_supervisor.Registry.Types.{
  RegistryError, BackendOperationError, ServiceStopResult, ServiceRestartResult,
}

pub data ControlAction : Type 0 where
  start stop restart : ControlAction

pub data ControlMutationOutcome : Type 0 where
  started already_running stopped termination_pending already_stopped restarted :
      ControlMutationOutcome

pub record ControlMutationResult : Type 0 where
  pub outcome : ControlMutationOutcome
  pub shutdown : Option TreeStopReport

pub data ControlErrorKind : Type 0 where
  service_not_found unauthorized port_conflict_external spawn_failed health_failed shutdown_timeout
        ownership_lost internal :
      ControlErrorKind

pub record ControlError : Type 0 where
  pub kind : ControlErrorKind
  pub message : String

abbrev pub internal_error : String → ControlError
internal_error text = record { kind = ControlErrorKind.internal; message = text }

abbrev pub missing_service : String → ControlError
missing_service id = record {
  kind = ControlErrorKind.service_not_found;
  message = text_append "service not found: " id;
}

abbrev pub with_context : ControlError → String → ControlError
with_context e text = record e { message = text_append (text_append text ": ") e.message }

abbrev pub start_result : StartOutcome → ControlMutationResult
start_result StartOutcome.started = record {
  outcome = ControlMutationOutcome.started;
  shutdown = none;
}
start_result StartOutcome.already_running = record {
  outcome = ControlMutationOutcome.already_running;
  shutdown = none;
}

abbrev pub stop_outcome : StopOutcome → ControlMutationOutcome
stop_outcome StopOutcome.stopped = ControlMutationOutcome.stopped
stop_outcome StopOutcome.termination_pending = ControlMutationOutcome.termination_pending
stop_outcome StopOutcome.already_stopped = ControlMutationOutcome.already_stopped

abbrev pub restart_outcome : RestartOutcome → ControlMutationOutcome
restart_outcome RestartOutcome.restarted = ControlMutationOutcome.restarted
restart_outcome RestartOutcome.termination_pending = ControlMutationOutcome.termination_pending
restart_outcome RestartOutcome.started = ControlMutationOutcome.started

abbrev pub stop_result : ServiceStopResult → ControlMutationResult
stop_result r = record { outcome = stop_outcome r.outcome; shutdown = r.shutdown }

abbrev pub restart_result : ServiceRestartResult → ControlMutationResult
restart_result r = record { outcome = restart_outcome r.outcome; shutdown = r.shutdown }

module _ {PE QE : Type 0} where
  -- The adapter-safe category of a failure. A wait that has used up its fuel has no category in the
  -- source; the model calls it internal.
  unfoldable pub error_kind : RegistryError PE QE → ControlErrorKind
  error_kind (RegistryError.service_not_found id) = ControlErrorKind.service_not_found
  error_kind (RegistryError.unauthorized e) = ControlErrorKind.unauthorized
  error_kind
        (RegistryError.runtime
          (ServiceRuntimeError.start (BackendOperationError.port_conflict port occupants))) =
      ControlErrorKind.port_conflict_external
  error_kind (RegistryError.runtime (ServiceRuntimeError.start (BackendOperationError.process e))) =
      ControlErrorKind.spawn_failed
  error_kind
        (RegistryError.runtime
          (ServiceRuntimeError.start (BackendOperationError.startup_prerequisite index detail))) =
      ControlErrorKind.health_failed
  error_kind (RegistryError.health_failed detail) = ControlErrorKind.health_failed
  error_kind (RegistryError.runtime (ServiceRuntimeError.stop e)) =
      ControlErrorKind.shutdown_timeout
  error_kind (RegistryError.observation e) = ControlErrorKind.ownership_lost
  error_kind (RegistryError.runtime (ServiceRuntimeError.inspect e)) =
      ControlErrorKind.ownership_lost
  error_kind _ = ControlErrorKind.internal

  -- `display` is the error's `Display`.
  abbrev pub control_error :
      (display : RegistryError PE QE → String) → RegistryError PE QE → ControlError
  control_error display e = record { kind = error_kind e; message = display e }
