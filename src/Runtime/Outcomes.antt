-- ===== src/Runtime/Outcomes.antt =====
-- src/application/service_runtime.rs: the outcomes and the errors of a service's runtime.
use aku_supervisor.Domain.Lifecycle.{TransitionError}

pub data StartOutcome : Type 0 where
  started already_running : StartOutcome

pub data StopOutcome : Type 0 where
  stopped termination_pending already_stopped : StopOutcome

pub data RestartOutcome : Type 0 where
  restarted termination_pending started : RestartOutcome

pub data StopProgress : Type 0 where
  complete termination_pending : StopProgress

pub data ServiceRuntimeError (E : Type 0) : Type 0 where
  poisoned : ServiceRuntimeError E
  transition : TransitionError → ServiceRuntimeError E
  start : E → ServiceRuntimeError E
  stop : E → ServiceRuntimeError E
  inspect : E → ServiceRuntimeError E
