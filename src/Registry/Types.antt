-- ===== src/Registry/Types.antt =====
-- src/application/service_registry.rs: registrations, requests and errors.
use aku_supervisor.Base.{ℕ, String, Bool, Option, List}
use aku_supervisor.Domain.Actor.{Actor}
use aku_supervisor.Domain.Control.{LifecycleAction, OperatorHold, AuthorizationError}
use aku_supervisor.Domain.Lifecycle.{LifecycleState, DesiredState, TransitionError}
use aku_supervisor.Domain.Reason.{Reason}
use aku_supervisor.Health.{HealthCheckSpec, HealthSnapshot}
use aku_supervisor.Ports.{LaunchSpec, PortOccupant, ProcessIdentity, TreeStopReport, ℤ}
use aku_supervisor.Runtime.Outcomes.{ServiceRuntimeError, StopOutcome, RestartOutcome}

pub data ServiceRestartPolicy : Type 0 where
  manual on_failure : ServiceRestartPolicy

pub record ServiceRegistration (J : Type 0) : Type 0 where
  pub id : String
  pub label : String
  pub launch : LaunchSpec
  pub dependencies : List String
  pub startup_prerequisites : List (HealthCheckSpec J)
  pub health : HealthCheckSpec J
  pub restart_policy : ServiceRestartPolicy
  pub ports : List ℕ
  pub shutdown_grace : ℕ

pub record LastAction : Type 0 where
  pub action : LifecycleAction
  pub actor : Actor
  pub reason : Reason

pub record ProcessExitEvent : Type 0 where
  pub service_id : String
  pub previous_state : LifecycleState
  pub owned_pids_before : List ℕ
  pub exit_code : Option ℤ
  pub successful : Bool
  pub automatic_restart_planned : Bool
  pub deferred_restart_planned : Bool

pub record ServiceRefresh (J : Type 0) : Type 0 where
  pub health : HealthSnapshot J
  pub process_exit : Option ProcessExitEvent

pub record ServiceStopResult : Type 0 where
  pub outcome : StopOutcome
  pub shutdown : Option TreeStopReport

pub record ServiceRestartResult : Type 0 where
  pub outcome : RestartOutcome
  pub shutdown : Option TreeStopReport

-- `unfinished` is the model's own: a wait has used up its fuel.
pub data BackendOperationError (ProcessFailure PortFailure : Type 0) : Type 0 where
  process : ProcessFailure → BackendOperationError ProcessFailure PortFailure
  startup_prerequisite :
      (index : ℕ) (detail : String) → BackendOperationError ProcessFailure PortFailure
  port_inspection :
      (port : ℕ) (source : PortFailure) → BackendOperationError ProcessFailure PortFailure
  port_conflict :
      (port : ℕ) (occupants : List PortOccupant) → BackendOperationError ProcessFailure PortFailure
  unfinished : BackendOperationError ProcessFailure PortFailure

-- `unfinished` again is the model's own.
pub data RegistryError (ProcessFailure PortFailure : Type 0) : Type 0 where
  service_not_found : String → RegistryError ProcessFailure PortFailure
  unauthorized : AuthorizationError → RegistryError ProcessFailure PortFailure
  lock_poisoned : RegistryError ProcessFailure PortFailure
  transition : TransitionError → RegistryError ProcessFailure PortFailure
  internal_state : RegistryError ProcessFailure PortFailure
  observation : ProcessFailure → RegistryError ProcessFailure PortFailure
  health_failed : (detail : String) → RegistryError ProcessFailure PortFailure
  runtime :
      ServiceRuntimeError (BackendOperationError ProcessFailure PortFailure)
      → RegistryError ProcessFailure PortFailure
  unfinished : RegistryError ProcessFailure PortFailure

pub record ServiceSnapshot (J : Type 0) : Type 0 where
  pub id : String
  pub label : String
  pub depends_on : List String
  pub ports : List ℕ
  pub lifecycle : LifecycleState
  pub root_pid : Option ℕ
  pub owned_pids : List ℕ
  pub owned_processes : List ProcessIdentity
  pub health : HealthSnapshot J
  pub desired_state : DesiredState
  pub started_at_unix_ms : Option ℕ
  pub last_exit_code : Option ℤ
  pub last_exit_at_unix_ms : Option ℕ
  pub restart_count : ℕ
  pub operator_hold : OperatorHold
  pub last_action : Option LastAction
