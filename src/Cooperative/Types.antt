-- ===== src/Cooperative/Types.antt =====
-- src/application/cooperative_actions.rs and the types of cooperative_operations.rs.
use aku_supervisor.Base.{ℕ, String, Bool, Option, List}
use aku_supervisor.Base.Maps.{OrdMap}
use aku_supervisor.Domain.Actor.{Actor}
use aku_supervisor.Domain.Reason.{Reason}

abbrev pub retained_operations : ℕ
retained_operations = 128

pub data CooperativeActionStage : Type 0 where
  requested relay_created delivered accepted heartbeat_observed completed failed :
      CooperativeActionStage

pub record CooperativeActionProgress : Type 0 where
  pub stage : CooperativeActionStage
  pub relay_action_id : Option String
  pub expected_build_id : Option String
  pub observed_build_id : Option String
  pub message : String

pub data CooperativeActionStatus : Type 0 where
  completed failed : CooperativeActionStatus

pub record CooperativeActionOutcome : Type 0 where
  pub target : String
  pub action : String
  pub status : CooperativeActionStatus
  pub relay_action_id : Option String
  pub previous_build_id : Option String
  pub expected_build_id : Option String
  pub observed_build_id : Option String
  pub message : String

pub record CooperativeActionError : Type 0 where
  pub category : String
  pub message : String
  pub relay_action_id : Option String
  pub observed_build_id : Option String

pub data CooperativeOperationStatus : Type 0 where
  running completed failed : CooperativeOperationStatus

pub record CooperativeOperationSnapshot : Type 0 where
  pub request_id : String
  pub target : String
  pub action : String
  pub actor : Actor
  pub reason : Reason
  pub status : CooperativeOperationStatus
  pub stage : CooperativeActionStage
  pub relay_action_id : Option String
  pub expected_build_id : Option String
  pub observed_build_id : Option String
  pub error_category : Option String
  pub message : String

pub data CooperativeOperationError : Type 0 where
  not_found : CooperativeOperationError
  idempotency_conflict : CooperativeOperationError
  action_in_progress : String → CooperativeOperationError
  worker_spawn : String → CooperativeOperationError
  poisoned : CooperativeOperationError

pub record OperationState : Type 0 where
  pub operations : OrdMap CooperativeOperationSnapshot
  pub order : List String
  pub active_request_id : Option String
  pub is_poisoned : Bool
