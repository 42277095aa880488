-- ===== src/Cooperative/Worker.antt =====
-- src/application/cooperative_operations.rs: what a worker does, `execute` and `update_progress`.
use aku_supervisor.Base.{
  String, str_eq, Bool, false, not, ◌&&◌, Option, none, some, is_some, List, [], ◌∷◌, Result, ok,
  err, if◌then◌else◌,
}
use aku_supervisor.Base.Maps.{OrdMap, lookup, update}
use aku_supervisor.Domain.Actor.{Actor}
use aku_supervisor.Domain.Reason.{Reason}
use aku_supervisor.Cooperative.Types.{
  CooperativeActionStage, CooperativeActionProgress, CooperativeActionOutcome,
  CooperativeActionError, CooperativeOperationStatus, CooperativeOperationSnapshot, OperationState,
}

abbrev pub or_else : Option String → Option String → Option String
or_else none other = other
or_else (some x) other = some x

abbrev pub progressed :
    CooperativeActionProgress → CooperativeOperationSnapshot → CooperativeOperationSnapshot
progressed change operation = record {
  request_id = operation.request_id;
  target = operation.target;
  action = operation.action;
  actor = operation.actor;
  reason = operation.reason;
  status = operation.status;
  stage = change.stage;
  relay_action_id = or_else change.relay_action_id operation.relay_action_id;
  expected_build_id = or_else change.expected_build_id operation.expected_build_id;
  observed_build_id = or_else change.observed_build_id operation.observed_build_id;
  error_category = operation.error_category;
  message = change.message;
}

abbrev pub with_operations : OrdMap CooperativeOperationSnapshot → OperationState → OperationState
with_operations operations s = record {
  operations = operations;
  order = s.order;
  active_request_id = s.active_request_id;
  is_poisoned = s.is_poisoned;
}

unfoldable pub update_progress :
    String → CooperativeActionProgress → OperationState → OperationState
update_progress request_id change s =
    if s.is_poisoned
    then s
    else with_operations (update request_id (progressed change) s.operations) s

abbrev pub ended :
    Result CooperativeActionError CooperativeActionOutcome
    → CooperativeOperationSnapshot
    → CooperativeOperationSnapshot
ended (ok outcome) operation = record {
  request_id = operation.request_id;
  target = operation.target;
  action = operation.action;
  actor = operation.actor;
  reason = operation.reason;
  status = CooperativeOperationStatus.completed;
  stage = CooperativeActionStage.completed;
  relay_action_id = outcome.relay_action_id;
  expected_build_id = outcome.expected_build_id;
  observed_build_id = outcome.observed_build_id;
  error_category = operation.error_category;
  message = outcome.message;
}
ended (err error) operation = record {
  request_id = operation.request_id;
  target = operation.target;
  action = operation.action;
  actor = operation.actor;
  reason = operation.reason;
  status = CooperativeOperationStatus.failed;
  stage = CooperativeActionStage.failed;
  relay_action_id = or_else operation.relay_action_id error.relay_action_id;
  expected_build_id = operation.expected_build_id;
  observed_build_id = or_else operation.observed_build_id error.observed_build_id;
  error_category = some error.category;
  message = error.message;
}

abbrev pub is_active : String → Option String → Bool
is_active request_id none = false
is_active request_id (some active) = str_eq active request_id

-- The last section of `execute`.
unfoldable pub finish :
    String
    → Result CooperativeActionError CooperativeActionOutcome
    → OperationState
    → OperationState
finish request_id result s =
    if not s.is_poisoned && is_some (lookup request_id s.operations)
    then record {
      operations = update request_id (ended result) s.operations;
      order = s.order;
      active_request_id =
          if is_active request_id s.active_request_id then none else s.active_request_id;
      is_poisoned = s.is_poisoned;
    }
    else s

abbrev pub reported : String → List CooperativeActionProgress → OperationState → OperationState
reported request_id [] s = s
reported request_id (change ∷ changes) s =
    reported request_id changes (update_progress request_id change s)

-- A worker with no other thread beside it: what the control reports, in order, and its result.
unfoldable pub execute :
    (Actor
      → Reason
      → String
      → List CooperativeActionProgress × Result CooperativeActionError CooperativeActionOutcome)
    → Actor
    → Reason
    → String
    → OperationState
    → OperationState
execute control actor reason request_id s =
    let (changes, result) = control actor reason request_id in
    finish request_id result (reported request_id changes s)
