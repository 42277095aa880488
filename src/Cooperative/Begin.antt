-- ===== src/Cooperative/Begin.antt =====
-- src/application/cooperative_operations.rs: `begin`, `get` and `active`, and the retention that
-- `OperationState::insert` keeps. `begin` is two critical sections, between which other threads run.
use aku_supervisor.Base.{
  String, leb, false, ◌&&◌, Option, none, some, List, [], ◌∷◌, ◌++◌, length, Result, ok, err,
  if◌then◌else◌,
}
use aku_supervisor.Base.Maps.{OrdMap, lookup, insert, remove}
use aku_supervisor.Base.Keys.{without}
use aku_supervisor.Domain.Actor.{Actor, same_actor}
use aku_supervisor.Domain.Reason.{Reason, same_reason}
use aku_supervisor.Cooperative.Types.{
  retained_operations, CooperativeActionStage, CooperativeOperationStatus,
  CooperativeOperationSnapshot, CooperativeOperationError, OperationState,
}

abbrev pub new : OperationState
new = record { operations = []; order = []; active_request_id = none; is_poisoned = false }

-- The loop of `insert`: `none` when it has nothing left to pop and never ends.
unfoldable pub evict :
    OrdMap CooperativeOperationSnapshot
    → List String
    → Option (OrdMap CooperativeOperationSnapshot × List String)
evict operations [] =
    if leb retained_operations (length operations) then none else some (operations, [])
evict operations (oldest ∷ order) =
    let later = evict (remove oldest operations) order in
    if leb retained_operations (length operations) then later else some (operations, oldest ∷ order)

abbrev pub pushed :
    CooperativeOperationSnapshot
    → OperationState
    → Option (OrdMap CooperativeOperationSnapshot × List String)
    → Option OperationState
pushed operation s none = none
pushed operation s (some (operations, order)) = some (record {
  operations = insert operation.request_id operation operations;
  order = order ++ (operation.request_id ∷ []);
  active_request_id = s.active_request_id;
  is_poisoned = s.is_poisoned;
})

abbrev pub insert_operation : CooperativeOperationSnapshot → OperationState → Option OperationState
insert_operation operation s = pushed operation s (evict s.operations s.order)

abbrev pub accepted_operation : String → Actor → Reason → String → CooperativeOperationSnapshot
accepted_operation target actor reason request_id = record {
  request_id = request_id;
  target = target;
  action = "reload_self";
  actor = actor;
  reason = reason;
  status = CooperativeOperationStatus.running;
  stage = CooperativeActionStage.requested;
  relay_action_id = none;
  expected_build_id = none;
  observed_build_id = none;
  error_category = none;
  message = "authenticated cooperative reload operation accepted";
}

abbrev pub activated : String → OperationState → OperationState
activated request_id s = record {
  operations = s.operations;
  order = s.order;
  active_request_id = some request_id;
  is_poisoned = s.is_poisoned;
}

-- How the first section of `begin` ends: with its answer, or with an operation to be executed.
pub data Accepted : Type 0 where
  answered : Result CooperativeOperationError CooperativeOperationSnapshot → Accepted
  admitted : OperationState → Accepted
  endless : Accepted

abbrev pub replay :
    Actor
    → Reason
    → CooperativeOperationSnapshot
    → Result CooperativeOperationError CooperativeOperationSnapshot
replay actor reason existing =
    if same_actor existing.actor actor && same_reason existing.reason reason
    then ok existing
    else err CooperativeOperationError.idempotency_conflict

abbrev pub inserted : Option OperationState → Accepted
inserted none = endless
inserted (some s) = admitted s

abbrev pub admit : String → Actor → Reason → String → Option String → OperationState → Accepted
admit target actor reason request_id (some active) s =
    answered (err (CooperativeOperationError.action_in_progress active))
admit target actor reason request_id none s =
    inserted (
      insert_operation (accepted_operation target actor reason request_id) (activated request_id s))

abbrev pub begin_at :
    String
    → Actor
    → Reason
    → String
    → Option CooperativeOperationSnapshot
    → OperationState
    → Accepted
begin_at target actor reason request_id (some existing) s = answered (replay actor reason existing)
begin_at target actor reason request_id none s =
    admit target actor reason request_id s.active_request_id s

-- The first section of `begin`.
unfoldable pub accept : String → Actor → Reason → String → OperationState → Accepted
accept target actor reason request_id s =
    if s.is_poisoned
    then answered (err CooperativeOperationError.poisoned)
    else begin_at target actor reason request_id (lookup request_id s.operations) s

-- The section of `begin` after a failure to start the worker.
unfoldable pub abandon :
    String
    → String
    → OperationState
    → OperationState × Result CooperativeOperationError CooperativeOperationSnapshot
abandon request_id error s =
    if s.is_poisoned then (s, err CooperativeOperationError.poisoned) else (
      record {
        operations = remove request_id s.operations;
        order = without request_id s.order;
        active_request_id = none;
        is_poisoned = s.is_poisoned;
      },
      err (CooperativeOperationError.worker_spawn error),
    )

abbrev pub or_not_found :
    Option CooperativeOperationSnapshot
    → Result CooperativeOperationError CooperativeOperationSnapshot
or_not_found none = err CooperativeOperationError.not_found
or_not_found (some operation) = ok operation

abbrev pub get :
    String → OperationState → Result CooperativeOperationError CooperativeOperationSnapshot
get request_id s =
    if s.is_poisoned
    then err CooperativeOperationError.poisoned
    else or_not_found (lookup request_id s.operations)

abbrev pub active_of :
    Option String → OrdMap CooperativeOperationSnapshot → Option CooperativeOperationSnapshot
active_of none operations = none
active_of (some request_id) operations = lookup request_id operations

abbrev pub active :
    OperationState → Result CooperativeOperationError (Option CooperativeOperationSnapshot)
active s =
    if s.is_poisoned
    then err CooperativeOperationError.poisoned
    else ok (active_of s.active_request_id s.operations)

-- What the spawned worker, or another thread, does until `begin` locks again is the argument
-- `spawn`, with the outcome of starting the worker.
abbrev pub begin_spawned :
    String
    → OperationState × Result String (Unit {0})
    → OperationState × Result CooperativeOperationError CooperativeOperationSnapshot
begin_spawned request_id (s, err error) = abandon request_id error s
begin_spawned request_id (s, ok done) = (s, get request_id s)

abbrev pub begin_from :
    (OperationState → OperationState × Result String (Unit {0}))
    → String
    → OperationState
    → Accepted
    → Option (OperationState × Result CooperativeOperationError CooperativeOperationSnapshot)
begin_from spawn request_id s (answered answer) = some (s, answer)
begin_from spawn request_id s (admitted s') = some (begin_spawned request_id (spawn s'))
begin_from spawn request_id s endless = none

-- `none` when it never returns.
unfoldable pub begin :
    (OperationState → OperationState × Result String (Unit {0}))
    → String
    → Actor
    → Reason
    → String
    → OperationState
    → Option (OperationState × Result CooperativeOperationError CooperativeOperationSnapshot)
begin spawn target actor reason request_id s =
    begin_from spawn request_id s (accept target actor reason request_id s)
