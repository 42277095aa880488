-- ===== src/Cooperative/Flights.antt =====
-- src/application/cooperative_operations.rs: the threads around the store as interleaved steps. A
-- thread of `begin` between its two sections is `starting`, a worker inside `execute` is `executing`.
use aku_supervisor.Base.{String, true, List, [], ◌∷◌, ◌++◌, Result, ◌≡◌}
use aku_supervisor.Domain.Actor.{Actor}
use aku_supervisor.Domain.Reason.{Reason}
use aku_supervisor.Cooperative.Types.{
  CooperativeActionProgress, CooperativeActionOutcome, CooperativeActionError, OperationState,
}
use aku_supervisor.Cooperative.Begin.{new, admitted, accept, abandon}
use aku_supervisor.Cooperative.Worker.{update_progress, finish}

pub data Worker : Type 0 where
  starting executing : String → Worker

abbrev pub request_of : Worker → String
request_of (starting request_id) = request_id
request_of (executing request_id) = request_id

pub record System : Type 0 where
  pub state : OperationState
  pub workers : List Worker

abbrev pub poison : OperationState → OperationState
poison s = record {
  operations = s.operations;
  order = s.order;
  active_request_id = s.active_request_id;
  is_poisoned = true;
}

-- A section that is answered at once changes nothing and is no step.
pub data Step : System → System → Type 0 where
  -- The first section of `begin` admits a request.
  accepted :
      (target : String) (actor : Actor) (reason : Reason) (request_id : String)
      (s s' : OperationState) (ws : List Worker)
      → accept target actor reason request_id s ≡ admitted s'
      → Step
          (record { state = s; workers = ws })
          (record { state = s'; workers = starting request_id ∷ ws })
  -- The worker was spawned.
  spawned :
      (request_id : String) (s : OperationState) (before after : List Worker)
      → Step
          (record { state = s; workers = before ++ (starting request_id ∷ after) })
          (record { state = s; workers = before ++ (executing request_id ∷ after) })
  -- The worker could not be spawned, and `begin` takes the request back.
  refused :
      (request_id error : String) (s : OperationState) (before after : List Worker)
      → Step
          (record { state = s; workers = before ++ (starting request_id ∷ after) })
          (record { state = (abandon request_id error s).0; workers = before ++ after })
  progress :
      (request_id : String) (change : CooperativeActionProgress) (s : OperationState)
      (before after : List Worker)
      → Step
          (record { state = s; workers = before ++ (executing request_id ∷ after) })
          (record {
            state = update_progress request_id change s;
            workers = before ++ (executing request_id ∷ after);
          })
  finished :
      (request_id : String) (result : Result CooperativeActionError CooperativeActionOutcome)
      (s : OperationState) (before after : List Worker)
      → Step
          (record { state = s; workers = before ++ (executing request_id ∷ after) })
          (record { state = finish request_id result s; workers = before ++ after })
  -- A worker's thread panics inside the control.
  lost :
      (request_id : String) (s : OperationState) (before after : List Worker)
      → Step
          (record { state = s; workers = before ++ (executing request_id ∷ after) })
          (record { state = s; workers = before ++ after })
  -- A thread panics while it holds the lock.
  poisoning :
      (s : OperationState) (ws : List Worker)
      → Step (record { state = s; workers = ws }) (record { state = poison s; workers = ws })

pub data Reach : System → Type 0 where
  initial : Reach (record { state = new; workers = [] })
  next : (s t : System) → Reach s → Step s t → Reach t
