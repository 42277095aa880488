-- ===== src/Tests/Operations.antt =====
-- The theorems on the store of cooperative operations.
use aku_supervisor.Base.{false, none, some, [], ◌∷◌, ok, Result, ◌≡◌, refl, str_eq}
use aku_supervisor.Base.Maps.{lookup, insert, update}
use aku_supervisor.Domain.Actor.{Actor}
use aku_supervisor.Domain.Reason.{Reason}
use aku_supervisor.Cooperative.Types.{
  CooperativeActionOutcome, CooperativeActionError, CooperativeOperationError,
  CooperativeOperationSnapshot, OperationState,
}
use aku_supervisor.Cooperative.Begin.{new, accept, admitted, accepted_operation, evict, begin}
use aku_supervisor.Cooperative.Worker.{finish}
use aku_supervisor.Cooperative.Flights.{System, Step, Reach, starting, executing}
use aku_supervisor.Cooperative.Interleaving.{Exclusive, Reach-Exclusive}
use aku_supervisor.Cooperative.Outlasting.{Survives, Step-Survives, finish-accept, begin_total}

abbrev reason : Reason
reason = record { text = 114 ∷ [] }

abbrev operation : CooperativeOperationSnapshot
operation = accepted_operation "extension" Actor.codex reason "first"

abbrev flying : OperationState
flying = record {
  operations = ("first", operation) ∷ [];
  order = "first" ∷ [];
  active_request_id = some "first";
  is_poisoned = false;
}

accepts : accept "extension" Actor.codex reason "first" new ≡ admitted flying
unfolding accept evict lookup insert
accepts = refl

abbrev started : System
started = record { state = flying; workers = starting "first" ∷ [] }

abbrev working : System
working = record { state = flying; workers = executing "first" ∷ [] }

started-Reach : Reach started
started-Reach =
    Reach.next _ _ Reach.initial
      (Step.accepted "extension" Actor.codex reason "first" new flying [] accepts)

working-Reach : Reach working
working-Reach = Reach.next started working started-Reach (Step.spawned "first" flying [] [])

abbrev failure : Result CooperativeActionError CooperativeActionOutcome
failure = Result.err (record {
  category = "timeout";
  message = "no acknowledgement";
  relay_action_id = some "relay";
  observed_build_id = none;
})

abbrev landed : OperationState
landed = finish "first" failure flying

Reach-Exclusive_example : Exclusive working
Reach-Exclusive_example = Reach-Exclusive working working-Reach

Step-Survives_example : Survives "first" operation landed.operations
unfolding lookup str_eq
Step-Survives_example =
    Step-Survives working (record { state = landed; workers = [] }) "first" operation working-Reach
      (Step.finished "first" failure flying [] []) refl

finish-accept_example :
    (landed.active_request_id ≡ none)
    × (s' : OperationState) × (accept "extension" Actor.agent reason "second" landed ≡ admitted s')
    × (s'.active_request_id ≡ some "second")
unfolding finish lookup str_eq update
finish-accept_example =
    finish-accept "first" "second" "extension" Actor.agent reason failure flying [] [] working-Reach
      refl refl

begin_total_example :
    (r : OperationState × Result CooperativeOperationError CooperativeOperationSnapshot) × (begin
        (λ s. (s, ok tt))
        "extension"
        Actor.agent
        reason
        "second"
        flying
      ≡ some r)
begin_total_example =
    begin_total (λ s. (s, ok tt)) "extension" Actor.agent reason "second" working working-Reach
