-- ===== src/Cooperative/Outlasting.antt =====
-- src/application/cooperative_operations.rs: what a retained operation keeps, and that the store
-- is ready again once a worker has ended.
use aku_supervisor.Base.{
  String, true, false, none, some, List, ◌∷◌, ◌++◌, ◌≡◌, ◌⊎◌, inl, inr, refl, ap, arith, Bool-cases,
  Option-cases, Result, err, str_eq, str_eq_refl,
}
use aku_supervisor.Base.Maps.{OrdMap, lookup, lookup-remove, update}
use aku_supervisor.Base.Keys.{lookup-update}
use aku_supervisor.Domain.Actor.{Actor}
use aku_supervisor.Domain.Reason.{Reason}
use aku_supervisor.Cooperative.Types.{
  CooperativeOperationSnapshot, CooperativeOperationError, OperationState, CooperativeActionOutcome,
  CooperativeActionError,
}
use aku_supervisor.Cooperative.Begin.{
  accept, admitted, abandon, begin, begin_from, begin_spawned, replay,
}
use aku_supervisor.Cooperative.Worker.{update_progress, finish, progressed, ended}
use aku_supervisor.Cooperative.Flights.{Worker, executing, System, Step, Reach}
use aku_supervisor.Cooperative.Retention.{Sound, is_running}
use aku_supervisor.Cooperative.Admission.{accept-Admission, accept-new}
use aku_supervisor.Cooperative.Kept.{finish-Sound}
use aku_supervisor.Cooperative.Interleaving.{Exclusive, All-middle, Reach-Exclusive}

-- What may follow a snapshot: itself, or, while it was running, one of the same request.
pub data Follows (a b : CooperativeOperationSnapshot) : Type 0 where
  same : b ≡ a → Follows a b
  moved :
      is_running a.status ≡ true
      → b.request_id ≡ a.request_id
      → b.target ≡ a.target
      → b.action ≡ a.action
      → b.actor ≡ a.actor
      → b.reason ≡ a.reason
      → Follows a b

-- The operation under an id afterwards: evicted, or one that follows.
abbrev pub Survives :
    String → CooperativeOperationSnapshot → OrdMap CooperativeOperationSnapshot → Type 0
Survives k a operations =
    (lookup k operations ≡ none)
    ⊎ (b : CooperativeOperationSnapshot) × (lookup k operations ≡ some b) × Follows a b

ended-Follows :
    (result : Result CooperativeActionError CooperativeActionOutcome)
    (a : CooperativeOperationSnapshot)
    → is_running a.status ≡ true
    → Follows a (ended result a)
ended-Follows (Result.ok outcome) a run = Follows.moved run refl refl refl refl refl
ended-Follows (Result.err error) a run = Follows.moved run refl refl refl refl refl

update-Survives :
    (id k : String) (f : CooperativeOperationSnapshot → CooperativeOperationSnapshot)
    (s : OperationState) (a : CooperativeOperationSnapshot)
    → Sound s
    → s.active_request_id ≡ some id
    → (is_running a.status ≡ true → Follows a (f a))
    → lookup k s.operations ≡ some a
    → Survives k a (update id f s.operations)
update-Survives id k f s a sound active follows was = elim (Bool-cases (str_eq id k)) [
  | inl hit ↦ inr (
    f a,
    ground (arith, lookup-update id k f s.operations, was),
    follows (ground (arith, sound.tracked.running k a was, active, hit)),
  )
  | inr miss ↦ inr (a, ground (arith, lookup-update id k f s.operations, was), Follows.same refl)
]

stay :
    (s : OperationState) (k : String) (a : CooperativeOperationSnapshot)
    → lookup k s.operations ≡ some a
    → Survives k a s.operations
stay s k a was = inr (a, was, Follows.same refl)

Exclusive-Survives :
    (k : String) (a : CooperativeOperationSnapshot) (y z : System)
    → Exclusive y
    → Step y z
    → lookup k y.state.operations ≡ some a
    → Survives k a z.state.operations
unfolding abandon update_progress finish
Exclusive-Survives k a _ _ e (Step.accepted target actor reason request_id s s' ws admitting) was =
    elim ((accept-Admission target actor reason request_id s s' e.sound admitting).kept k a was) [
      | inl gone ↦ inl gone
      | inr there ↦ stay s' k a there
    ]
Exclusive-Survives k a _ _ e (Step.spawned request_id s before after) was = stay s k a was
Exclusive-Survives k a _ _ e (Step.refused request_id error s before after) was =
    elim (Bool-cases s.is_poisoned) [
      | inl broken ↦ simp broken (stay s k a was)
      | inr fine ↦ simp fine (elim (Bool-cases (str_eq request_id k)) [
        | inl hit ↦ inl (ground (arith, lookup-remove request_id k s.operations, hit))
        | inr miss ↦ inr (
          a,
          ground (arith, lookup-remove request_id k s.operations, miss, was),
          Follows.same refl,
        )
      ])
    ]
Exclusive-Survives k a _ _ e (Step.progress request_id change s before after) was =
    elim (Bool-cases s.is_poisoned) [
      | inl broken ↦ simp broken (stay s k a was)
      | inr fine ↦ simp fine (
          update-Survives request_id k (progressed change) s a e.sound
            (All-middle _ before after (executing request_id) e.flying)
            (λ run. Follows.moved run refl refl refl refl refl) was)
    ]
Exclusive-Survives k a _ _ e (Step.finished request_id result s before after) was =
    let active = All-middle _ before after (executing request_id) e.flying in
    elim (Bool-cases s.is_poisoned) [
      | inl broken ↦ simp broken (stay s k a was)
      | inr fine ↦
          simp (fine, e.sound.tracked.present request_id active)
            (update-Survives request_id k (ended result) s a e.sound active (ended-Follows result a)
              was)
    ]
Exclusive-Survives k a _ _ e (Step.lost request_id s before after) was = stay s k a was
Exclusive-Survives k a _ _ e (Step.poisoning s ws) was = stay s k a was

finish-idle :
    (request_id : String) (result : Result CooperativeActionError CooperativeActionOutcome)
    (s : OperationState)
    → Sound s
    → s.is_poisoned ≡ false
    → s.active_request_id ≡ some request_id
    → (finish request_id result s).active_request_id ≡ none
unfolding finish
finish-idle request_id result s sound fine active =
    simp (fine, sound.tracked.present request_id active, active, str_eq_refl request_id) refl

finish-fine :
    (request_id : String) (result : Result CooperativeActionError CooperativeActionOutcome)
    (s : OperationState)
    → s.is_poisoned ≡ false
    → (finish request_id result s).is_poisoned ≡ false
unfolding finish
finish-fine request_id result s fine = ground arith

-- A step leaves every retained operation as it is, evicts it, or, while it is running, changes
-- what is not its request's: the id, target, action, actor and reason stay. So an operation that
-- has completed or failed is never changed again.
pub Step-Survives :
    (y z : System) (k : String) (a : CooperativeOperationSnapshot)
    → Reach y
    → Step y z
    → lookup k y.state.operations ≡ some a
    → Survives k a z.state.operations
Step-Survives y z k a reached step was =
    Exclusive-Survives k a y z (Reach-Exclusive y reached) step was

-- When the only worker of a reachable store ends and the lock is not poisoned, no operation is
-- active any more, and the next `begin` with an id that is not retained is admitted and running.
pub finish-accept :
    (request_id other target : String) (actor : Actor) (reason : Reason)
    (result : Result CooperativeActionError CooperativeActionOutcome) (s : OperationState)
    (before after : List Worker)
    → Reach (record { state = s; workers = before ++ (executing request_id ∷ after) })
    → s.is_poisoned ≡ false
    → lookup other (finish request_id result s).operations ≡ none
    → ((finish request_id result s).active_request_id ≡ none)
      × (s' : OperationState) × (accept target actor reason other (finish request_id result s)
          ≡ admitted s')
      × (s'.active_request_id ≡ some other)
finish-accept request_id other target actor reason result s before after reached fine free =
    let e = Reach-Exclusive _ reached in
    let active = All-middle _ before after (executing request_id) e.flying in
    let idle = finish-idle request_id result s e.sound fine active in
    let (s', admitting, admission) =
      accept-new target actor reason other (finish request_id result s)
        (finish-Sound request_id result s e.sound active) (finish-fine request_id result s fine)
        free idle in
    (idle, s', admitting, admission.active)

-- In a reachable store `begin` returns: the eviction's loop ends.
pub begin_total :
    (spawn : OperationState → OperationState × Result String (Unit {0})) (target : String)
    (actor : Actor) (reason : Reason) (request_id : String) (y : System)
    → Reach y
    → (r : OperationState × Result CooperativeOperationError CooperativeOperationSnapshot) × (begin
          spawn target actor reason request_id y.state
        ≡ some r)
unfolding begin accept
begin_total spawn target actor reason request_id y reached = elim (Bool-cases y.state.is_poisoned) [
  | inl broken ↦ ((y.state, err CooperativeOperationError.poisoned), simp broken refl)
  | inr fine ↦ elim (Option-cases (lookup request_id y.state.operations)) [
    | inr (existing, there) ↦ ((y.state, replay actor reason existing), simp (fine, there) refl)
    | inl free ↦ elim (Option-cases y.state.active_request_id) [
      | inr (other, busy) ↦ (
        (y.state, err (CooperativeOperationError.action_in_progress other)),
        simp (fine, free, busy) refl,
      )
      | inl idle ↦
          let (s', admitting, _) =
            accept-new target actor reason request_id y.state (Reach-Exclusive y reached).sound fine
              free idle in
          (begin_spawned request_id (spawn s'), ap (begin_from spawn request_id y.state) admitting)
    ]
  ]
]
