-- ===== src/Domain/Authority.antt =====
-- src/domain/control.rs: what the policy refuses, and how long a stop hold lasts.
use aku_supervisor.Base.{true, false, ok, err, List, [], ◌∷◌, All, ◌≡◌, ◌↔◌, refl, arith}
use aku_supervisor.Domain.Actor.{Actor, is_user, is_agent}
use aku_supervisor.Domain.Control.{
  LifecycleAction, OperatorHold, ControlPolicy, operator_hold_stopped, is_launch, authorize,
  apply_user_action,
}

-- What the policy asks of a request, with no order among the tests.
pub record IsAllowed (p : ControlPolicy) (actor : Actor) : Type 0 where
  pub hold : p.operator_hold ≡ OperatorHold.stopped → is_user actor ≡ true
  pub agents : is_agent actor ≡ true → p.agent_start_allowed ≡ true

authorize-IsAllowed :
    (p : ControlPolicy) (actor : Actor)
    → authorize p actor LifecycleAction.start ≡ ok tt
    → IsAllowed p actor
unfolding authorize
authorize-IsAllowed p actor h = record { hold = λ e. ground arith; agents = λ e. ground arith }

IsAllowed-authorize :
    (p : ControlPolicy) (actor : Actor)
    → IsAllowed p actor
    → authorize p actor LifecycleAction.start ≡ ok tt
unfolding authorize
IsAllowed-authorize p actor h = ground arith

-- A start or a restart is authorized exactly when the actor is a user or there is no stop hold, and
-- agents may start the service if the actor is one. A stop is authorized for everyone.
pub authorize_iff :
    (p : ControlPolicy) (actor : Actor) (action : LifecycleAction)
    → (authorize p actor action ≡ ok tt) ↔ (is_launch action ≡ true → IsAllowed p actor)
unfolding authorize
authorize_iff p actor LifecycleAction.start =
    (λ h _. authorize-IsAllowed p actor h, λ h. IsAllowed-authorize p actor (h refl))
authorize_iff p actor LifecycleAction.restart =
    (λ h _. authorize-IsAllowed p actor h, λ h. IsAllowed-authorize p actor (h refl))
authorize_iff p actor LifecycleAction.stop = (λ _ e. cc, λ _. refl)

abbrev pub apply_all : ControlPolicy → List (Actor × LifecycleAction) → ControlPolicy
apply_all p [] = p
apply_all p ((actor, action) ∷ requests) = apply_all (apply_user_action p actor action) requests

abbrev pub FromOthers : List (Actor × LifecycleAction) → Type 0
FromOthers = All (λ request. is_user request.0 ≡ false)

apply_all-others :
    (p : ControlPolicy) (requests : List (Actor × LifecycleAction))
    → FromOthers requests
    → apply_all p requests ≡ p
unfolding apply_user_action
apply_all-others p [] h = refl
apply_all-others p ((actor, action) ∷ requests) h =
    rw (h.0, apply_user_action) (apply_all-others p requests h.1)

-- After a user has stopped a service, no requests of agents or of recovery, however many, clear the
-- hold: the next start or restart that is not a user's is refused. A user's start is authorized.
pub stop_hold_blocks :
    (p : ControlPolicy) (user actor : Actor) (action : LifecycleAction)
    (requests : List (Actor × LifecycleAction))
    → is_user user ≡ true
    → FromOthers requests
    → is_user actor ≡ false
    → is_launch action ≡ true
    → let held = apply_all (apply_user_action p user LifecycleAction.stop) requests in
      (authorize held actor action ≡ err operator_hold_stopped)
      × (authorize held user LifecycleAction.start ≡ ok tt)
unfolding apply_user_action authorize
stop_hold_blocks p user actor action requests u others o launch =
    rw (apply_all-others (apply_user_action p user LifecycleAction.stop) requests others)
      (ground arith, ground arith)
