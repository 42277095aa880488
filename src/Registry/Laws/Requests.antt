-- ===== src/Registry/Laws/Requests.antt =====
-- Every request on an entry, accepted or refused, leaves alone what is not its own; so a stop hold
-- lasts until a user's request.
use aku_supervisor.Base.{ℕ, Bool, true, false, List, [], ◌∷◌, All, err, ◌≡◌, refl, ap, ◌∙◌, arith}
use aku_supervisor.Domain.Actor.{Actor, is_user}
use aku_supervisor.Domain.Control.{
  LifecycleAction, ControlPolicy, OperatorHold, AuthorizationError, operator_hold_stopped,
  authorize, is_launch,
}
use aku_supervisor.Runtime.Consistency.{IsConsistent}
use aku_supervisor.Domain.Reason.{Reason}
use aku_supervisor.Ports.{Backend}
use aku_supervisor.Registry.Types.{ServiceRegistration, unauthorized}
use aku_supervisor.Registry.Entry.{Entry, Locks, no_poison, new}
use aku_supervisor.Registry.Operations.{
  start_accepted, start, stop_with_report, restart_accepted, restart_with_report, permitted,
}
use aku_supervisor.Registry.Refresh.{refresh}
use aku_supervisor.Registry.Laws.Within.{Stays, Within, within_rules, Stays-refl, Stays-trans}
use aku_supervisor.Registry.Laws.Quiet.{has-Within}
use aku_supervisor.Registry.Laws.Parts.{
  preflight-Within, permitted-Within, accept-Within, start_with-Within, after_start-Within,
  set_policy-Within, set_last_action-Within, stop_with-Within, restart_with-Within,
  after_restart-Within, remember-Within, forget-Within, refresh-Within,
}

refused :
    (p : ControlPolicy) (actor : Actor) (action : LifecycleAction)
    → p.operator_hold ≡ OperatorHold.stopped
    → is_user actor ≡ false
    → is_launch action ≡ true
    → authorize p actor action ≡ err operator_hold_stopped
unfolding authorize
refused p actor action held a l = ground arith

module _ (B : Backend) where
  start_accepted-Within :
      (fuel : ℕ) (actor : Actor) (reason : Reason)
      → Within B (is_user actor) (start_accepted B fuel actor reason)
  unfolding start_accepted
  start_accepted-Within fuel actor reason =
      search (within_rules, preflight-Within, accept-Within, start_with-Within, after_start-Within)
        depth 20

  start-Within :
      (fuel : ℕ) (actor : Actor) (reason : Reason)
      → Within B (is_user actor) (start B fuel actor reason)
  unfolding start
  start-Within fuel actor reason =
      search (within_rules, permitted-Within, has-Within, start_accepted-Within) depth 20

  stop-Within :
      (actor : Actor) (reason : Reason) → Within B (is_user actor) (stop_with_report B actor reason)
  unfolding stop_with_report
  stop-Within actor reason =
      search
        (
          within_rules, set_policy-Within, set_last_action-Within, stop_with-Within,
          remember-Within, forget-Within,
        )
        depth 30

  restart_accepted-Within :
      (fuel : ℕ) (actor : Actor) (reason : Reason)
      → Within B (is_user actor) (restart_accepted B fuel actor reason)
  unfolding restart_accepted
  restart_accepted-Within fuel actor reason =
      search
        (within_rules, preflight-Within, accept-Within, restart_with-Within, after_restart-Within)
        depth 20

  restart-Within :
      (fuel : ℕ) (actor : Actor) (reason : Reason)
      → Within B (is_user actor) (restart_with_report B fuel actor reason)
  unfolding restart_with_report
  restart-Within fuel actor reason =
      search (within_rules, permitted-Within, restart_accepted-Within) depth 10

  pub start-refused :
      (fuel : ℕ) (actor : Actor) (reason : Reason) (s : Entry B × B.World) (e : AuthorizationError)
      → s.0.poisoned.mutation ≡ false
      → s.0.poisoned.control ≡ false
      → authorize s.0.control.policy actor LifecycleAction.start ≡ err e
      → start B fuel actor reason s ≡ (s, err (unauthorized e))
  unfolding start permitted
  start-refused fuel actor reason s e m c h = rw (m, c, h)

  pub restart-refused :
      (fuel : ℕ) (actor : Actor) (reason : Reason) (s : Entry B × B.World) (e : AuthorizationError)
      → s.0.poisoned.mutation ≡ false
      → s.0.poisoned.control ≡ false
      → authorize s.0.control.policy actor LifecycleAction.restart ≡ err e
      → restart_with_report B fuel actor reason s ≡ (s, err (unauthorized e))
  unfolding restart_with_report permitted
  restart-refused fuel actor reason s e m c h = rw (m, c, h)

-- What may happen to an entry: a request of an actor, or a periodic refresh.
pub data Request : Type 0 where
  starts : (fuel : ℕ) → Actor → Reason → Request
  stops : Actor → Reason → Request
  restarts : (fuel : ℕ) → Actor → Reason → Request
  refreshes : (window : ℕ) → Request

-- Whether a user asks for it.
abbrev pub by_user : Request → Bool
by_user (starts fuel actor reason) = is_user actor
by_user (stops actor reason) = is_user actor
by_user (restarts fuel actor reason) = is_user actor
by_user (refreshes window) = false

module _ (B : Backend) where
  -- The entry and the machine after a request, whether it succeeded or failed.
  pub step : Request → Entry B × B.World → Entry B × B.World
  step (starts fuel actor reason) s = (start B fuel actor reason s).0
  step (stops actor reason) s = (stop_with_report B actor reason s).0
  step (restarts fuel actor reason) s = (restart_with_report B fuel actor reason s).0
  step (refreshes window) s = (refresh B window s).0

  pub run : List Request → Entry B × B.World → Entry B × B.World
  run [] s = s
  run (request ∷ requests) s = run requests (step request s)

  step-Stays :
      (request : Request) (s : Entry B × B.World) → Stays B (by_user request) s.0 (step request s).0
  unfolding step
  step-Stays (starts fuel actor reason) s = (start-Within B fuel actor reason).at s
  step-Stays (stops actor reason) s = (stop-Within B actor reason).at s
  step-Stays (restarts fuel actor reason) s = (restart-Within B fuel actor reason).at s
  step-Stays (refreshes window) s = (refresh-Within B false window).at s

  run-Stays :
      (requests : List Request) (s : Entry B × B.World)
      → All (λ request. by_user request ≡ false) requests
      → Stays B false s.0 (run requests s).0
  unfolding run
  run-Stays [] s h = Stays-refl B false s.0
  run-Stays (request ∷ requests) s h =
      Stays-trans B false s.0 (step request s).0 (run requests (step request s)).0
        (rw h.0 at (step-Stays request s)) (run-Stays requests (step request s) h.1)

  run-consistent :
      (requests : List Request) (s : Entry B × B.World)
      → IsConsistent s.0.runtime
      → IsConsistent (run requests s).0.runtime
        × ((run requests s).0.registration ≡ s.0.registration)
  unfolding run
  run-consistent [] s h = (h, refl)
  run-consistent (request ∷ requests) s h =
      let kept = step-Stays request s in
      let (c, e) = run-consistent requests (step request s) (kept.consistent h) in
      (c, e ∙ kept.registration)

  -- Whatever is asked of a new entry, by whomever and however the machine answers, its lifecycle state
  -- fits its process owner between two requests, and its registration stays what it was.
  pub run-new-consistent :
      (registration : ServiceRegistration B.Json) (w : B.World) (requests : List Request)
      → let entry = (run requests (new registration, w)).0 in
        IsConsistent entry.runtime × (entry.registration ≡ registration)
  unfolding new
  run-new-consistent registration w requests = run-consistent requests (new registration, w) refl

  -- While a service is held stopped and none of its locks is poisoned, requests that are not a user's and
  -- refreshes, however many, clear nothing: a start and a restart that are not a user's are still refused,
  -- and change neither the entry nor the machine.
  pub stop_hold_lasts :
      (fuel : ℕ) (actor : Actor) (reason : Reason) (requests : List Request) (s : Entry B × B.World)
      → s.0.poisoned ≡ no_poison
      → s.0.control.policy.operator_hold ≡ OperatorHold.stopped
      → All (λ request. by_user request ≡ false) requests
      → is_user actor ≡ false
      → let t = run requests s in
        (start B fuel actor reason t ≡ (t, err (unauthorized operator_hold_stopped)))
        × (restart_with_report B fuel actor reason t
            ≡ (t, err (unauthorized operator_hold_stopped)))
  stop_hold_lasts fuel actor reason requests s locks held others a =
      let kept = run-Stays requests s others in
      let locks' = kept.locks ∙ locks in
      let held' = ap (λ (p : ControlPolicy). p.operator_hold) (kept.policy refl) ∙ held in
      let m = ap (λ (l : Locks). l.mutation) locks' in
      let c = ap (λ (l : Locks). l.control) locks' in
      (
        start-refused B fuel actor reason (run requests s) operator_hold_stopped m c
            (refused (run requests s).0.control.policy actor LifecycleAction.start held' a refl),
        restart-refused B fuel actor reason (run requests s) operator_hold_stopped m c
            (refused (run requests s).0.control.policy actor LifecycleAction.restart held' a refl),
      )
