-- ===== src/Tests/Plans.antt =====
-- The theorems on the order of services and on automatic restarts.
use aku_supervisor.Base.{
  ℕ, ◌<◌, String, true, false, some, [], ◌∷◌, List, All, ok, ◌≡◌, ◌↔◌, refl, arith, str_eq, str_lt,
  str_eq_iff, subst, Bool-cases, inr, if◌then◌else◌, inl,
}
use aku_supervisor.Base.Maps.{OrdMap, lookup, insert}
use mathlib.Core.List.{reverse}
use aku_supervisor.Domain.Actor.{Actor}
use aku_supervisor.Domain.Control.{LifecycleAction, OperatorHold, holds_stopped}
use aku_supervisor.Domain.Lifecycle.{DesiredState}
use aku_supervisor.Planning.Acyclic.{Registered, Ranked}
use aku_supervisor.Planning.Order.{stable_start_order_sound, stable_start_order_total}
use aku_supervisor.Base.Keys.{occurs}
use aku_supervisor.Planning.Sets.{contains}
use aku_supervisor.Planning.Shutdown.{stable_shutdown_order}
use aku_supervisor.Planning.Shutdown.Planned.{IsShutdownOrder, stable_shutdown_order_total}
use aku_supervisor.Planning.Sound.{Topological}
use aku_supervisor.Planning.StartOrder.{
  collect_from, stable_start_order, plan_start, visit_all, visit_start, expand,
}
use aku_supervisor.Registry.Types.{ServiceSnapshot, ServiceRestartPolicy}
use aku_supervisor.Registry.Supervision
use aku_supervisor.Registry.Supervision.{
  SupervisionState, record_exit, request_running, record_started, wants_running,
}
use aku_supervisor.Registry.Supervision.Plans.{
  Recovers, record_exit_automatic_iff, record_exit_deferred_iff, one_restart_per_episode,
}
use aku_supervisor.Tests.Machines.{snapshot_of, failed_exit}

abbrev services : List (ServiceSnapshot String)
services = snapshot_of "web" ("api" ∷ []) ∷ snapshot_of "api" [] ∷ []

stable_start_order_sound_example :
    Topological (collect_from [] services) (reverse ("api" ∷ "web" ∷ []))
    × All (λ id. contains (reverse ("api" ∷ "web" ∷ [])) id ≡ true) ("web" ∷ [])
unfolding collect_from lookup insert stable_start_order plan_start visit_all visit_start expand
    str_eq contains str_lt
stable_start_order_sound_example =
    stable_start_order_sound services ("web" ∷ []) ("api" ∷ "web" ∷ []) refl

abbrev rank : String → ℕ
rank id = if str_eq id "web" then 1 else 0

abbrev collected : OrdMap (ServiceSnapshot String)
collected = ("api", snapshot_of "api" []) ∷ ("web", snapshot_of "web" ("api" ∷ [])) ∷ []

-- What `Ranked` asks of one service.
abbrev Lower : String → ServiceSnapshot String → Type 0
Lower id service = All (λ d. Registered collected d × (rank d < rank id)) service.depends_on

api_below_web : Registered collected "api" × (rank "api" < rank "web")
unfolding lookup str_eq
api_below_web = (refl, omega arith)

collected-Ranked : Ranked rank collected
unfolding lookup
collected-Ranked id service e = elim (Bool-cases (str_eq "api" id)) [
  | inl api ↦
      let found : snapshot_of "api" [] ≡ service = cc (rw api at e) in
      subst (λ (s : ServiceSnapshot String). Lower id s) found tt
  | inr other ↦ elim (Bool-cases (str_eq "web" id)) [
    | inl web ↦
        let found : snapshot_of "web" ("api" ∷ []) ≡ service = cc (rw (other, web) at e) in
        let name : "web" ≡ id = (str_eq_iff "web" id).0 web in
        subst (λ (s : ServiceSnapshot String). Lower id s) found
          (subst (λ (j : String). Lower j (snapshot_of "web" ("api" ∷ []))) name
            (api_below_web, tt))
    | inr neither ↦ absurd (cc (rw (other, neither) at e))
  ]
]

stable_start_order_total_example :
    (order : List String) × (stable_start_order services ("web" ∷ []) ≡ ok order)
unfolding collect_from lookup insert str_eq str_lt
stable_start_order_total_example =
    stable_start_order_total services ("web" ∷ []) rank collected-Ranked (refl, tt)

stable_shutdown_order_total_example :
    (order : List String) × (stable_shutdown_order services ≡ ok order)
    × IsShutdownOrder services order
unfolding occurs str_eq
stable_shutdown_order_total_example =
    stable_shutdown_order_total services rank (refl, (refl, tt))
      (((refl, omega arith), tt), (tt, tt))

abbrev running : SupervisionState
running = record Supervision.new { desired_state = DesiredState.running; started_at = some 100 }

abbrev on_failure : ServiceRestartPolicy
on_failure = ServiceRestartPolicy.on_failure

record_exit_automatic_iff_example :
    ((record_exit running failed_exit on_failure OperatorHold.none 60000 500 900).1 ≡ true)
    ↔ Recovers running failed_exit on_failure OperatorHold.none 60000 500
record_exit_automatic_iff_example =
    record_exit_automatic_iff running failed_exit on_failure OperatorHold.none 60000 500 900

abbrev deferred : SupervisionState
deferred = record running { restart_after_termination = true }

record_exit_deferred_iff_example :
    ((record_exit deferred failed_exit on_failure OperatorHold.none 60000 500 900).2 ≡ true) ↔ (
      (deferred.restart_after_termination ≡ true)
      × (wants_running deferred.desired_state ≡ true)
      × (holds_stopped OperatorHold.none ≡ false)
      × ((record_exit deferred failed_exit on_failure OperatorHold.none 60000 500 900).1 ≡ false))
record_exit_deferred_iff_example =
    record_exit_deferred_iff deferred failed_exit on_failure OperatorHold.none 60000 500 900

abbrev exited : SupervisionState
exited = (record_exit running failed_exit on_failure OperatorHold.none 60000 500 900).0

abbrev again : SupervisionState
again = record_started (request_running exited Actor.recovery) LifecycleAction.restart 600 1000

one_restart_per_episode_example :
    (record_exit again failed_exit on_failure OperatorHold.none 60000 700 1100).1 ≡ false
unfolding record_exit
one_restart_per_episode_example =
    one_restart_per_episode running failed_exit failed_exit on_failure OperatorHold.none
      Actor.recovery LifecycleAction.restart 60000 500 900 600 1000 700 1100 refl refl (omega arith)
