-- ===== src/Registry/Dispatch.antt =====
-- src/application/service_registry.rs: the registry's operations, which look an entry up by its id or
-- visit all of them in the order of the ids.
use aku_supervisor.Base.{
  ℕ, String, Option, none, some, List, [], ◌∷◌, Result, ok, err, map_ok, pure, get, ◌>>=◌, ◌>>◌,
  if◌then◌else◌, map,
}
use aku_supervisor.Base.Maps.{OrdMap, lookup, insert}
use aku_supervisor.Domain.Actor.{Actor}
use aku_supervisor.Domain.Lifecycle.{LifecycleState}
use aku_supervisor.Domain.Reason.{Reason}
use aku_supervisor.Health.{HealthSnapshot}
use aku_supervisor.Ports.{Backend, ProcessIdentity}
use aku_supervisor.Runtime.{inspect_with}
use aku_supervisor.Runtime.Outcomes.{StartOutcome, StopOutcome, RestartOutcome}
use aku_supervisor.Registry.Types.{
  ServiceRefresh, ServiceSnapshot, ServiceStopResult, ServiceRestartResult, service_not_found,
  lock_poisoned,
}
use aku_supervisor.Registry.Entry.{
  Entry, Error, Op, lock_mutation, lock_control, lock_health, lock_supervision, on_runtime,
}
use aku_supervisor.Registry.Observe.{map_observation_error}
use aku_supervisor.Registry.Operations
use aku_supervisor.Registry.Operations.{preflight_entry}
use aku_supervisor.Registry.Refresh.{refresh}
use aku_supervisor.Registry.Topology.{Registry}

module _ (B : Backend) where
  abbrev pub Services : Type 0
  Services = Registry B.Json B.Process

  abbrev pub stored :
      {A : Type 0}
      → String
      → Services
      → (Entry B × B.World) × Result (Error B) A
      → (Services × B.World) × Result (Error B) A
  stored id registry r =
      ((record registry { services = insert id r.0.0 registry.services }, r.0.1), r.1)

  abbrev pub found :
      {A : Type 0}
      → String
      → Op B A
      → Services × B.World
      → Option (Entry B)
      → (Services × B.World) × Result (Error B) A
  found id op s none = (s, err (service_not_found id))
  found id op s (some entry) = stored id s.0 (op (entry, s.1))

  -- `read_services` and `entry`, and then an operation of the entry.
  unfoldable pub on_entry :
      {A : Type 0}
      → String
      → Op B A
      → Services × B.World
      → (Services × B.World) × Result (Error B) A
  on_entry id op s =
      if s.0.poisoned then (s, err lock_poisoned) else found id op s (lookup id s.0.services)

  unfoldable pub start :
      ℕ
      → String
      → Actor
      → Reason
      → Services × B.World
      → (Services × B.World) × Result (Error B) StartOutcome
  start fuel id actor reason = on_entry id (Operations.start B fuel actor reason)

  unfoldable pub stop_with_report :
      String
      → Actor
      → Reason
      → Services × B.World
      → (Services × B.World) × Result (Error B) ServiceStopResult
  stop_with_report id actor reason = on_entry id (Operations.stop_with_report B actor reason)

  unfoldable pub restart_with_report :
      ℕ
      → String
      → Actor
      → Reason
      → Services × B.World
      → (Services × B.World) × Result (Error B) ServiceRestartResult
  restart_with_report fuel id actor reason =
      on_entry id (Operations.restart_with_report B fuel actor reason)

  unfoldable pub stop :
      String
      → Actor
      → Reason
      → Services × B.World
      → (Services × B.World) × Result (Error B) StopOutcome
  stop id actor reason s =
      let r = stop_with_report id actor reason s in
      (r.0, map_ok (λ (a : ServiceStopResult). a.outcome) r.1)

  unfoldable pub restart :
      ℕ
      → String
      → Actor
      → Reason
      → Services × B.World
      → (Services × B.World) × Result (Error B) RestartOutcome
  restart fuel id actor reason s =
      let r = restart_with_report fuel id actor reason s in
      (r.0, map_ok (λ (a : ServiceRestartResult). a.outcome) r.1)

  unfoldable pub preflight_launches :
      List String → Services × B.World → (Services × B.World) × Result (Error B) (Unit {0})
  preflight_launches [] s = (s, ok tt)
  preflight_launches (id ∷ ids) s = (on_entry id (preflight_entry B) >> preflight_launches ids) s

  abbrev pub observed :
      LifecycleState
      → Option B.Process
      → B.World
      → B.World × Result B.ProcessError (LifecycleState × Option ℕ × List ProcessIdentity)
  observed lifecycle none w = (w, ok (lifecycle, none, []))
  observed lifecycle (some process) w =
      let r = B.owned_processes process w in
      (r.0, map_ok (λ owned. (lifecycle, some (B.root_pid process), owned)) r.1)

  unfoldable pub snapshot : Op B (ServiceSnapshot B.Json)
  snapshot = do
    lock_mutation B
    lock_control B
    lock_health B
    lock_supervision B
    seen ← on_runtime B map_observation_error (inspect_with observed)
    s ← get
    pure (record {
      id = s.0.registration.id;
      label = s.0.registration.label;
      depends_on = s.0.registration.dependencies;
      ports = s.0.registration.ports;
      lifecycle = seen.0;
      root_pid = seen.1;
      owned_pids = map (λ (p : ProcessIdentity). p.pid) seen.2;
      owned_processes = seen.2;
      health = s.0.health;
      desired_state = s.0.supervision.desired_state;
      started_at_unix_ms = s.0.supervision.started_at_unix_ms;
      last_exit_code = s.0.supervision.last_exit_code;
      last_exit_at_unix_ms = s.0.supervision.last_exit_at_unix_ms;
      restart_count = s.0.supervision.restart_count;
      operator_hold = s.0.control.policy.operator_hold;
      last_action = s.0.control.last_action;
    })

  -- `values().map(op).collect()` into a `Result`: the first error ends the visit.
  abbrev pub visited :
      {A : Type 0}
      → String
      → OrdMap (Entry B)
      → (Entry B × B.World) × Result (Error B) A
      → (B.World → (OrdMap (Entry B) × B.World) × Result (Error B) (List A))
      → (OrdMap (Entry B) × B.World) × Result (Error B) (List A)
  visited id rest (s, err e) visit = (((id, s.0) ∷ rest, s.1), err e)
  visited id rest (s, ok a) visit =
      let r = visit s.1 in (((id, s.0) ∷ r.0.0, r.0.1), map_ok (λ more. a ∷ more) r.1)

  unfoldable pub each :
      {A : Type 0}
      → Op B A
      → OrdMap (Entry B)
      → B.World
      → (OrdMap (Entry B) × B.World) × Result (Error B) (List A)
  each op [] w = (([], w), ok [])
  each op ((id, entry) ∷ rest) w = visited id rest (op (entry, w)) (each op rest)

  abbrev pub on_all :
      {A : Type 0} → Op B A → Services × B.World → (Services × B.World) × Result (Error B) (List A)
  on_all op s =
      if s.0.poisoned
      then (s, err lock_poisoned)
      else (let r = each op s.0.services s.1 in ((record (s.0) { services = r.0.0 }, r.0.1), r.1))

  unfoldable pub snapshots :
      Services × B.World → (Services × B.World) × Result (Error B) (List (ServiceSnapshot B.Json))
  snapshots = on_all snapshot

  unfoldable pub refresh_services :
      (window : ℕ)
      → Services × B.World
      → (Services × B.World) × Result (Error B) (List (ServiceRefresh B.Json))
  refresh_services window = on_all (refresh B window)

  unfoldable pub refresh_healths :
      (window : ℕ)
      → Services × B.World
      → (Services × B.World) × Result (Error B) (List (HealthSnapshot B.Json))
  refresh_healths window s =
      let r = refresh_services window s in
      (r.0, map_ok (map (λ (f : ServiceRefresh B.Json). f.health)) r.1)
