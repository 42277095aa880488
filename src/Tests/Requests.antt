-- ===== src/Tests/Requests.antt =====
-- The registry's theorems on a service.
use aku_supervisor.Base.{
  ℕ, String, Bool, false, some, [], ◌∷◌, List, ok, err, str_eq, ◌≡◌, ◌⊎◌, refl,
}
use aku_supervisor.Base.Maps.{OrdMap, lookup}
use aku_supervisor.Domain.Actor.{Actor}
use aku_supervisor.Domain.Control.{operator_hold_stopped}
use aku_supervisor.Runtime.Consistency.{IsConsistent}
use aku_supervisor.Registry.Types.{ServiceRegistration, unauthorized}
use aku_supervisor.Registry.Entry.{Entry, new}
use aku_supervisor.Registry.Operations.{start, restart_with_report}
use aku_supervisor.Registry.Dispatch.{Services}
use aku_supervisor.Registry.Topology.{
  RegistryReconcileError, RegistryReconcileOutcome, collect, reconcile_registrations,
}
use aku_supervisor.Registry.Topology.Rebuilt.{target}
use aku_supervisor.Registry.Topology.Retained.{reconcile-active, reconcile-target}
use aku_supervisor.Registry.Laws.Requests.{
  Request, starts, stops, restarts, refreshes, run, run-new-consistent, stop_hold_lasts,
}
use aku_supervisor.Tests.Machines.{machine, api, held_entry, running_entry, because}

abbrev day : List Request
day =
    starts 3 Actor.user_cli because
    ∷ restarts 3 Actor.codex because
    ∷ refreshes 60000
    ∷ stops Actor.user_ui because
    ∷ []

run-new-consistent_example :
    IsConsistent (run machine day (new api, 100)).0.runtime
    × ((run machine day (new api, 100)).0.registration ≡ api)
run-new-consistent_example = run-new-consistent machine api 100 day

abbrev of_agents : List Request
of_agents = starts 3 Actor.agent because ∷ refreshes 60000 ∷ stops Actor.codex because ∷ []

abbrev after_agents : Entry machine × ℕ
after_agents = run machine of_agents (held_entry, 100)

stop_hold_lasts_example :
    (start machine 3 Actor.codex because after_agents
      ≡ (after_agents, err (unauthorized operator_hold_stopped)))
    × (restart_with_report machine 3 Actor.codex because after_agents
        ≡ (after_agents, err (unauthorized operator_hold_stopped)))
unfolding new
stop_hold_lasts_example =
    stop_hold_lasts machine 3 Actor.codex because of_agents (held_entry, 100) refl refl
      (refl, (refl, (refl, tt))) refl

abbrev same_label : ServiceRegistration String → ServiceRegistration String → Bool
same_label a b = str_eq a.label b.label

abbrev two_services : Services machine
two_services = record {
  services = ("api", running_entry) ∷ ("web", new (record api { id = "web"; label = "Web" })) ∷ [];
  poisoned = false;
}

reconcile-active_example :
    lookup "api" (reconcile_registrations same_label [] two_services).0.services
    ≡ some running_entry
unfolding new lookup str_eq
reconcile-active_example = reconcile-active same_label [] two_services "api" running_entry refl refl

abbrev renamed : ServiceRegistration String
renamed = record api { id = "web"; label = "Site" }

reconcile-target_example :
    ((e : RegistryReconcileError) × (reconcile_registrations same_label
          (api ∷ renamed ∷ [])
          two_services
        ≡ (two_services, err e)))
    ⊎ ((desired : OrdMap (ServiceRegistration String)) × (collect (api ∷ renamed ∷ []) []
          ≡ ok desired)
        × ((outcome : RegistryReconcileOutcome) × ((reconcile_registrations same_label
                (api ∷ renamed ∷ [])
                two_services).1
              ≡ ok outcome))
        × ((id : String)
            → lookup id
                (reconcile_registrations same_label (api ∷ renamed ∷ []) two_services).0.services
              ≡ target same_label (lookup id desired) (lookup id two_services.services)))
reconcile-target_example = reconcile-target same_label (api ∷ renamed ∷ []) two_services
