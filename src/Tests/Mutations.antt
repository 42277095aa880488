-- ===== src/Tests/Mutations.antt =====
-- The theorems on the control that starts dependencies first.
use aku_supervisor.Base.{
  ℕ, String, false, some, List, [], ◌∷◌, ◌++◌, Result, ok, err, inl, inr, ◌⊎◌, ◌≡◌, refl, str_eq,
  str_lt,
}
use aku_supervisor.Base.Maps.{lookup, insert}
use aku_supervisor.Control.{ControlAction, ControlError, control_error}
use aku_supervisor.Domain.Actor.{Actor}
use aku_supervisor.Domain.Lifecycle.{LifecycleState}
use aku_supervisor.Ports.{Backend}
use aku_supervisor.Runtime.{inspect_with}
use aku_supervisor.Runtime.Outcomes.{ServiceRuntimeError}
use aku_supervisor.Registry.Api.{control}
use aku_supervisor.Registry.Dispatch.{
  Services, on_entry, preflight_launches, snapshot, snapshots, each,
}
use aku_supervisor.Registry.Entry.{Entry, Error, new}
use aku_supervisor.Registry.Operations.{preflight_entry}
use aku_supervisor.Registry.Reading.{Unchanged, control-IsReadOnly}
use aku_supervisor.Registry.Types.{
  ServiceRegistration, ServiceSnapshot, RegistryError, BackendOperationError,
}
use aku_supervisor.Planning.Mutation.{
  SupervisorControl, ignore_dependency_plans, before_last, mutate,
}
use aku_supervisor.Planning.Sets.{contains}
use aku_supervisor.Planning.StartOrder.{
  collect_from, stable_start_order, plan_start, visit_all, visit_start, expand,
}
use aku_supervisor.Planning.Target.{stable_start_order_last}
use aku_supervisor.Planning.Untouched.{Blocked, Explains, mutate-refused}
use aku_supervisor.Tests.Machines.{machine, api, snapshot_of, because}

abbrev site : List (ServiceSnapshot String)
site = snapshot_of "web" ("api" ∷ []) ∷ snapshot_of "api" [] ∷ []

stable_start_order_last_example :
    "api" ∷ "web" ∷ [] ≡ before_last ("api" ∷ "web" ∷ []) ++ ("web" ∷ [])
unfolding collect_from lookup insert stable_start_order plan_start visit_all visit_start expand
    str_eq contains str_lt
stable_start_order_last_example = stable_start_order_last site "web" ("api" ∷ "web" ∷ []) refl

-- The machine on which no launch can be prepared.
abbrev broken : Backend
broken = record machine { preflight_launch = λ id spec w. (w, err "no path") }

abbrev web : ServiceRegistration String
web = record api { id = "web"; dependencies = "api" ∷ [] }

abbrev running : ℕ → ServiceRegistration String → Entry broken
running pid registration = record (new registration) {
  runtime = record {
    lock_poisoned = false;
    lifecycle = LifecycleState.running;
    process = some pid;
  };
}

-- Both services run, so that a restart of `web` launches it alone.
abbrev both : Services broken × ℕ
both = (
  record { services = ("api", running 7 api) ∷ ("web", running 8 web) ∷ []; poisoned = false },
  1000,
)

abbrev show_error : Error broken → String
show_error e = "failed"

abbrev registry : SupervisorControl (Services broken × ℕ) String
registry = control broken show_error 10

abbrev answer : {E A : Type 0} → Result E (List A) → List A
answer (ok xs) = xs
answer (err e) = []

abbrev running_site : List (ServiceSnapshot String)
running_site = answer (registry.snapshots both).1

web-Blocked : Blocked registry (Unchanged broken) both "web"
unfolding preflight_launches on_entry preflight_entry lookup str_eq
web-Blocked s' u = (
  control_error show_error
      (RegistryError.runtime (ServiceRuntimeError.start (BackendOperationError.process "no path"))),
  simp (u.0, u.1 "web") refl,
)

mutate-refused_example :
    (e : ControlError) × ((mutate registry ignore_dependency_plans ControlAction.restart "web"
        Actor.codex because both).1
      ≡ err e)
    × Unchanged broken both
        (mutate registry ignore_dependency_plans ControlAction.restart "web" Actor.codex because
          both).0
    × ((stable_start_order running_site ("web" ∷ []) ≡ err e)
        ⊎ ((order : List String) × (stable_start_order running_site ("web" ∷ []) ≡ ok order)
            × Explains registry (Unchanged broken) ControlAction.restart "web" order e))
unfolding collect_from lookup insert stable_start_order plan_start visit_all visit_start expand
    str_eq contains str_lt snapshots each snapshot inspect_with new
mutate-refused_example =
    mutate-refused registry ignore_dependency_plans (Unchanged broken) ControlAction.restart "web"
      Actor.codex because both running_site (control-IsReadOnly broken show_error 10) refl refl
      (inr ("api" ∷ "web" ∷ [], refl, ("web", refl, inl (refl, refl), web-Blocked)))
