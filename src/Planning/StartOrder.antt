-- ===== src/Planning/StartOrder.antt =====
-- src/application/dependency_control.rs: `stable_start_order`, a depth-first visit of the services and
-- their dependencies. `fuel` bounds the depth of the calls.
use aku_supervisor.Base.{
  ℕ, zero, suc, String, Option, none, some, List, [], ◌∷◌, ◌++◌, Result, ok, err, and_then, map_err,
  map_ok, length, if◌then◌else◌,
}
use aku_supervisor.Base.Maps.{OrdMap, lookup, insert}
use Prim.Native.String.{◌++◌ as text_append}
use aku_supervisor.Control.{ControlError, internal_error, missing_service}
use aku_supervisor.Registry.Types.{ServiceSnapshot}
use aku_supervisor.Planning.Sets.{contains, remove}

-- The failures of a visit, each with the error that the code returns for it. `unfinished` is the
-- model's own: the fuel has run out.
pub data PlanError : Type 0 where
  not_found : String → PlanError
  cycle_at : String → PlanError
  unfinished : PlanError

abbrev pub plan_control_error : PlanError → ControlError
plan_control_error (not_found id) = missing_service id
plan_control_error (cycle_at id) =
    internal_error (text_append "service dependency cycle reached at " id)
plan_control_error unfinished = internal_error "unfinished"

-- The three accumulators of the visit.
pub record Visit : Type 0 where
  pub visiting : List String
  pub visited : List String
  pub ordered : List String

module _ {J : Type 0} where
  -- `snapshots.iter().map(|s| (s.id, s)).collect::<BTreeMap<_, _>>()`: the last of equal ids wins.
  unfoldable pub collect_from :
      OrdMap (ServiceSnapshot J) → List (ServiceSnapshot J) → OrdMap (ServiceSnapshot J)
  collect_from services [] = services
  collect_from services (s ∷ ss) = collect_from (insert s.id s services) ss

-- The loops over dependencies and over requested services.
unfoldable pub visit_all :
    (String → Visit → Result PlanError Visit) → List String → Visit → Result PlanError Visit
visit_all visit [] v = ok v
visit_all visit (id ∷ ids) v = and_then (visit id v) (visit_all visit ids)

abbrev pub nothing_visited : Visit
nothing_visited = record { visiting = []; visited = []; ordered = [] }

abbrev pub enter : String → Visit → Visit
enter id v = record v { visiting = id ∷ v.visiting }

abbrev pub leave : String → Visit → Visit
leave id v = record {
  visiting = remove id v.visiting;
  visited = id ∷ v.visited;
  ordered = v.ordered ++ (id ∷ []);
}

module _ {J : Type 0} where
  -- The visit of a service that is not yet visited; `visit` is the call for its dependencies.
  unfoldable pub expand :
      (String → Visit → Result PlanError Visit)
      → Option (ServiceSnapshot J)
      → String
      → Visit
      → Result PlanError Visit
  expand visit none id v = err (not_found id)
  expand visit (some service) id v =
      if contains v.visiting id
      then err (cycle_at id)
      else and_then (visit_all visit service.depends_on (enter id v)) (λ u. ok (leave id u))

  unfoldable pub visit_start :
      ℕ → OrdMap (ServiceSnapshot J) → String → Visit → Result PlanError Visit
  visit_start zero services id v = err unfinished
  visit_start (suc fuel) services id v =
      if contains v.visited id
      then ok v
      else expand (visit_start fuel services) (lookup id services) id v

  -- One more call than there are services is deep enough.
  unfoldable pub plan_start : List (ServiceSnapshot J) → List String → Result PlanError Visit
  plan_start snapshots requested =
      let services = collect_from [] snapshots in
      visit_all (visit_start (suc (length services)) services) requested nothing_visited

  unfoldable pub stable_start_order :
      List (ServiceSnapshot J) → List String → Result ControlError (List String)
  stable_start_order snapshots requested =
      map_err plan_control_error (map_ok (λ v. v.ordered) (plan_start snapshots requested))
