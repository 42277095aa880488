-- ===== src/Config/StartPlans.antt =====
-- src/adapters/config.rs: a configuration whose dependencies raise no issue has no cycle, so that every
-- start of its services can be planned (src/application/dependency_control.rs).
use aku_supervisor.Base.{
  ◌<◌, String, true, Option, none, some, is_some, List, [], ◌∷◌, All, ok, inl, inr, ◌≡◌, ◌≢◌, refl,
  subst,
}
use aku_supervisor.Base.Maps.{OrdMap, keys, lookup}
use aku_supervisor.Registry.Types.{ServiceSnapshot}
use aku_supervisor.Planning.Sets.{contains}
use aku_supervisor.Planning.StartOrder.{stable_start_order, collect_from}
use aku_supervisor.Planning.Acyclic.{Registered}
use aku_supervisor.Planning.Order.{stable_start_order_total}
use aku_supervisor.Config.Types.{ServiceConfig, SupervisorConfig, Outside}
use aku_supervisor.Config.Dependencies.{
  Visited, unfinished, search, nothing_marked, dependency_cycle, cycle_issue, all_dependency_issues,
  validate_service_dependencies,
}
use aku_supervisor.Config.Search.{Known, Layered, Fine}
use aku_supervisor.Config.Ports.{settings-dependencies, accepted-settings}
use aku_supervisor.Config.Validation.{validate_structure}
use aku_supervisor.Config.PortLists.{append-nil-both}
use aku_supervisor.Config.Ranks.{rank_of, Lower, Layered-Lower}
use aku_supervisor.Config.Acyclic.{search-Fine, acyclic, all_dependencies-Known}

module _ {J : Type 0} (services : OrdMap (ServiceConfig J)) where
  module _ (done : List String) (layered : Layered services done)
      (all_done : (id : String) → Known services id → contains done id ≡ true) where
    below :
        (id : String) (ds : List String)
        → All (Known services) ds
        → All (Lower services done id) ds
        → All (λ d. Known services d × (rank_of done d < rank_of done id)) ds
    below id [] known lower = tt
    below id (d ∷ ds) known lower = (
      elim lower.0 [ inl free ↦ absurd (cc (free, known.0)) | inr (c, less) ↦ (known.0, less) ],
      below id ds known.1 lower.1,
    )

    depends-below :
        (id : String) (service : ServiceConfig J)
        → validate_service_dependencies services ≡ []
        → lookup id services ≡ some service
        → All (λ d. Known services d × (rank_of done d < rank_of done id)) service.depends_on
    unfolding validate_service_dependencies
    depends-below id service e found =
        let (first, _) = append-nil-both (all_dependency_issues services services) _ e in
        let lower = Layered-Lower services done id layered (all_done id (rw found refl)) in
        below id service.depends_on
          (all_dependencies-Known services services id service first found) (rw found at lower)

  no_cycle : (r : Option (List String)) → cycle_issue r ≡ [] → r ≡ none
  no_cycle none e = refl
  no_cycle (some c) e = absurd (cc e)

  carried :
      (collected : OrdMap (ServiceSnapshot J)) (done : List String) (id : String) (ds : List String)
      → ((x : String) → Known services x → Registered collected x)
      → All (λ d. Known services d × (rank_of done d < rank_of done id)) ds
      → All (λ d. Registered collected d × (rank_of done d < rank_of done id)) ds
  carried collected done id [] there all = tt
  carried collected done id (d ∷ ds) there all =
      ((there d all.0.0, all.0.1), carried collected done id ds there all.1)

  validate-start_order :
      (snapshots : List (ServiceSnapshot J)) (requested : List String)
      → validate_service_dependencies services ≡ []
      → ((id : String) → Known services id → Registered (collect_from [] snapshots) id)
      → ((id : String) (snapshot : ServiceSnapshot J)
          → lookup id (collect_from [] snapshots) ≡ some snapshot
          → (service : ServiceConfig J) × (lookup id services ≡ some service)
            × (service.depends_on ≡ snapshot.depends_on))
      → All (Registered (collect_from [] snapshots)) requested
      → (order : List String) × (stable_start_order snapshots requested ≡ ok order)
  unfolding validate_service_dependencies
  validate-start_order snapshots requested e there same known =
      let collected = collect_from [] snapshots in
      let (_, none_found) = append-nil-both (all_dependency_issues services services) _ e in
      let (done, layered, all_done) =
        acyclic services (no_cycle (dependency_cycle services) none_found) in
      stable_start_order_total snapshots requested (rank_of done)
        (λ id snapshot found.
          let (service, configured, deps) = same id snapshot found in
          subst
            (λ (ds : List String).
              All (λ d. Registered collected d × (rank_of done d < rank_of done id)) ds)
            deps
            (carried collected done id service.depends_on there
              (depends-below done layered all_done id service e configured)))
        known

-- If the structure of a configuration is accepted, and the registry's snapshots are of its services
-- with the dependencies that it declares, then every start of registered services has a plan.
pub validate_structure-stable_start_order :
    {J : Type 0} (outside : Outside J) (config : SupervisorConfig J)
    (snapshots : List (ServiceSnapshot J)) (requested : List String)
    → validate_structure outside config ≡ ok tt
    → ((id : String)
        → is_some (lookup id config.services) ≡ true
        → Registered (collect_from [] snapshots) id)
    → ((id : String) (snapshot : ServiceSnapshot J)
        → lookup id (collect_from [] snapshots) ≡ some snapshot
        → (service : ServiceConfig J) × (lookup id config.services ≡ some service)
          × (service.depends_on ≡ snapshot.depends_on))
    → All (Registered (collect_from [] snapshots)) requested
    → (order : List String) × (stable_start_order snapshots requested ≡ ok order)
validate_structure-stable_start_order outside config snapshots requested e there same known =
    validate-start_order config.services snapshots requested
      (settings-dependencies outside config (accepted-settings outside config e)) there same known

-- The search for a cycle never runs out of the fuel that it is given.
pub search_finishes :
    {J : Type 0} (services : OrdMap (ServiceConfig J)) → search services ≢ unfinished
search_finishes services e = go (search services) (search-Fine services) e
  where
    go : (r : Visited) → Fine services nothing_marked [] (keys services) r → r ≢ unfinished
    go _ (Fine.cleared m done g all) e = cc e
    go _ (Fine.cycled c) e = cc e
