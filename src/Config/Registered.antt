-- ===== src/Config/Registered.antt =====
-- src/adapters/config.rs: the registry (src/application/service_registry.rs) that is built from an
-- accepted configuration.
use aku_supervisor.Base.{
  String, true, false, Option, none, some, is_some, [], ◌∷◌, ok, str_eq, str_eq_iff, str_eq_refl,
  Bool-cases, Option-cases, inl, inr, ◌≡◌, refl, ◌∙◌, ap, subst, arith,
}
use aku_supervisor.Base.Maps.{OrdMap, lookup, insert, lookup-insert}
use aku_supervisor.Base.Keys.{Unique}
use aku_supervisor.Domain.Lifecycle.{DesiredState, LifecycleState}
use aku_supervisor.Registry.Entry
use aku_supervisor.Registry.Entry.{ServiceEntry}
use aku_supervisor.Registry.Topology
use aku_supervisor.Registry.Topology.{Registry, build}
use aku_supervisor.Config.Types.{ServiceConfig, SupervisorConfig, Outside}
use aku_supervisor.Config.Limits.{service_issues-IsLimited}
use aku_supervisor.Config.Ports.{accepted-service}
use aku_supervisor.Config.Registrations.{
  registration_with, registrations_of, logged_launch, service_registrations_with_logs,
}
use aku_supervisor.Config.Validation.{prefix_of, validate_structure}
use aku_supervisor.Config.Mirrors.{Registers, registration-Registers}

module _ {J : Type 0} (outside : Outside J) (directory : String) where
  module _ {P : Type 0} where
    -- The entry of a service before any request: it is stopped and owns no process.
    pub record Starts (id : String) (service : ServiceConfig J) (entry : ServiceEntry J P)
        : Type 0 where
      pub registers : Registers outside directory id service entry.registration
      pub lifecycle : entry.runtime.lifecycle ≡ LifecycleState.stopped
      pub no_process : entry.runtime.process ≡ none
      pub desired : entry.supervision.desired_state ≡ DesiredState.stopped

    -- The same ids are configured and held.
    abbrev pub Holds : String → Option (ServiceConfig J) → Option (ServiceEntry J P) → Type 0
    Holds id none none = Unit
    Holds id none (some entry) = ⊥
    Holds id (some service) none = ⊥
    Holds id (some service) (some entry) = Starts id service entry

    built :
        String → Option (ServiceConfig J) → Option (ServiceEntry J P) → Option (ServiceEntry J P)
    built id none there = there
    built id (some service) there =
        some (Entry.new (registration_with (logged_launch outside directory id service) id service))

    registrations_of-build :
        (services : OrdMap (ServiceConfig J)) (m : OrdMap (ServiceEntry J P))
        → Unique services
        → ((id : String) → is_some (lookup id services) ≡ true → lookup id m ≡ none)
        → (all : OrdMap (ServiceEntry J P)) × (build
              (registrations_of (logged_launch outside directory) services)
              m
            ≡ ok all)
          × ((id : String) → lookup id all ≡ built id (lookup id services) (lookup id m))
    unfolding build registrations_of lookup built
    registrations_of-build [] m unique free = (m, refl, λ id. refl)
    registrations_of-build ((k, service) ∷ rest) m unique free =
        let r = registration_with (logged_launch outside directory k service) k service in
        let new = free k (rw (str_eq_refl k) refl) in
        let (all, collected, same) =
          registrations_of-build rest (insert k (Entry.new r) m) unique.1 (λ id known. ground (
            arith,
            lookup-insert k id (Entry.new r) m,
            str_eq_iff k id,
            unique.0,
            known,
            free id,
          )) in
        (
          all,
          rw new collected,
          λ id. elim (Bool-cases (str_eq k id)) [
            | inr miss ↦ rw miss (
                same id
                ∙ ap (built id (lookup id rest))
                    (rw (lookup-insert k id (Entry.new r) m, miss) refl))
            | inl hit ↦ rw hit (
                subst (λ (z : String). lookup z all ≡ built z (some service) none)
                  ((str_eq_iff k id).0 hit)
                  (rw (same k, unique.0, lookup-insert k k (Entry.new r) m, str_eq_refl k) refl))
          ],
        )

    new-Starts :
        (config : SupervisorConfig J) (id : String) (service : ServiceConfig J)
        → validate_structure outside config ≡ ok tt
        → lookup id config.services ≡ some service
        → Starts id service
            (Entry.new (registration_with (logged_launch outside directory id service) id service))
    unfolding Entry.new
    new-Starts config id service e found = record {
      registers = registration-Registers outside directory id service (
          service_issues-IsLimited outside false id (prefix_of outside id) service
            (accepted-service outside config id service e found));
      lifecycle = refl;
      no_process = refl;
      desired = refl;
    }

    -- For a configuration whose structure is accepted and whose service ids differ, the registry is
    -- built. It has exactly the configured services, each stopped and without a process, under the
    -- registration that is configured for it; its grace time is not 0, its health check, where it is
    -- not of the process alone, and its checks before a start have timeouts that are not 0 and not
    -- above their startup deadlines.
    pub validate_structure-Holds :
        (config : SupervisorConfig J)
        → Unique config.services
        → validate_structure outside config ≡ ok tt
        → (registry : Registry J P) × (Topology.new
              (service_registrations_with_logs outside config directory)
            ≡ ok registry)
          × ((id : String) → Holds id (lookup id config.services) (lookup id registry.services))
    unfolding service_registrations_with_logs lookup built
    validate_structure-Holds config unique e =
        let (all, computed, same) =
          registrations_of-build config.services [] unique (λ id known. refl) in
        (
          record { services = all; poisoned = false },
          rw computed refl,
          λ id. elim (Option-cases (lookup id config.services)) [
            | inl missing ↦ rw (same id, missing) tt
            | inr (service, found) ↦ rw (same id, found) (new-Starts config id service e found)
          ],
        )
