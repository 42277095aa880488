-- ===== src/Registry/Topology.antt =====
-- src/application/service_registry.rs: the registry as a whole, and the replacement of its services.
pub mod Rebuilt
pub mod Retained
use aku_supervisor.Base.{
  ℕ, String, Bool, true, false, not, ◌&&◌, ◌||◌, Option, none, some, List, [], ◌∷◌, ◌++◌, Result,
  ok, err, map_err, map_ok, and_then, is_empty, if◌then◌else◌,
}
use aku_supervisor.Base.Maps.{OrdMap, keys, lookup, insert, remove}
use aku_supervisor.Ports.{Backend}
use aku_supervisor.Runtime.{has_process}
use aku_supervisor.Runtime.Outcomes.{ServiceRuntimeError}
use aku_supervisor.Registry.Supervision.{wants_running}
use aku_supervisor.Registry.Types.{ServiceRegistration, ServiceRefresh, RegistryError}
use aku_supervisor.Registry.Entry
use aku_supervisor.Registry.Entry.{ServiceEntry, Entry, Error, Op}
use aku_supervisor.Registry.Operations.{preflight_entry}
use aku_supervisor.Registry.Refresh.{refresh}

-- `poisoned` is the poison flag of the read-write lock.
pub record Registry (J P : Type 0) : Type 0 where
  pub services : OrdMap (ServiceEntry J P)
  pub poisoned : Bool

pub record RegistryReconcileOutcome : Type 0 where
  pub added : List String
  pub updated : List String
  pub removed : List String

abbrev pub changed : RegistryReconcileOutcome → Bool
changed outcome =
    not (is_empty outcome.added && (is_empty outcome.updated && is_empty outcome.removed))

-- Without the variant `Observation`, which nothing constructs.
pub data RegistryReconcileError : Type 0 where
  duplicate_service_id : String → RegistryReconcileError
  service_active : String → RegistryReconcileError
  lock_poisoned : RegistryReconcileError
  internal_state : RegistryReconcileError

abbrev pub map_process_error : ServiceRuntimeError (Unit {0}) → RegistryReconcileError
map_process_error ServiceRuntimeError.poisoned = RegistryReconcileError.lock_poisoned
map_process_error _ = RegistryReconcileError.internal_state

abbrev pub idle_only : String → Bool → Result RegistryReconcileError (Unit {0})
idle_only id true = err (service_active id)
idle_only id false = ok tt

abbrev pub vacant : {V : Type 0} → String → V → Option V → OrdMap V → Result String (OrdMap V)
vacant id v none m = ok (insert id v m)
vacant id v (some _) m = err id

pub record Rebuild (J P : Type 0) : Type 0 where
  pub current : OrdMap (ServiceEntry J P)
  pub next : OrdMap (ServiceEntry J P)
  pub added : List String
  pub updated : List String

module _ {J : Type 0} where
  -- Each registration under its id; an id that is there already is the error.
  unfoldable pub collect :
      List (ServiceRegistration J)
      → OrdMap (ServiceRegistration J)
      → Result String (OrdMap (ServiceRegistration J))
  collect [] desired = ok desired
  collect (r ∷ rs) desired = and_then (vacant r.id r (lookup r.id desired) desired) (collect rs)

module _ {J P : Type 0} where
  unfoldable pub build :
      List (ServiceRegistration J)
      → OrdMap (ServiceEntry J P)
      → Result String (OrdMap (ServiceEntry J P))
  build [] services = ok services
  build (r ∷ rs) services =
      and_then (vacant r.id (Entry.new r) (lookup r.id services) services) (build rs)

  -- `new_with_restart_stability_window`
  abbrev pub new : List (ServiceRegistration J) → Result String (Registry J P)
  new registrations =
      map_ok (λ services. record { services = services; poisoned = false }) (build registrations [])

  unfoldable pub service_ids : Registry J P → List String
  service_ids registry = keys registry.services

  abbrev pub owns_process : ServiceEntry J P → Result RegistryReconcileError Bool
  owns_process entry = map_err map_process_error (has_process (entry.runtime, tt {0})).1

  -- Only an entry that is stopped and owns no process may be changed or removed.
  unfoldable pub may_replace : String → ServiceEntry J P → Result RegistryReconcileError (Unit {0})
  unfolding has_process
  may_replace id entry =
      if entry.poisoned.supervision
      then err RegistryReconcileError.lock_poisoned
      else and_then (owns_process entry)
          (λ has. idle_only id (wants_running entry.supervision.desired_state || has))

  -- `PartialEq` of `ServiceRegistration`, which is derived.
  module _ (same : ServiceRegistration J → ServiceRegistration J → Bool) where
    abbrev pub is_retained : Option (ServiceRegistration J) → ServiceEntry J P → Bool
    is_retained none entry = false
    is_retained (some registration) entry = same registration entry.registration

    -- The loop of checks.
    unfoldable pub check_replaced :
        OrdMap (ServiceRegistration J)
        → OrdMap (ServiceEntry J P)
        → Result RegistryReconcileError (Unit {0})
    check_replaced desired [] = ok tt
    check_replaced desired ((id, entry) ∷ rest) =
        let more = check_replaced desired rest in
        if is_retained (lookup id desired) entry
        then more
        else and_then (may_replace id entry) (λ _. more)

    abbrev pub place :
        String → ServiceRegistration J → Option (ServiceEntry J P) → Rebuild J P → Rebuild J P
    place id registration none b = record b {
      current = remove id b.current;
      next = insert id (Entry.new registration) b.next;
      added = b.added ++ (id ∷ []);
    }
    place id registration (some entry) b =
        if same registration entry.registration
        then record b { current = remove id b.current; next = insert id entry b.next }
        else record b {
          current = remove id b.current;
          next = insert id (Entry.new registration) b.next;
          updated = b.updated ++ (id ∷ []);
        }

    unfoldable pub rebuild : OrdMap (ServiceRegistration J) → Rebuild J P → Rebuild J P
    rebuild [] b = b
    rebuild ((id, registration) ∷ rest) b =
        rebuild rest (place id registration (lookup id b.current) b)

    abbrev pub starting : OrdMap (ServiceEntry J P) → Rebuild J P
    starting services = record { current = services; next = []; added = []; updated = [] }

    abbrev pub rebuilt :
        OrdMap (ServiceRegistration J)
        → Registry J P
        → Registry J P × Result RegistryReconcileError RegistryReconcileOutcome
    rebuilt desired registry =
        let b = rebuild desired (starting registry.services) in
        (
          record registry { services = b.next },
          ok (record { added = b.added; updated = b.updated; removed = keys b.current }),
        )

    abbrev pub answer :
        OrdMap (ServiceRegistration J)
        → Registry J P
        → Result RegistryReconcileError (Unit {0})
        → Registry J P × Result RegistryReconcileError RegistryReconcileOutcome
    answer desired registry (ok _) = rebuilt desired registry
    answer desired registry (err e) = (registry, err e)

    abbrev pub with_desired :
        Registry J P
        → Result String (OrdMap (ServiceRegistration J))
        → Registry J P × Result RegistryReconcileError RegistryReconcileOutcome
    with_desired registry (err id) = (registry, err (duplicate_service_id id))
    with_desired registry (ok desired) =
        if registry.poisoned
        then (registry, err RegistryReconcileError.lock_poisoned)
        else answer desired registry (check_replaced desired registry.services)

    unfoldable pub reconcile_registrations :
        List (ServiceRegistration J)
        → Registry J P
        → Registry J P × Result RegistryReconcileError RegistryReconcileOutcome
    reconcile_registrations registrations registry =
        with_desired registry (collect registrations [])
