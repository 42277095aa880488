-- ===== src/Config/Ports.antt =====
-- src/adapters/config.rs: what a configuration without issues keeps apart.
use aku_supervisor.Base.{
  ℕ, String, Bool, false, List, [], ◌∷◌, ◌++◌, ◌==◌, Bool-cases, Option-cases, inl, inr, ◌≡◌, refl,
  sym, subst, arith, ok, some, str_eq, str_eq_iff, some-injective,
}
use mathlib.Core.List.{append-nil}
use aku_supervisor.Base.Maps.{OrdMap, lookup}
use aku_supervisor.Config.Types.{ServiceConfig, SupervisorConfig, ConfigIssue, Outside}
use aku_supervisor.Config.Places.{validate_cooperative_actions}
use aku_supervisor.Config.Dependencies.{validate_service_dependencies}
use aku_supervisor.Config.Validation.{
  Claims, service_issues, has_port, owner_of, claim_port, claim_ports, prefix_of, validate_service,
  validate_services, settings_issues, version_issues, host_issues, port_issues, token_issues,
  emptiness_issues, starting_claims, validation_issues_with_filesystem, refuse_issues,
  validate_structure,
}
use aku_supervisor.Config.PortLists.{
  ports_of, all_ports, Apart, append-Apart, ports_of-append, owner_of-has_port, append-nil-both,
  report-none, Clean-trans, Clean,
}

module _ {J : Type 0} (outside : Outside J) where
  module _ (id prefix : String) where
    claim_port-Clean :
        (port : ℕ) (c : Claims)
        → (claim_port outside id prefix port c).issues ≡ []
        → Clean (port ∷ []) c (claim_port outside id prefix port c)
    unfolding claim_port
    claim_port-Clean port c e = elim (Bool-cases (port == 0)) [
      | inl nought ↦ absurd (cc ((append-nil-both c.issues _ (rw nought at e)).1))
      | inr nonzero ↦ elim (Bool-cases (has_port port c.local_ports)) [
        | inl again ↦ absurd (cc ((append-nil-both c.issues _ (rw (nonzero, again) at e)).1))
        | inr fresh ↦ elim (Option-cases (owner_of port c.claimed_ports)) [
          | inr (owner, taken) ↦
              absurd (cc ((append-nil-both c.issues _ (rw (nonzero, fresh, taken) at e)).1))
          | inl free ↦
              let grown = ports_of-append c.claimed_ports port id in
              rw (nonzero, fresh, free)
                (record {
                  before = rw (nonzero, fresh, free) at e;
                  claimed = grown;
                  apart = λ a. subst Apart (sym grown) (
                      append-Apart port (ports_of c.claimed_ports) nonzero
                        (owner_of-has_port port c.claimed_ports free) a);
                })
        ]
      ]
    ]

    claim_ports-Clean :
        (ports : List ℕ) (c : Claims)
        → (claim_ports outside id prefix ports c).issues ≡ []
        → Clean ports c (claim_ports outside id prefix ports c)
    unfolding claim_ports
    claim_ports-Clean [] c e = record {
      before = e;
      claimed = sym (append-nil (ports_of c.claimed_ports));
      apart = λ a. a;
    }
    claim_ports-Clean (port ∷ ports) c e =
        let next = claim_port outside id prefix port c in
        let later = claim_ports-Clean ports next e in
        Clean-trans (port ∷ []) ports c next (claim_ports outside id prefix ports next)
          (claim_port-Clean port c later.before) later

  validate_service-Clean :
      (check : Bool) (id : String) (service : ServiceConfig J) (c : Claims)
      → (validate_service outside check id service c).issues ≡ []
      → Clean service.ports c (validate_service outside check id service c)
  unfolding validate_service
  validate_service-Clean check id service c e =
      let clean = claim_ports-Clean id (prefix_of outside id) service.ports _ e in
      record {
        before = (append-nil-both c.issues _ clean.before).0;
        claimed = clean.claimed;
        apart = clean.apart;
      }

  validate_services-Clean :
      (check : Bool) (services : OrdMap (ServiceConfig J)) (c : Claims)
      → (validate_services outside check services c).issues ≡ []
      → Clean (all_ports services) c (validate_services outside check services c)
  unfolding validate_services
  validate_services-Clean check [] c e = record {
    before = e;
    claimed = sym (append-nil (ports_of c.claimed_ports));
    apart = λ a. a;
  }
  validate_services-Clean check ((id, service) ∷ rest) c e =
      let next = validate_service outside check id service c in
      let later = validate_services-Clean check rest next e in
      Clean-trans service.ports (all_ports rest) c next (validate_services outside check rest next)
        (validate_service-Clean check id service c later.before) later

  refuse_issues-ok :
      (issues : List ConfigIssue) → refuse_issues outside issues ≡ ok tt → issues ≡ []
  refuse_issues-ok [] e = refl
  refuse_issues-ok (found ∷ issues) e = absurd (cc e)

  accepted-Clean :
      (config : SupervisorConfig J)
      → validate_structure outside config ≡ ok tt
      → Clean
          (all_ports config.services)
          (starting_claims outside config)
          (validate_services outside false config.services (starting_claims outside config))
  unfolding validate_structure validation_issues_with_filesystem
  accepted-Clean config e =
      validate_services-Clean false config.services (starting_claims outside config)
        (refuse_issues-ok _ e)

  -- A service of the configuration has no issues of its own.
  validate_services-lookup :
      (check : Bool) (services : OrdMap (ServiceConfig J)) (c : Claims) (id : String)
      (service : ServiceConfig J)
      → (validate_services outside check services c).issues ≡ []
      → lookup id services ≡ some service
      → service_issues outside check id (prefix_of outside id) service ≡ []
  unfolding validate_services validate_service lookup
  validate_services-lookup check [] c id service e found = absurd (cc found)
  validate_services-lookup check ((k, other) ∷ rest) c id service e found =
      let next = validate_service outside check k other c in
      elim (Bool-cases (str_eq k id)) [
        | inr miss ↦ validate_services-lookup check rest next id service e (rw miss at found)
        | inl hit ↦
            let later = validate_services-Clean check rest next e in
            let clean = claim_ports-Clean k (prefix_of outside k) other.ports _ later.before in
            let here : service_issues outside check k (prefix_of outside k) other ≡ [] =
              (append-nil-both c.issues _ clean.before).1 in
            let same : other ≡ service = some-injective (rw hit at found) in
            subst
              (λ (s : ServiceConfig J).
                service_issues outside check id (prefix_of outside id) s ≡ [])
              same
              (subst
                (λ (j : String). service_issues outside check j (prefix_of outside j) other ≡ [])
                ((str_eq_iff k id).0 hit) here)
      ]

  pub accepted-service :
      (config : SupervisorConfig J) (id : String) (service : ServiceConfig J)
      → validate_structure outside config ≡ ok tt
      → lookup id config.services ≡ some service
      → service_issues outside false id (prefix_of outside id) service ≡ []
  unfolding validate_structure validation_issues_with_filesystem
  accepted-service config id service e found =
      validate_services-lookup false config.services (starting_claims outside config) id service
        (refuse_issues-ok _ e) found

  pub accepted-settings :
      (config : SupervisorConfig J)
      → validate_structure outside config ≡ ok tt
      → settings_issues outside config ≡ []
  accepted-settings config e = (accepted-Clean config e).before

  after_port : SupervisorConfig J → List ConfigIssue
  after_port config =
      (token_issues outside config
        ++ (emptiness_issues outside config
            ++ validate_cooperative_actions outside config.cooperative_actions))
      ++ validate_service_dependencies config.services

  settings-parts :
      (config : SupervisorConfig J)
      → settings_issues outside config ≡ []
      → (port_issues outside config ≡ []) × (after_port config ≡ [])
  unfolding after_port
  settings-parts config e = append-nil-both (port_issues outside config) (after_port config) (
      (append-nil-both (version_issues outside config ++ host_issues outside config)
        (port_issues outside config ++ after_port config) e).1)

  control_port-Apart :
      (config : SupervisorConfig J)
      → settings_issues outside config ≡ []
      → Apart (config.control.port ∷ [])
  unfolding has_port
  control_port-Apart config e =
      let nonzero = report-none (config.control.port == 0) _ (settings-parts config e).0 in
      ((refl, tt), ground (arith, nonzero))

  pub settings-dependencies :
      (config : SupervisorConfig J)
      → settings_issues outside config ≡ []
      → validate_service_dependencies config.services ≡ []
  unfolding after_port
  settings-dependencies config e =
      (append-nil-both
        (token_issues outside config
          ++ (emptiness_issues outside config
              ++ validate_cooperative_actions outside config.cooperative_actions))
        (validate_service_dependencies config.services) (settings-parts config e).1).1

  -- In a configuration whose structure is accepted the control port and the ports that the services
  -- declare all differ, and none is 0.
  pub validate_structure-Apart :
      (config : SupervisorConfig J)
      → validate_structure outside config ≡ ok tt
      → Apart (config.control.port ∷ all_ports config.services)
  validate_structure-Apart config e =
      let clean = accepted-Clean config e in
      subst Apart clean.claimed
        (clean.apart (control_port-Apart config (accepted-settings config e)))
