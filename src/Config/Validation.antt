-- ===== src/Config/Validation.antt =====
-- src/adapters/config.rs: `validation_issues_with_filesystem` and the checks of launch readiness. A
-- `BTreeMap<u16, String>` or set that is only looked up is a list in the order of insertion.
use Prim.Native.String.{◌++◌ as text_append}
use aku_supervisor.Base.{
  ℕ, String, Bool, true, false, not, ◌||◌, Option, none, some, List, [], ◌∷◌, ◌++◌, ◌==◌,
  if◌then◌else◌, is_empty, str_eq, Result, ok, err,
}
use aku_supervisor.Base.Maps.{OrdMap, keys, lookup, insert}
use aku_supervisor.Config.Types.{
  ServiceConfig, SupervisorConfig, ConfigIssue, ConfigError, invalid, issue, Outside,
  config_version,
}
use aku_supervisor.Config.Texts.{is_blank, valid_service_id}
use aku_supervisor.Config.Checks.{report, validate_health, validate_startup_prerequisites}
use aku_supervisor.Config.Places.{
  validate_directory, validate_executable, validate_cooperative_actions, is_runtime_token_path,
}
use aku_supervisor.Config.Dependencies.{validate_service_dependencies}

-- What the loops over ports carry: the issues, this service's ports and all claimed ports.
pub record Claims : Type 0 where
  pub issues : List ConfigIssue
  pub local_ports : List ℕ
  pub claimed_ports : List (ℕ × String)

unfoldable pub has_port : ℕ → List ℕ → Bool
has_port port [] = false
has_port port (p ∷ ps) = p == port || has_port port ps

unfoldable pub owner_of : ℕ → List (ℕ × String) → Option String
owner_of port [] = none
owner_of port ((p, owner) ∷ rest) = if p == port then some owner else owner_of port rest

module _ {J : Type 0} (outside : Outside J) where
  module _ (service_id prefix : String) where
    abbrev pub claim : ℕ → Option String → Claims → Claims
    claim port none c = record {
      issues = c.issues;
      local_ports = port ∷ c.local_ports;
      claimed_ports = c.claimed_ports ++ ((port, service_id) ∷ []);
    }
    claim port (some owner) c = record {
      issues =
          c.issues
          ++ (issue (text_append prefix ".ports") "declared_port_conflict" (
                text_append
                  (text_append (text_append "port " (outside.display port))
                    " is already declared by ")
                  owner)
              ∷ []);
      local_ports = port ∷ c.local_ports;
      claimed_ports = c.claimed_ports;
    }

    abbrev pub noted : ConfigIssue → Claims → Claims
    noted found c = record {
      issues = c.issues ++ (found ∷ []);
      local_ports = c.local_ports;
      claimed_ports = c.claimed_ports;
    }

    unfoldable pub claim_port : ℕ → Claims → Claims
    claim_port port c =
        if port == 0
        then noted
            (issue (text_append prefix ".ports") "service_port_invalid"
              "declared ports must be non-zero")
            c
        else (if has_port port c.local_ports
            then noted
                (issue (text_append prefix ".ports") "service_port_duplicate" (
                  text_append (text_append "port " (outside.display port))
                    " is declared more than once"))
                c
            else claim port (owner_of port c.claimed_ports) c)

    unfoldable pub claim_ports : List ℕ → Claims → Claims
    claim_ports [] c = c
    claim_ports (port ∷ ports) c = claim_ports ports (claim_port port c)

  -- The checks of one service before its ports.
  unfoldable pub service_issues : Bool → String → String → ServiceConfig J → List ConfigIssue
  service_issues check_filesystem service_id prefix service =
      report (not (valid_service_id service_id)) (
        issue (text_append prefix ".id") "service_id_invalid"
          "service ID must contain lowercase ASCII letters, digits, or hyphens")
      ++ (report (is_blank service.label) (
            issue (text_append prefix ".label") "service_label_empty"
              "service label must not be empty")
          ++ (validate_directory outside service.cwd prefix check_filesystem
              ++ (validate_executable outside service.command prefix check_filesystem
                  ++ (report (service.shutdown_grace_ms == 0) (
                        issue (text_append prefix ".shutdownGraceMs") "shutdown_grace_invalid"
                          "shutdown grace must be greater than zero")
                      ++ (validate_health outside service.health prefix
                          ++ validate_startup_prerequisites outside service.startup_prerequisites
                              prefix)))))

  abbrev pub prefix_of : String → String
  prefix_of service_id = text_append "services." service_id

  -- One round of the loop over services.
  unfoldable pub validate_service : Bool → String → ServiceConfig J → Claims → Claims
  validate_service check_filesystem service_id service c =
      claim_ports service_id (prefix_of service_id) service.ports (record {
        issues =
            c.issues ++ service_issues check_filesystem service_id (prefix_of service_id) service;
        local_ports = [];
        claimed_ports = c.claimed_ports;
      })

  unfoldable pub validate_services : Bool → OrdMap (ServiceConfig J) → Claims → Claims
  validate_services check_filesystem [] c = c
  validate_services check_filesystem ((service_id, service) ∷ rest) c =
      validate_services check_filesystem rest
        (validate_service check_filesystem service_id service c)

  abbrev pub version_issues : SupervisorConfig J → List ConfigIssue
  version_issues config = report (not (config.version == config_version)) (
      issue "version" "version_unsupported" (
        text_append
          (text_append (text_append "expected version " (outside.display config_version)) ", got ")
          (outside.display config.version)))

  abbrev pub host_issues : SupervisorConfig J → List ConfigIssue
  host_issues config =
      report (not (str_eq config.control.host "127.0.0.1"))
        (issue "control.host" "control_host_not_loopback" "version 0 requires host 127.0.0.1")

  abbrev pub port_issues : SupervisorConfig J → List ConfigIssue
  port_issues config =
      report (config.control.port == 0)
        (issue "control.port" "control_port_invalid" "control port must be non-zero")

  abbrev pub token_issues : SupervisorConfig J → List ConfigIssue
  token_issues config = report (not (is_runtime_token_path outside config.control.token_file)) (
      issue "control.tokenFile" "token_path_outside_runtime"
        "token file must be a relative path beneath .runtime")

  abbrev pub emptiness_issues : SupervisorConfig J → List ConfigIssue
  emptiness_issues config =
      report (is_empty config.services)
        (issue "services" "services_empty" "at least one registered service is required")

  -- What is found before the loop over services.
  abbrev pub settings_issues : SupervisorConfig J → List ConfigIssue
  settings_issues config =
      (version_issues config ++ host_issues config)
      ++ (port_issues config
          ++ ((token_issues config
                ++ (emptiness_issues config
                    ++ validate_cooperative_actions outside config.cooperative_actions))
              ++ validate_service_dependencies config.services))

  abbrev pub starting_claims : SupervisorConfig J → Claims
  starting_claims config = record {
    issues = settings_issues config;
    local_ports = [];
    claimed_ports = (config.control.port, "control") ∷ [];
  }

  unfoldable pub validation_issues_with_filesystem : Bool → SupervisorConfig J → List ConfigIssue
  validation_issues_with_filesystem check_filesystem config =
      (validate_services check_filesystem config.services (starting_claims config)).issues

  abbrev pub refuse_issues : List ConfigIssue → Result ConfigError (Unit {0})
  refuse_issues [] = ok tt
  refuse_issues (found ∷ issues) = err (invalid (found ∷ issues))

  unfoldable pub validate : SupervisorConfig J → Result ConfigError (Unit {0})
  validate config = refuse_issues (validation_issues_with_filesystem true config)

  unfoldable pub validate_structure : SupervisorConfig J → Result ConfigError (Unit {0})
  validate_structure config = refuse_issues (validation_issues_with_filesystem false config)

  abbrev pub paths_of : String → Option (ServiceConfig J) → List ConfigIssue
  paths_of id none =
      issue (prefix_of id) "service_not_found" "service is not registered in the configuration" ∷ []
  paths_of id (some service) =
      validate_directory outside service.cwd (prefix_of id) true
      ++ validate_executable outside service.command (prefix_of id) true

  -- The loop over the distinct ids in ascending order, which are the keys of a map.
  unfoldable pub filesystem_issues : OrdMap (ServiceConfig J) → List String → List ConfigIssue
  filesystem_issues services [] = []
  filesystem_issues services (service_id ∷ ids) =
      paths_of service_id (lookup service_id services) ++ filesystem_issues services ids

  abbrev pub set_of : List String → OrdMap (Unit {0})
  set_of [] = []
  set_of (id ∷ ids) = insert id tt (set_of ids)

  unfoldable pub selected_service_filesystem_issues :
      SupervisorConfig J → List String → List ConfigIssue
  selected_service_filesystem_issues config service_ids =
      filesystem_issues config.services (keys (set_of service_ids))
