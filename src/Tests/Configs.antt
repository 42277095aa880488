-- ===== src/Tests/Configs.antt =====
-- The theorems on configurations and command lines.
use aku_supervisor.Base.{
  ℕ, String, true, false, none, some, is_some, List, [], ◌∷◌, ◌++◌, ok, str_eq, str_lt, Bool-cases,
  inl, inr, ◌≡◌, ◌≢◌, ◌↔◌, refl, ap, arith,
}
use aku_supervisor.Base.Maps.{OrdMap, lookup, insert}
use aku_supervisor.Base.Keys.{Unique}
use aku_supervisor.CommandLine.Quoting.{build_command_line, contains_nul}
use aku_supervisor.CommandLine.Splitting.{outside, split, split_line}
use aku_supervisor.CommandLine.ProgramName.{ends_in_backslash}
use aku_supervisor.CommandLine.RoundTrip.{build_command_line-split, build_command_line-split_line}
use aku_supervisor.Registry.Topology.{Registry}
use aku_supervisor.Registry.Types.{ServiceSnapshot}
use aku_supervisor.Planning.Acyclic.{Registered}
use aku_supervisor.Planning.StartOrder.{stable_start_order, collect_from}
use aku_supervisor.Config.Types.{
  Component, ConsoleEvents, HealthCheck, RestartPolicy, ServiceConfig, SupervisorConfig, Outside,
}
use aku_supervisor.Config.Texts.{
  codes, strip_prefix, valid_json_pointer, all_id_bytes, all_whitespace, valid_service_id,
}
use aku_supervisor.Config.Checks.{
  report, seen, prerequisites_from, validate_health, validate_startup_prerequisites,
  validate_transport_deadlines,
}
use aku_supervisor.Config.Places.{
  is_runtime_token_path, validate_cooperative_actions, validate_directory, validate_executable,
}
use aku_supervisor.Domain.Reason.{is_whitespace}
use aku_supervisor.Config.Pointers.{written, valid_json_pointer_iff}
use aku_supervisor.Config.PortLists.{Apart, all_ports}
use aku_supervisor.Config.Dependencies.{
  search, unfinished, validate_service_dependencies, all_dependency_issues, dependency_issues,
  dependency_cycle, visit, visit_keys, visit_registered, pop,
}
use aku_supervisor.Config.Validation.{
  validate_structure, validation_issues_with_filesystem, validate_services, validate_service,
  claim_ports, claim_port, has_port, owner_of, service_issues,
}
use aku_supervisor.Config.Ports.{validate_structure-Apart}
use aku_supervisor.Config.Registrations.{service_registrations_with_logs}
use aku_supervisor.Registry.Topology
use aku_supervisor.Config.Registered.{Holds, validate_structure-Holds}
use aku_supervisor.Config.StartPlans.{validate_structure-stable_start_order, search_finishes}
use aku_supervisor.Tests.Machines.{snapshot_of}

-- A platform on which absolute paths begin with a slash and nothing exists.
abbrev platform : Outside String
platform = record {
  is_absolute = λ path. is_some (strip_prefix "/" path);
  is_dir = λ path. false;
  is_file = λ path. false;
  components = λ path. Component.normal ".runtime" ∷ Component.normal path ∷ [];
  join = λ directory name. name;
  loopback_ip = λ host. str_eq host "127.0.0.1";
  loopback_socket = λ host. str_eq host "127.0.0.1:80";
  display = λ n. "n";
  is_array = λ value. false;
  is_object = λ value. false;
}

abbrev service : List String → List ℕ → ServiceConfig String
service depends_on ports = record {
  label = "a service";
  cwd = "/srv";
  command = "/srv/run";
  args = [];
  environment = [];
  depends_on = depends_on;
  startup_prerequisites = [];
  health = HealthCheck.tcp_connect "127.0.0.1" 80 100 1000;
  ports = ports;
  restart_policy = RestartPolicy.on_failure;
  shutdown_grace_ms = 1000;
}

abbrev services : OrdMap (ServiceConfig String)
services = ("api", service [] (8001 ∷ 8002 ∷ [])) ∷ ("web", service ("api" ∷ []) (8003 ∷ [])) ∷ []

abbrev config : SupervisorConfig String
config = record {
  version = 2;
  control = record {
    host = "127.0.0.1";
    port = 9000;
    token_file = "token";
    mcp = record { enabled = false; allowed_origins = [] };
  };
  observability = record { console_events = ConsoleEvents.lifecycle };
  cooperative_actions = record { chrome_extension_reload = none };
  services = services;
}

config_accepted : validate_structure platform config ≡ ok tt
unfolding validate_structure validation_issues_with_filesystem validate_services validate_service
    claim_ports claim_port has_port owner_of report str_eq is_runtime_token_path seen insert str_lt
    validate_cooperative_actions validate_service_dependencies all_dependency_issues
    dependency_issues lookup prerequisites_from validate_health validate_startup_prerequisites
    validate_transport_deadlines dependency_cycle visit visit_keys visit_registered pop
    validate_directory validate_executable all_id_bytes all_whitespace valid_service_id
    service_issues is_whitespace
config_accepted = refl

build_command_line-split_example :
    (line : List ℕ) × (build_command_line (97 ∷ 32 ∷ []) ((98 ∷ 32 ∷ 92 ∷ []) ∷ [] ∷ (34 ∷ []) ∷ [])
      ≡ ok (line ++ (0 ∷ [])))
    × (split outside 0 none line ≡ (97 ∷ 32 ∷ []) ∷ (98 ∷ 32 ∷ 92 ∷ []) ∷ [] ∷ (34 ∷ []) ∷ [])
unfolding contains_nul
build_command_line-split_example =
    build_command_line-split (97 ∷ 32 ∷ []) ((98 ∷ 32 ∷ 92 ∷ []) ∷ [] ∷ (34 ∷ []) ∷ []) refl
      (refl, (refl, (refl, tt)))

build_command_line-split_line_example :
    (line : List ℕ) × (build_command_line
        (97 ∷ 92 ∷ 32 ∷ [])
        ((98 ∷ 32 ∷ 92 ∷ []) ∷ [] ∷ (34 ∷ []) ∷ [])
      ≡ ok (line ++ (0 ∷ [])))
    × (split_line line ≡ (97 ∷ 92 ∷ 32 ∷ [], (98 ∷ 32 ∷ 92 ∷ []) ∷ [] ∷ (34 ∷ []) ∷ []))
unfolding contains_nul ends_in_backslash
build_command_line-split_line_example =
    build_command_line-split_line (97 ∷ 92 ∷ 32 ∷ []) ((98 ∷ 32 ∷ 92 ∷ []) ∷ [] ∷ (34 ∷ []) ∷ [])
      refl (refl, (refl, (refl, tt))) ((refl, (refl, (refl, tt))), refl)

valid_json_pointer_iff_example :
    (valid_json_pointer "/a~1b" ≡ true) ↔ (ts : List (List ℕ)) × (codes "/a~1b" ≡ written ts)
valid_json_pointer_iff_example = valid_json_pointer_iff "/a~1b"

validate_structure-Apart_example : Apart (9000 ∷ all_ports services)
validate_structure-Apart_example = validate_structure-Apart platform config config_accepted

search_finishes_example : search services ≢ unfinished
search_finishes_example = search_finishes services

services-Unique : Unique services
unfolding lookup str_eq
services-Unique = (refl, (refl, tt))

validate_structure-Holds_example :
    (registry : Registry String ℕ) × (Topology.new
        (service_registrations_with_logs platform config "logs")
      ≡ ok registry)
    × ((id : String) → Holds platform "logs" id (lookup id services) (lookup id registry.services))
validate_structure-Holds_example =
    validate_structure-Holds platform "logs" config services-Unique config_accepted

abbrev snapshots : List (ServiceSnapshot String)
snapshots = snapshot_of "web" ("api" ∷ []) ∷ snapshot_of "api" [] ∷ []

snapshots-Registered :
    (id : String) → is_some (lookup id services) ≡ true → Registered (collect_from [] snapshots) id
unfolding collect_from lookup insert str_eq str_lt
snapshots-Registered id known = ground arith

snapshots-configured :
    (id : String) (snapshot : ServiceSnapshot String)
    → lookup id (collect_from [] snapshots) ≡ some snapshot
    → (configured : ServiceConfig String) × (lookup id services ≡ some configured)
      × (configured.depends_on ≡ snapshot.depends_on)
unfolding collect_from lookup insert str_eq str_lt
snapshots-configured id snapshot found = elim (Bool-cases (str_eq "api" id)) [
  | inl api ↦
      let e : snapshot_of "api" [] ≡ snapshot = cc (rw api at found) in
      (
        service [] (8001 ∷ 8002 ∷ []),
        rw api refl,
        ap (λ (s : ServiceSnapshot String). s.depends_on) e,
      )
  | inr other ↦ elim (Bool-cases (str_eq "web" id)) [
    | inl web ↦
        let e : snapshot_of "web" ("api" ∷ []) ≡ snapshot = cc (rw (other, web) at found) in
        (
          service ("api" ∷ []) (8003 ∷ []),
          rw (other, web) refl,
          ap (λ (s : ServiceSnapshot String). s.depends_on) e,
        )
    | inr neither ↦ absurd (cc (rw (other, neither) at found))
  ]
]

validate_structure-stable_start_order_example :
    (order : List String) × (stable_start_order snapshots ("web" ∷ []) ≡ ok order)
unfolding collect_from lookup insert str_eq str_lt
validate_structure-stable_start_order_example =
    validate_structure-stable_start_order platform config snapshots ("web" ∷ []) config_accepted
      snapshots-Registered snapshots-configured (refl, tt)
