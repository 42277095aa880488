-- ===== src/Config/Registrations.antt =====
-- src/adapters/config.rs: the registrations that a configuration makes.
use Prim.Native.String.{◌++◌ as text_append}
use aku_supervisor.Base.{ℕ, String, none, List, [], ◌∷◌, map}
use aku_supervisor.Base.Maps.{OrdMap}
use aku_supervisor.Health.{HealthCheckSpec}
use aku_supervisor.Ports.{LaunchSpec, with_log_files}
use aku_supervisor.Registry.Types.{ServiceRegistration, ServiceRestartPolicy}
use aku_supervisor.Config.Types.{
  StartupPrerequisite, HealthCheck, RestartPolicy, ServiceConfig, SupervisorConfig, Outside,
}

abbrev pub restart_policy_spec : RestartPolicy → ServiceRestartPolicy
restart_policy_spec RestartPolicy.manual = ServiceRestartPolicy.manual
restart_policy_spec RestartPolicy.on_failure = ServiceRestartPolicy.on_failure

module _ {J : Type 0} where
  abbrev pub prerequisite_spec : StartupPrerequisite → HealthCheckSpec J
  prerequisite_spec (StartupPrerequisite.tcp_connect host port timeout_ms startup_deadline_ms) =
      HealthCheckSpec.tcp_connect host port timeout_ms startup_deadline_ms

  abbrev pub health_spec : HealthCheck J → HealthCheckSpec J
  health_spec HealthCheck.process = HealthCheckSpec.process
  health_spec (HealthCheck.tcp_connect host port timeout_ms startup_deadline_ms) =
      HealthCheckSpec.tcp_connect host port timeout_ms startup_deadline_ms
  health_spec (HealthCheck.http_status url expected_status timeout_ms startup_deadline_ms) =
      HealthCheckSpec.http_status url expected_status timeout_ms startup_deadline_ms
  health_spec (HealthCheck.http_json url timeout_ms startup_deadline_ms path_mode expect observe) =
      HealthCheckSpec.http_json url timeout_ms startup_deadline_ms path_mode expect observe

  unfoldable pub startup_deadline_ms : HealthCheck J → ℕ
  startup_deadline_ms HealthCheck.process = 0
  startup_deadline_ms (HealthCheck.tcp_connect host port timeout_ms deadline) = deadline
  startup_deadline_ms (HealthCheck.http_status url expected_status timeout_ms deadline) = deadline
  startup_deadline_ms (HealthCheck.http_json url timeout_ms deadline mode expect observe) = deadline

  abbrev pub launch_spec : ServiceConfig J → LaunchSpec
  launch_spec service = record {
    executable = service.command;
    args = service.args;
    cwd = service.cwd;
    environment = service.environment;
    stdout_log = none;
    stderr_log = none;
  }

  abbrev pub registration_with : LaunchSpec → String → ServiceConfig J → ServiceRegistration J
  registration_with launch service_id service = record {
    id = service_id;
    label = service.label;
    launch = launch;
    dependencies = service.depends_on;
    startup_prerequisites = map prerequisite_spec service.startup_prerequisites;
    health = health_spec service.health;
    restart_policy = restart_policy_spec service.restart_policy;
    ports = service.ports;
    shutdown_grace = service.shutdown_grace_ms;
  }

  unfoldable pub registrations_of :
      (String → ServiceConfig J → LaunchSpec)
      → OrdMap (ServiceConfig J)
      → List (ServiceRegistration J)
  registrations_of launch [] = []
  registrations_of launch ((service_id, service) ∷ rest) =
      registration_with (launch service_id service) service_id service
      ∷ registrations_of launch rest

  unfoldable pub service_registrations : SupervisorConfig J → List (ServiceRegistration J)
  service_registrations config =
      registrations_of (λ service_id service. launch_spec service) config.services

  abbrev pub logged_launch : Outside J → String → String → ServiceConfig J → LaunchSpec
  logged_launch outside directory service_id service =
      with_log_files (launch_spec service)
        (outside.join directory (text_append service_id ".stdout.log"))
        (outside.join directory (text_append service_id ".stderr.log"))

  unfoldable pub service_registrations_with_logs :
      Outside J → SupervisorConfig J → String → List (ServiceRegistration J)
  service_registrations_with_logs outside config runtime_services_directory =
      registrations_of (logged_launch outside runtime_services_directory) config.services
