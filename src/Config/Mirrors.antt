-- ===== src/Config/Mirrors.antt =====
-- src/adapters/config.rs: what it means that a registration is that of a configured service.
use Prim.Native.String.{◌++◌ as text_append}
use aku_supervisor.Base.{
  ℕ, ◌<◌, String, some, List, [], ◌∷◌, All, map, inl, inr, ◌⊎◌, ◌≡◌, refl, ap,
}
use aku_supervisor.Base.Maps.{OrdMap}
use aku_supervisor.Health.{HealthCheckSpec, JsonPathMode}
use aku_supervisor.Ports.{LaunchSpec}
use aku_supervisor.Registry.Types.{ServiceRegistration, ServiceRestartPolicy}
use aku_supervisor.Config.Types.{
  StartupPrerequisite, HealthCheck, RestartPolicy, ServiceConfig, Outside,
}
use aku_supervisor.Config.Limits.{IsTimely, IsLimited}
use aku_supervisor.Config.Registrations.{
  health_spec, prerequisite_spec, restart_policy_spec, registration_with, logged_launch,
}

-- A check of the registry is the configured one.
pub data Watches {J : Type 0} : HealthCheck J → HealthCheckSpec J → Type 0 where
  process : Watches HealthCheck.process HealthCheckSpec.process
  tcp :
      {host : String} {port limit deadline : ℕ}
      → Watches
          (HealthCheck.tcp_connect host port limit deadline)
          (HealthCheckSpec.tcp_connect host port limit deadline)
  status :
      {url : String} {expected limit deadline : ℕ}
      → Watches
          (HealthCheck.http_status url expected limit deadline)
          (HealthCheckSpec.http_status url expected limit deadline)
  json :
      {url : String} {limit deadline : ℕ} {mode : JsonPathMode} {expect : OrdMap J}
      {observe : List String}
      → Watches
          (HealthCheck.http_json url limit deadline mode expect observe)
          (HealthCheckSpec.http_json url limit deadline mode expect observe)

-- The checks before a start are the configured ones, in their order.
pub data Requires {J : Type 0} : List StartupPrerequisite → List (HealthCheckSpec J) → Type 0 where
  none_required : Requires [] []
  required :
      {host : String} {port limit deadline : ℕ} {ps : List StartupPrerequisite}
      {checks : List (HealthCheckSpec J)}
      → Requires ps checks
      → Requires
          (StartupPrerequisite.tcp_connect host port limit deadline ∷ ps)
          (HealthCheckSpec.tcp_connect host port limit deadline ∷ checks)

pub data Follows : RestartPolicy → ServiceRestartPolicy → Type 0 where
  by_hand : Follows RestartPolicy.manual ServiceRestartPolicy.manual
  by_itself : Follows RestartPolicy.on_failure ServiceRestartPolicy.on_failure

health-Watches : {J : Type 0} (health : HealthCheck J) → Watches health (health_spec health)
health-Watches HealthCheck.process = process
health-Watches (HealthCheck.tcp_connect host port limit deadline) = tcp
health-Watches (HealthCheck.http_status url expected limit deadline) = status
health-Watches (HealthCheck.http_json url limit deadline mode expect observe) = json

prerequisites-Requires :
    {J : Type 0} (ps : List StartupPrerequisite) → Requires {J = J} ps (map prerequisite_spec ps)
prerequisites-Requires [] = none_required
prerequisites-Requires (StartupPrerequisite.tcp_connect host port limit deadline ∷ ps) =
    required (prerequisites-Requires ps)

policy-Follows : (policy : RestartPolicy) → Follows policy (restart_policy_spec policy)
policy-Follows RestartPolicy.manual = by_hand
policy-Follows RestartPolicy.on_failure = by_itself

module _ {J : Type 0} (outside : Outside J) (directory : String) where
  -- What is launched: the configured program, with its output in the directory's files.
  pub record Runs (id : String) (service : ServiceConfig J) (launch : LaunchSpec) : Type 0 where
    pub executable : launch.executable ≡ service.command
    pub args : launch.args ≡ service.args
    pub cwd : launch.cwd ≡ service.cwd
    pub environment : launch.environment ≡ service.environment
    pub stdout_log :
        launch.stdout_log ≡ some (outside.join directory (text_append id ".stdout.log"))
    pub stderr_log :
        launch.stderr_log ≡ some (outside.join directory (text_append id ".stderr.log"))

  -- The registration of a configured service, with limits in time that its operations can keep to.
  pub record Registers (id : String) (service : ServiceConfig J) (r : ServiceRegistration J)
      : Type 0 where
    pub named : r.id ≡ id
    pub label : r.label ≡ service.label
    pub launch : Runs id service r.launch
    pub dependencies : r.dependencies ≡ service.depends_on
    pub ports : r.ports ≡ service.ports
    pub grace : (r.shutdown_grace ≡ service.shutdown_grace_ms) × (0 < r.shutdown_grace)
    pub policy : Follows service.restart_policy r.restart_policy
    pub health : Watches service.health r.health
    pub prerequisites : Requires service.startup_prerequisites r.startup_prerequisites
    pub health_timely : (r.health ≡ HealthCheckSpec.process) ⊎ IsTimely r.health
    pub prerequisites_timely : All IsTimely r.startup_prerequisites

  spec-IsTimely :
      (health : HealthCheck J)
      → (health ≡ HealthCheck.process) ⊎ IsTimely (health_spec health)
      → (health_spec health ≡ HealthCheckSpec.process) ⊎ IsTimely (health_spec health)
  spec-IsTimely health (inl e) = inl (ap health_spec e)
  spec-IsTimely health (inr t) = inr t

  pub registration-Registers :
      (id : String) (service : ServiceConfig J)
      → IsLimited outside service
      → Registers id service
          (registration_with (logged_launch outside directory id service) id service)
  registration-Registers id service limited = record {
    named = refl;
    label = refl;
    launch = record {
      executable = refl;
      args = refl;
      cwd = refl;
      environment = refl;
      stdout_log = refl;
      stderr_log = refl;
    };
    dependencies = refl;
    ports = refl;
    grace = (refl, limited.grace);
    policy = policy-Follows service.restart_policy;
    health = health-Watches service.health;
    prerequisites = prerequisites-Requires service.startup_prerequisites;
    health_timely = spec-IsTimely service.health limited.health;
    prerequisites_timely = limited.prerequisites;
  }
