-- ===== src/Config/Types.antt =====
-- src/adapters/config.rs: the configuration's values. A path is a text; a JSON value is of a type
-- that is a parameter.
use aku_supervisor.Base.{ℕ, String, Bool, Option, List}
use aku_supervisor.Base.Maps.{OrdMap}
use aku_supervisor.Health.{JsonPathMode}

pub data ConsoleEvents : Type 0 where
  off lifecycle verbose : ConsoleEvents

pub record ObservabilityConfig : Type 0 where
  pub console_events : ConsoleEvents

pub record ChromeExtensionReloadConfig : Type 0 where
  pub relay_origin : String
  pub target : String
  pub timeout_ms : ℕ
  pub poll_interval_ms : ℕ

pub record CooperativeActionsConfig : Type 0 where
  pub chrome_extension_reload : Option ChromeExtensionReloadConfig

pub record McpConfig : Type 0 where
  pub enabled : Bool
  pub allowed_origins : List String

pub record ControlConfig : Type 0 where
  pub host : String
  pub port : ℕ
  pub token_file : String
  pub mcp : McpConfig

pub data StartupPrerequisite : Type 0 where
  tcp_connect : (host : String) (port timeout_ms startup_deadline_ms : ℕ) → StartupPrerequisite

pub data HealthCheck (J : Type 0) : Type 0 where
  process : HealthCheck J
  tcp_connect : (host : String) (port timeout_ms startup_deadline_ms : ℕ) → HealthCheck J
  http_status : (url : String) (expected_status timeout_ms startup_deadline_ms : ℕ) → HealthCheck J
  http_json :
      (url : String) (timeout_ms startup_deadline_ms : ℕ) (path_mode : JsonPathMode)
      (expect : OrdMap J) (observe : List String)
      → HealthCheck J

pub data RestartPolicy : Type 0 where
  manual on_failure : RestartPolicy

pub record ServiceConfig (J : Type 0) : Type 0 where
  pub label : String
  pub cwd : String
  pub command : String
  pub args : List String
  pub environment : OrdMap String
  pub depends_on : List String
  pub startup_prerequisites : List StartupPrerequisite
  pub health : HealthCheck J
  pub ports : List ℕ
  pub restart_policy : RestartPolicy
  pub shutdown_grace_ms : ℕ

pub record SupervisorConfig (J : Type 0) : Type 0 where
  pub version : ℕ
  pub control : ControlConfig
  pub observability : ObservabilityConfig
  pub cooperative_actions : CooperativeActionsConfig
  pub services : OrdMap (ServiceConfig J)

abbrev pub config_version : ℕ
config_version = 2

pub record ConfigIssue : Type 0 where
  pub path : String
  pub code : String
  pub message : String

pub data ConfigError : Type 0 where
  invalid : List ConfigIssue → ConfigError

abbrev pub issue : String → String → String → ConfigIssue
issue path code message = record { path = path; code = code; message = message }

-- The parts of a path that `Path::components` yields.
pub data Component : Type 0 where
  prefix root_dir cur_dir parent_dir : Component
  normal : String → Component

-- What the validation asks of the platform and of the parsers of the standard library:
-- `loopback_ip` is `parse::<IpAddr>` to a loopback address, `loopback_socket` the same of a
-- `SocketAddr`, and `display` writes a number.
pub record Outside (J : Type 0) : Type 0 where
  pub is_absolute : String → Bool
  pub is_dir : String → Bool
  pub is_file : String → Bool
  pub components : String → List Component
  pub join : String → String → String
  pub loopback_ip : String → Bool
  pub loopback_socket : String → Bool
  pub display : ℕ → String
  pub is_array : J → Bool
  pub is_object : J → Bool
