-- ===== src/Ports.antt =====
-- src/application/platform_ports.rs: what the application asks of the platform. The adapters behind
-- these traits are a record of functions on the state of the machine, which every call may change.
use aku_supervisor.Base.{ℕ, String, Bool, Option, some, List, Result, is_empty}
use aku_supervisor.Base.Maps.{OrdMap}
use aku_supervisor.Health.{HealthCheckSpec, TransportHealth}

pub record ProcessIdentity : Type 0 where
  pub pid : ℕ
  pub name : Option String

-- Paths and operating-system strings are texts.
pub record LaunchSpec : Type 0 where
  pub executable : String
  pub args : List String
  pub cwd : String
  pub environment : OrdMap String
  pub stdout_log : Option String
  pub stderr_log : Option String

abbrev pub with_log_files : LaunchSpec → String → String → LaunchSpec
with_log_files spec out error = record spec { stdout_log = some out; stderr_log = some error }

pub record TreeStopReport : Type 0 where
  pub owned_pids_before : List ℕ
  pub owned_pids_after : List ℕ
  pub graceful_signal_sent : Bool
  pub graceful_signal_error : Option String
  pub forced : Bool

abbrev pub is_complete : TreeStopReport → Bool
is_complete report = is_empty report.owned_pids_after

pub data NetworkFamily : Type 0 where
  v4 v6 : NetworkFamily

pub record PortOccupant : Type 0 where
  pub pid : ℕ
  pub family : NetworkFamily

pub record PortDiagnostic : Type 0 where
  pub port : ℕ
  pub occupants : List PortOccupant

abbrev pub is_available : PortDiagnostic → Bool
is_available diagnostic = is_empty diagnostic.occupants

-- `negsuc n` is -(n + 1): an exit code is an `i32`.
pub data ℤ : Type 0 where
  pos negsuc : ℕ → ℤ

pub record ExitStatus : Type 0 where
  pub code : Option ℤ
  pub success : Bool

-- The traits `ManagedProcessTree`, `ProcessTreeSpawner`, `PortInspector` and `HealthProbe`, with the
-- clocks, `thread::sleep` and the printing of an exit code.
pub record Backend : Type 1 where
  pub World : Type 0
  pub Process : Type 0
  pub ProcessError : Type 0
  pub PortError : Type 0
  pub Json : Type 0
  pub root_pid : Process → ℕ
  pub owned_pids : Process → World → World × Result ProcessError (List ℕ)
  pub owned_processes : Process → World → World × Result ProcessError (List ProcessIdentity)
  pub try_wait : Process → World → (Process × World) × Result ProcessError (Option ExitStatus)
  pub stop : ℕ → Process → World → (Process × World) × Result ProcessError TreeStopReport
  pub preflight_launch : String → LaunchSpec → World → World × Result ProcessError (Unit {0})
  pub spawn : String → LaunchSpec → World → World × Result ProcessError Process
  pub inspect_tcp_port : ℕ → World → World × Result PortError PortDiagnostic
  pub probe : HealthCheckSpec Json → ℕ → World → World × TransportHealth Json
  pub instant_ms : World → World × ℕ
  pub unix_ms : World → World × ℕ
  pub sleep : ℕ → World → World
  pub show_code : ℤ → String
