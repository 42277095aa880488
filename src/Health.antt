-- ===== src/Health.antt =====
-- src/application/health.rs: health contracts, snapshots and probe results. A `Duration` is a number
-- of milliseconds; `J` is the type of JSON values, which belongs to serde_json.
use aku_supervisor.Base.{ℕ, String, Bool, true, false, Option, none, some, List, []}
use aku_supervisor.Base.Maps.{OrdMap}

pub data JsonPathMode : Type 0 where
  shallow json_pointer : JsonPathMode

pub data HealthCheckSpec (J : Type 0) : Type 0 where
  process : HealthCheckSpec J
  tcp_connect : (host : String) (port timeout startup_deadline : ℕ) → HealthCheckSpec J
  http_status : (url : String) (expected_status timeout startup_deadline : ℕ) → HealthCheckSpec J
  http_json :
      (url : String) (timeout startup_deadline : ℕ) (path_mode : JsonPathMode) (expect : OrdMap J)
      (observe : List String)
      → HealthCheckSpec J

module _ {J : Type 0} where
  unfoldable pub startup_deadline : HealthCheckSpec J → ℕ
  startup_deadline HealthCheckSpec.process = 0
  startup_deadline (HealthCheckSpec.tcp_connect host port timeout deadline) = deadline
  startup_deadline (HealthCheckSpec.http_status url expected timeout deadline) = deadline
  startup_deadline (HealthCheckSpec.http_json url timeout deadline mode expect observe) = deadline

  unfoldable pub timeout : HealthCheckSpec J → Option ℕ
  timeout HealthCheckSpec.process = none
  timeout (HealthCheckSpec.tcp_connect host port limit deadline) = some limit
  timeout (HealthCheckSpec.http_status url expected limit deadline) = some limit
  timeout (HealthCheckSpec.http_json url limit deadline mode expect observe) = some limit

  -- `match health { Process => None, _ => Some(false) }`
  abbrev pub transport_down : HealthCheckSpec J → Option Bool
  transport_down HealthCheckSpec.process = none
  transport_down _ = some false

pub data HealthStatus : Type 0 where
  unknown healthy unhealthy : HealthStatus

pub record HealthSnapshot (J : Type 0) : Type 0 where
  pub status : HealthStatus
  pub process_ready : Bool
  pub transport_ready : Option Bool
  pub checked_at_unix_ms : Option ℕ
  pub detail : Option String
  pub observed : OrdMap J

pub record TransportHealth (J : Type 0) : Type 0 where
  pub transport_ready : Bool
  pub healthy : Bool
  pub detail : String
  pub observed : OrdMap J

module _ {J : Type 0} where
  abbrev pub unknown_health : HealthSnapshot J
  unknown_health = record {
    status = HealthStatus.unknown;
    process_ready = false;
    transport_ready = none;
    checked_at_unix_ms = none;
    detail = none;
    observed = [];
  }

  -- The first argument is the time that the code reads from the system clock.
  abbrev pub healthy_at : ℕ → Bool → Option Bool → String → HealthSnapshot J
  healthy_at now ready transport text = record {
    status = HealthStatus.healthy;
    process_ready = ready;
    transport_ready = transport;
    checked_at_unix_ms = some now;
    detail = some text;
    observed = [];
  }

  abbrev pub unhealthy_at : ℕ → Bool → Option Bool → String → HealthSnapshot J
  unhealthy_at now ready transport text = record {
    status = HealthStatus.unhealthy;
    process_ready = ready;
    transport_ready = transport;
    checked_at_unix_ms = some now;
    detail = some text;
    observed = [];
  }

  abbrev pub with_observed : HealthSnapshot J → OrdMap J → HealthSnapshot J
  with_observed snapshot seen = record snapshot { observed = seen }

abbrev pub is_healthy_status : HealthStatus → Bool
is_healthy_status HealthStatus.healthy = true
is_healthy_status _ = false

module _ {J : Type 0} where
  abbrev pub is_healthy : HealthSnapshot J → Bool
  is_healthy snapshot = is_healthy_status snapshot.status
