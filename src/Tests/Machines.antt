-- ===== src/Tests/Machines.antt =====
-- A machine for the tests. Its state is a clock; a process is its identifier, and always runs.
use aku_supervisor.Base.{ℕ, ◌+◌, String, true, false, none, some, [], ◌∷◌, ok, List}
use aku_supervisor.Domain.Control.{OperatorHold, ControlPolicy}
use aku_supervisor.Domain.Lifecycle.{LifecycleState, DesiredState}
use aku_supervisor.Domain.Reason.{Reason}
use aku_supervisor.Health.{HealthCheckSpec, unknown_health}
use aku_supervisor.Ports.{Backend, ℤ, ExitStatus}
use aku_supervisor.Registry.Entry.{new, Entry}
use aku_supervisor.Registry.Types.{ServiceRegistration, ServiceRestartPolicy, ServiceSnapshot}

abbrev pub machine : Backend
machine = record {
  World = ℕ;
  Process = ℕ;
  ProcessError = String;
  PortError = String;
  Json = String;
  root_pid = λ p. p;
  owned_pids = λ p w. (w, ok (p ∷ []));
  owned_processes = λ p w. (w, ok (record { pid = p; name = none } ∷ []));
  try_wait = λ p w. ((p, w), ok none);
  stop = λ grace p w. (
    (p, w),
    ok (record {
      owned_pids_before = p ∷ [];
      owned_pids_after = [];
      graceful_signal_sent = true;
      graceful_signal_error = none;
      forced = false;
    }),
  );
  preflight_launch = λ id spec w. (w, ok tt);
  spawn = λ id spec w. (w, ok w);
  inspect_tcp_port = λ port w. (w, ok (record { port = port; occupants = [] }));
  probe = λ check limit w.
      (w, record { transport_ready = true; healthy = true; detail = ""; observed = [] });
  instant_ms = λ w. (w + 1, w);
  unix_ms = λ w. (w + 1, w);
  sleep = λ ms w. w + ms;
  show_code = λ code. "code";
}

abbrev pub api : ServiceRegistration String
api = record {
  id = "api";
  label = "Api";
  launch = record {
    executable = "api.exe";
    args = [];
    cwd = "work";
    environment = [];
    stdout_log = none;
    stderr_log = none;
  };
  dependencies = [];
  startup_prerequisites = [];
  health = HealthCheckSpec.process;
  restart_policy = ServiceRestartPolicy.on_failure;
  ports = 8080 ∷ [];
  shutdown_grace = 5000;
}

abbrev pub held_policy : ControlPolicy
held_policy = record { operator_hold = OperatorHold.stopped; agent_start_allowed = true }

abbrev pub held_entry : Entry machine
held_entry = record (new api) { control = record { policy = held_policy; last_action = none } }

abbrev pub running_entry : Entry machine
running_entry = record (new api) {
  runtime = record { lock_poisoned = false; lifecycle = LifecycleState.running; process = some 7 };
}

abbrev pub because : Reason
because = record { text = 111 ∷ 107 ∷ [] }

abbrev pub snapshot_of : String → List String → ServiceSnapshot String
snapshot_of id dependencies = record {
  id = id;
  label = id;
  depends_on = dependencies;
  ports = [];
  lifecycle = LifecycleState.stopped;
  root_pid = none;
  owned_pids = [];
  owned_processes = [];
  health = unknown_health;
  desired_state = DesiredState.stopped;
  started_at_unix_ms = none;
  last_exit_code = none;
  last_exit_at_unix_ms = none;
  restart_count = 0;
  operator_hold = OperatorHold.none;
  last_action = none;
}

abbrev pub failed_exit : ExitStatus
failed_exit = record { code = some (ℤ.pos 1); success = false }
