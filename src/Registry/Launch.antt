-- ===== src/Registry/Launch.antt =====
-- src/application/service_registry.rs: the code that runs inside the callbacks of a service's runtime.
-- It works on the machine alone. `fuel` bounds the rounds of each wait.
use aku_supervisor.Base.{
  ℕ, zero, suc, ◌-◌, min, String, Option, some, List, [], ◌∷◌, Result, ok, err, map_err, Exec, pure,
  raise, lift, guard, ◌>>=◌, ◌>>◌, leb, if◌then◌else◌,
}
use aku_supervisor.Health.{HealthCheckSpec, startup_deadline, timeout}
use aku_supervisor.Ports.{Backend, TreeStopReport, is_complete, is_available}
use aku_supervisor.Runtime.Outcomes.{StopProgress, complete}
use aku_supervisor.Registry.Types.{
  BackendOperationError, startup_prerequisite, port_inspection, port_conflict,
}
use aku_supervisor.Registry.Entry.{Entry}
use aku_supervisor.Registry.Observe.{transport_timeout}

module _ (B : Backend) where
  -- The code that runs inside a runtime's callback: it works on the machine alone.
  abbrev pub Inside : Type 0 → Type 0
  Inside = Exec B.World (BackendOperationError B.ProcessError B.PortError)

  abbrev pub reads : {A : Type 0} → (B.World → B.World × A) → Inside A
  reads f w = let r = f w in (r.0, ok r.1)

  -- The end of a round that failed: give up at the deadline, or sleep and go round again.
  unfoldable pub wait_prerequisite_more :
      (index deadline began : ℕ) (detail : String) → (again : Inside Unit) → Inside Unit
  wait_prerequisite_more index deadline began detail again = do
    after ← reads B.instant_ms
    if leb deadline (after - began)
        then raise (startup_prerequisite index detail)
        else (do reads (λ w. (B.sleep (min 100 (deadline - (after - began))) w, tt)); again)

  -- The code panics on a prerequisite without a timeout; a configuration can declare only checks with
  -- one.
  unfoldable pub prerequisite_round :
      (index : ℕ) → HealthCheckSpec B.Json → (began : ℕ) → (again : Inside Unit) → Inside Unit
  prerequisite_round index check began again = do
    before ← reads B.instant_ms
    seen ← reads (
        B.probe check
          (min (transport_timeout (timeout check)) (startup_deadline check - (before - began))))
    if seen.healthy
        then pure tt
        else wait_prerequisite_more index (startup_deadline check) began seen.detail again

  unfoldable pub wait_prerequisite_loop :
      ℕ → (index : ℕ) → HealthCheckSpec B.Json → (began : ℕ) → Inside Unit
  wait_prerequisite_loop zero index check began = raise BackendOperationError.unfinished
  wait_prerequisite_loop (suc fuel) index check began =
      prerequisite_round index check began (wait_prerequisite_loop fuel index check began)

  unfoldable pub wait_prerequisites : ℕ → (index : ℕ) → List (HealthCheckSpec B.Json) → Inside Unit
  wait_prerequisites fuel index [] = pure tt
  wait_prerequisites fuel index (check ∷ checks) = do
    began ← reads B.instant_ms
    wait_prerequisite_loop fuel index check began
    wait_prerequisites fuel (suc index) checks

  unfoldable pub ensure_ports_available : List ℕ → Inside Unit
  ensure_ports_available [] = pure tt
  ensure_ports_available (port ∷ ports) = do
    looked ← reads (B.inspect_tcp_port port)
    diagnostic ← lift (map_err (port_inspection port) looked)
    guard (is_available diagnostic) (port_conflict port diagnostic.occupants)
    ensure_ports_available ports

  abbrev pub spawn_entry : Entry B → Inside B.Process
  spawn_entry entry = do
    made ← reads (B.spawn entry.registration.id entry.registration.launch)
    lift (map_err BackendOperationError.process made)

  -- The callback of `start_with` and the second one of `restart_with`.
  unfoldable pub launch : ℕ → Entry B → Inside B.Process
  launch fuel entry = do
    wait_prerequisites fuel 0 entry.registration.startup_prerequisites
    ensure_ports_available entry.registration.ports
    spawn_entry entry

  abbrev pub progress_of : TreeStopReport → StopProgress
  progress_of report = if is_complete report then complete else StopProgress.termination_pending

  -- The callback of `stop_with`. Beside the machine it writes the variable `shutdown`.
  abbrev pub Reporting : Type 0
  Reporting = B.World × Option TreeStopReport

  abbrev pub stopped_tree :
      (B.Process × B.World) × Result B.ProcessError TreeStopReport
      → Option TreeStopReport
      → (B.Process × Reporting)
        × Result (BackendOperationError B.ProcessError B.PortError) StopProgress
  stopped_tree ((p, w), ok report) shutdown = ((p, (w, some report)), ok (progress_of report))
  stopped_tree ((p, w), err e) shutdown =
      ((p, (w, shutdown)), err (BackendOperationError.process e))

  unfoldable pub stop_tree :
      ℕ
      → B.Process
      → Reporting
      → (B.Process × Reporting)
        × Result (BackendOperationError B.ProcessError B.PortError) StopProgress
  stop_tree grace p s = stopped_tree (B.stop grace p s.0) s.1

  -- `launch` beside the variable `shutdown`, which it does not touch.
  abbrev pub launch_reporting :
      ℕ
      → Entry B
      → Reporting
      → Reporting × Result (BackendOperationError B.ProcessError B.PortError) B.Process
  launch_reporting fuel entry s = let r = launch fuel entry s.0 in ((r.0, s.1), r.1)
