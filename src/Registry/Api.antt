-- ===== src/Registry/Api.antt =====
-- src/application/control_api.rs: the registry as a `SupervisorControl`. `display` is the printing of the
-- registry's errors.
use aku_supervisor.Base.{ℕ, String, Exec, map_ok, map_err}
use aku_supervisor.Control.{
  ControlAction, ControlError, ControlMutationResult, start_result, stop_result, restart_result,
  control_error,
}
use aku_supervisor.Domain.Actor.{Actor}
use aku_supervisor.Domain.Reason.{Reason}
use aku_supervisor.Planning.Mutation.{SupervisorControl}
use aku_supervisor.Ports.{Backend}
use aku_supervisor.Registry.Entry.{Error}
use aku_supervisor.Registry.Dispatch.{
  Services, start, stop_with_report, restart_with_report, snapshots, preflight_launches,
}

module _ (B : Backend) (display : Error B → String) where
  -- `map(f).map_err(|error| control_error(&error))`
  abbrev pub answered :
      {A C : Type 0}
      → (A → C)
      → Exec (Services B × B.World) (Error B) A
      → Exec (Services B × B.World) ControlError C
  answered f m s = let r = m s in (r.0, map_err (control_error display) (map_ok f r.1))

  unfoldable pub mutate :
      ℕ
      → ControlAction
      → String
      → Actor
      → Reason
      → Exec (Services B × B.World) ControlError ControlMutationResult
  mutate fuel ControlAction.start id actor reason =
      answered start_result (start B fuel id actor reason)
  mutate fuel ControlAction.stop id actor reason =
      answered stop_result (stop_with_report B id actor reason)
  mutate fuel ControlAction.restart id actor reason =
      answered restart_result (restart_with_report B fuel id actor reason)

  abbrev pub control : ℕ → SupervisorControl (Services B × B.World) B.Json
  control fuel = record {
    snapshots = answered (λ all. all) (snapshots B);
    preflight_launches = λ ids. answered (λ u. u) (preflight_launches B ids);
    mutate = mutate fuel;
  }
