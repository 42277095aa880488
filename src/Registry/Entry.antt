-- ===== src/Registry/Entry.antt =====
-- src/application/service_registry.rs: one entry of the registry, and the monad of its operations.
-- An operation works on one entry and on the machine, and what it changed before an error stays.
use aku_supervisor.Base.{Bool, false, not, Option, none, some, ok, map_err, Exec, guard, modify}
use aku_supervisor.Domain.Actor.{Actor}
use aku_supervisor.Domain.Control.{ControlPolicy, default, LifecycleAction}
use aku_supervisor.Domain.Reason.{Reason}
use aku_supervisor.Health.{HealthSnapshot, unknown_health}
use aku_supervisor.Ports.{Backend}
use aku_supervisor.Runtime
use aku_supervisor.Runtime.{RuntimeState, Run}
use aku_supervisor.Runtime.Outcomes.{ServiceRuntimeError}
use aku_supervisor.Registry.Supervision
use aku_supervisor.Registry.Supervision.{SupervisionState}
use aku_supervisor.Registry.Types.{ServiceRegistration, LastAction, RegistryError, lock_poisoned}

-- The poison flags of the four mutexes of an entry.
pub record Locks : Type 0 where
  pub mutation : Bool
  pub control : Bool
  pub health : Bool
  pub supervision : Bool

pub record ControlState : Type 0 where
  pub policy : ControlPolicy
  pub last_action : Option LastAction

pub record ServiceEntry (J P : Type 0) : Type 0 where
  pub registration : ServiceRegistration J
  pub runtime : RuntimeState P
  pub control : ControlState
  pub health : HealthSnapshot J
  pub supervision : SupervisionState
  pub poisoned : Locks

abbrev pub no_poison : Locks
no_poison = record { mutation = false; control = false; health = false; supervision = false }

abbrev pub new_control : ControlState
new_control = record { policy = default; last_action = none }

unfoldable pub new : {J P : Type 0} → ServiceRegistration J → ServiceEntry J P
new registration = record {
  registration = registration;
  runtime = Runtime.new;
  control = new_control;
  health = unknown_health;
  supervision = Supervision.new;
  poisoned = no_poison;
}

module _ (B : Backend) where
  abbrev pub Entry : Type 0
  Entry = ServiceEntry B.Json B.Process

  abbrev pub Error : Type 0
  Error = RegistryError B.ProcessError B.PortError

  abbrev pub Op : Type 0 → Type 0
  Op = Exec (Entry × B.World) Error

  -- `lock(&entry.mutation)?` and so on.
  abbrev pub lock_mutation : Op Unit
  lock_mutation s = guard (not s.0.poisoned.mutation) lock_poisoned s

  abbrev pub lock_control : Op Unit
  lock_control s = guard (not s.0.poisoned.control) lock_poisoned s

  abbrev pub lock_health : Op Unit
  lock_health s = guard (not s.0.poisoned.health) lock_poisoned s

  abbrev pub lock_supervision : Op Unit
  lock_supervision s = guard (not s.0.poisoned.supervision) lock_poisoned s

  abbrev pub set_policy : (ControlPolicy → ControlPolicy) → Op Unit
  set_policy f = modify (λ s.
      (record (s.0) { control = record (s.0.control) { policy = f s.0.control.policy } }, s.1))

  abbrev pub set_last_action : LifecycleAction → Actor → Reason → Op Unit
  set_last_action action actor reason = modify (λ s. (
    record (s.0) {
      control = record (s.0.control) {
        last_action = some (record { action = action; actor = actor; reason = reason });
      };
    },
    s.1,
  ))

  abbrev pub set_supervision : (SupervisionState → SupervisionState) → Op Unit
  set_supervision f = modify (λ s. (record (s.0) { supervision = f s.0.supervision }, s.1))

  abbrev pub set_health : HealthSnapshot B.Json → Op Unit
  set_health snapshot = modify (λ s. (record (s.0) { health = snapshot }, s.1))

  -- A call of the machine that the entry does not take part in.
  abbrev pub machine : {A : Type 0} → (B.World → B.World × A) → Op A
  machine f s = let r = f s.1 in ((s.0, r.0), ok r.1)

  -- A call of the entry's runtime, whose errors are translated by `f`.
  abbrev pub on_runtime :
      {E A : Type 0} → (ServiceRuntimeError E → Error) → Run B.Process B.World E A → Op A
  on_runtime f m s =
      let r = m (s.0.runtime, s.1) in ((record (s.0) { runtime = r.0.0 }, r.0.1), map_err f r.1)
