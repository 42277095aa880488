-- ===== src/Runtime/Consistency.antt =====
-- Which lifecycle states go with a retained owner between two calls, and what a sound call does.
use aku_supervisor.Base.{Bool, true, false, Option, none, some, Result, err, ◌≡◌, ◌≢◌}
use aku_supervisor.Domain.Lifecycle.{LifecycleState, TransitionError}
use aku_supervisor.Runtime.{RuntimeState}
use aku_supervisor.Runtime.Outcomes.{ServiceRuntimeError, transition}

module _ {P : Type 0} where
  -- Between two calls no service is starting or stopping, and only a failed one may or may not have
  -- an owner.
  abbrev pub consistent : LifecycleState → Option P → Bool
  consistent LifecycleState.stopped none = true
  consistent LifecycleState.failed none = true
  consistent _ none = false
  consistent LifecycleState.running (some p) = true
  consistent LifecycleState.unhealthy (some p) = true
  consistent LifecycleState.termination_pending (some p) = true
  consistent LifecycleState.failed (some p) = true
  consistent _ (some p) = false

  abbrev pub IsConsistent : RuntimeState P → Type 0
  IsConsistent r = consistent r.lifecycle r.process ≡ true

-- The call ends in a consistent state, and not with an illegal lifecycle transition.
pub record Sound {P W E A : Type 0} (out : (RuntimeState P × W) × Result (ServiceRuntimeError E) A)
    : Type 0 where
  pub keeps : IsConsistent out.0.0
  pub legal : (e : TransitionError) → out.1 ≢ err (transition e)
