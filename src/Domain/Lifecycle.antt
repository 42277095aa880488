-- ===== src/Domain/Lifecycle.antt =====
-- src/domain/lifecycle.rs: the lifecycle states of a service and the transitions between them.
use aku_supervisor.Base.{Bool, true, false, Result, ok, err, if◌then◌else◌}

pub data LifecycleState : Type 0 where
  stopped starting running stopping termination_pending unhealthy failed : LifecycleState

pub data DesiredState : Type 0 where
  running stopped : DesiredState

pub record TransitionError : Type 0 where
  pub previous : LifecycleState
  pub requested : LifecycleState

unfoldable pub can_transition_to : LifecycleState → LifecycleState → Bool
can_transition_to LifecycleState.stopped LifecycleState.starting = true
can_transition_to LifecycleState.failed LifecycleState.starting = true
can_transition_to LifecycleState.failed LifecycleState.stopped = true
can_transition_to LifecycleState.failed LifecycleState.stopping = true
can_transition_to LifecycleState.starting LifecycleState.running = true
can_transition_to LifecycleState.starting LifecycleState.unhealthy = true
can_transition_to LifecycleState.starting LifecycleState.failed = true
can_transition_to LifecycleState.starting LifecycleState.stopping = true
can_transition_to LifecycleState.running LifecycleState.stopping = true
can_transition_to LifecycleState.running LifecycleState.unhealthy = true
can_transition_to LifecycleState.running LifecycleState.failed = true
can_transition_to LifecycleState.unhealthy LifecycleState.running = true
can_transition_to LifecycleState.unhealthy LifecycleState.stopping = true
can_transition_to LifecycleState.unhealthy LifecycleState.failed = true
can_transition_to LifecycleState.stopping LifecycleState.stopped = true
can_transition_to LifecycleState.stopping LifecycleState.termination_pending = true
can_transition_to LifecycleState.stopping LifecycleState.failed = true
can_transition_to LifecycleState.termination_pending LifecycleState.stopping = true
can_transition_to LifecycleState.termination_pending LifecycleState.stopped = true
can_transition_to LifecycleState.termination_pending LifecycleState.failed = true
can_transition_to _ _ = false

unfoldable pub transition_to :
    LifecycleState → LifecycleState → Result TransitionError LifecycleState
unfolding can_transition_to
transition_to s next =
    if can_transition_to s next then ok next else err (record { previous = s; requested = next })
