-- ===== src/Registry/Laws/Parts.antt =====
-- The parts of start, stop, restart and refresh, and what each leaves alone.
use aku_supervisor.Base.{ℕ, Bool, false, Option, none, some, Exec, ◌≡◌, refl}
use aku_supervisor.Domain.Actor.{Actor, is_user}
use aku_supervisor.Domain.Control.{ControlPolicy, LifecycleAction, apply_user_action}
use aku_supervisor.Domain.Reason.{Reason}
use aku_supervisor.Ports.{Backend, TreeStopReport, ExitStatus}
use aku_supervisor.Domain.Lifecycle.{LifecycleState}
use aku_supervisor.Runtime.{RuntimeState, start_with, stop_with, restart_with, reconcile_exit_with}
use aku_supervisor.Runtime.Consistency.{IsConsistent}
use aku_supervisor.Runtime.Outcomes.{
  ServiceRuntimeError, StartOutcome, StopOutcome, RestartOutcome, started, already_running,
}
use aku_supervisor.Runtime.Invariant.{
  start_with-Sound, stop_with-Sound, restart_with-Sound, reconcile_exit_with-Sound,
}
use aku_supervisor.Registry.Types.{BackendOperationError, runtime, ProcessExitEvent}
use aku_supervisor.Registry.Entry.{Entry, set_policy, set_last_action, on_runtime}
use aku_supervisor.Registry.Observe.{map_observation_error}
use aku_supervisor.Registry.Launch.{Reporting, stop_tree, launch, launch_reporting}
use aku_supervisor.Registry.Operations.{
  preflight_entry, authorize_recovery, accept, mark_started, permitted, on_runtime_reporting,
  after_start, after_restart, remember, forget_health,
}
use aku_supervisor.Registry.Refresh.{
  report_exit, reconcile_process_exit, refresh, exit_of, refreshed_health,
}
use aku_supervisor.Registry.Laws.Within.{Within, Within-step, Within-on_runtime, within_rules}
use aku_supervisor.Registry.Laws.Quiet.{
  inspect-Within, observe_health-Within, wait_until_healthy-Within,
}

module _ (B : Backend) where
  apply-others :
      (p : ControlPolicy) (actor : Actor) (action : LifecycleAction)
      → is_user actor ≡ false
      → apply_user_action p actor action ≡ p
  unfolding apply_user_action
  apply-others p actor action h = rw h

  pub set_policy-Within :
      (actor : Actor) (action : LifecycleAction)
      → Within B (is_user actor) (set_policy B (λ p. apply_user_action p actor action))
  set_policy-Within actor action = record {
    at = λ s. record {
      registration = refl;
      locks = refl;
      consistent = λ h. h;
      policy = apply-others s.0.control.policy actor action;
    };
  }

  pub set_last_action-Within :
      (user : Bool) (action : LifecycleAction) (actor : Actor) (reason : Reason)
      → Within B user (set_last_action B action actor reason)
  set_last_action-Within user action actor reason =
      Within-step B user (set_last_action B action actor reason) (λ s. (refl, refl, refl, refl))

  pub accept-Within :
      (actor : Actor) (action : LifecycleAction) (reason : Reason)
      → Within B (is_user actor) (accept B actor action reason)
  unfolding accept
  accept-Within actor action reason =
      search (within_rules, set_policy-Within, set_last_action-Within) depth 20

  module _ (user : Bool) where
    pub preflight-Within : Within B user (preflight_entry B)
    unfolding preflight_entry
    preflight-Within = search within_rules depth 10

    pub recovery-Within : (actor : Actor) → Within B user (authorize_recovery B actor)
    unfolding authorize_recovery
    recovery-Within actor = search within_rules depth 10

    pub permitted-Within :
        (actor : Actor) (action : LifecycleAction) → Within B user (permitted B actor action)
    unfolding permitted
    permitted-Within actor action = search (within_rules, recovery-Within) depth 20

    pub mark_started-Within : (action : LifecycleAction) → Within B user (mark_started B action)
    unfolding mark_started
    mark_started-Within action = search within_rules depth 20

    pub start_with-Within :
        (fuel : ℕ) (entry : Entry B)
        → Within B user (on_runtime B runtime (start_with (launch B fuel entry)))
    start_with-Within fuel entry =
        Within-on_runtime B user runtime (start_with (launch B fuel entry))
          (λ r w h. (start_with-Sound r w h (launch B fuel entry)).keeps)

    pub reporting-Within :
        {A : Type 0}
        (m : Exec
          (RuntimeState B.Process × Reporting B)
          (ServiceRuntimeError (BackendOperationError B.ProcessError B.PortError))
          A)
        → ((r : RuntimeState B.Process) (w : Reporting B)
            → IsConsistent r
            → IsConsistent (m (r, w)).0.0)
        → Within B user (on_runtime_reporting B m)
    reporting-Within m h = record {
      at = λ s. record {
        registration = refl;
        locks = refl;
        consistent = h s.0.runtime (s.1, none);
        policy = λ _. refl;
      };
    }

    pub stop_with-Within :
        (grace : ℕ) → Within B user (on_runtime_reporting B (stop_with (stop_tree B grace)))
    stop_with-Within grace =
        reporting-Within (stop_with (stop_tree B grace))
          (λ r w h. (stop_with-Sound (stop_tree B grace) r w h).keeps)

    pub restart_with-Within :
        (grace fuel : ℕ) (entry : Entry B)
        → Within B user (
            on_runtime_reporting B
              (restart_with (stop_tree B grace) (launch_reporting B fuel entry)))
    restart_with-Within grace fuel entry =
        reporting-Within (restart_with (stop_tree B grace) (launch_reporting B fuel entry))
          (λ r w h.
            (restart_with-Sound (stop_tree B grace) (launch_reporting B fuel entry) r w h).keeps)

    pub after_start-Within : (fuel : ℕ) (o : StartOutcome) → Within B user (after_start B fuel o)
    after_start-Within fuel started =
        search (within_rules, mark_started-Within, wait_until_healthy-Within) depth 10
    after_start-Within fuel already_running = search within_rules

    pub after_restart-Within :
        (fuel : ℕ) (o : RestartOutcome) (shutdown : Option TreeStopReport)
        → Within B user (after_restart B fuel o shutdown)
    after_restart-Within fuel RestartOutcome.termination_pending shutdown =
        search within_rules depth 10
    after_restart-Within fuel _ shutdown =
        search (within_rules, mark_started-Within, wait_until_healthy-Within) depth 10

    pub remember-Within :
        (o : StopOutcome) (shutdown : Option TreeStopReport) → Within B user (remember B o shutdown)
    remember-Within StopOutcome.termination_pending (some report) = search within_rules depth 10
    remember-Within _ _ = search within_rules depth 10

    pub forget-Within : Within B user (forget_health B)
    forget-Within = search within_rules depth 10

    pub report_exit-Within :
        (window : ℕ) (previous : LifecycleState) (status : ExitStatus)
        → Within B user (report_exit B window previous status)
    unfolding report_exit
    report_exit-Within window previous status = search within_rules depth 20

    reconcile_with-Within :
        Within B user (on_runtime B map_observation_error (reconcile_exit_with B.try_wait))
    reconcile_with-Within =
        Within-on_runtime B user map_observation_error (reconcile_exit_with B.try_wait)
          (λ r w h. (reconcile_exit_with-Sound r w h B.try_wait).keeps)

    exit_of-Within :
        (window : ℕ) (previous : LifecycleState) (status : Option ExitStatus)
        → Within B user (exit_of B window previous status)
    exit_of-Within window previous none = search within_rules
    exit_of-Within window previous (some status) = report_exit-Within window previous status

    reconcile-Within : (window : ℕ) → Within B user (reconcile_process_exit B window)
    unfolding reconcile_process_exit
    reconcile-Within window =
        search (within_rules, inspect-Within, reconcile_with-Within, exit_of-Within) depth 20

    refreshed-Within : (event : Option ProcessExitEvent) → Within B user (refreshed_health B event)
    refreshed-Within none = observe_health-Within B user none
    refreshed-Within (some event) = search within_rules depth 10

    pub refresh-Within : (window : ℕ) → Within B user (refresh B window)
    unfolding refresh
    refresh-Within window = search (within_rules, reconcile-Within, refreshed-Within) depth 10
