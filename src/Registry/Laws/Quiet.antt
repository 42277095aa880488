-- ===== src/Registry/Laws/Quiet.antt =====
-- The parts of the operations that do not touch the policy.
use aku_supervisor.Base.{ℕ, zero, suc, Bool, true, false, Option, Result, sym, ap, subst}
use aku_supervisor.Health.{HealthCheckSpec, HealthSnapshot}
use aku_supervisor.Ports.{Backend}
use aku_supervisor.Runtime.{RuntimeState, inspect_with, has_process, apply_health}
use aku_supervisor.Runtime.Consistency.{IsConsistent}
use aku_supervisor.Runtime.Invariant.{apply_health-Sound, inspect_with-state, has_process-state}
use aku_supervisor.Domain.Lifecycle.{LifecycleState}
use aku_supervisor.Runtime.Outcomes.{ServiceRuntimeError}
use aku_supervisor.Registry.Observe.{
  map_observation_error, probe_ready, assess, observe_health, wait_more, healthy_round,
  wait_healthy_loop, wait_until_healthy,
}
use aku_supervisor.Registry.Entry.{Op, Error, on_runtime}
use aku_supervisor.Registry.Laws.Within.{Within, Within-on_runtime, within_rules}

module _ (B : Backend) (user : Bool) where
  probe_ready-Within :
      (check : HealthCheckSpec B.Json) (cap : Option ℕ) → Within B user (probe_ready B check cap)
  unfolding probe_ready
  probe_ready-Within HealthCheckSpec.process cap = search within_rules
  probe_ready-Within _ cap = search within_rules

  assess-Within :
      (check : HealthCheckSpec B.Json) (cap : Option ℕ) (has ready : Bool)
      → Within B user (assess B check cap has ready)
  unfolding assess
  assess-Within check cap false ready = search within_rules
  assess-Within check cap true false = search within_rules
  assess-Within check cap true true = probe_ready-Within check cap

  pub inspect-Within :
      {A : Type 0}
      (f : LifecycleState → Option B.Process → B.World → B.World × Result B.ProcessError A)
      → Within B user (on_runtime B map_observation_error (inspect_with f))
  inspect-Within f =
      Within-on_runtime B user map_observation_error (inspect_with f)
        (λ r w h. subst IsConsistent (sym (inspect_with-state r w f)) h)

  pub has-Within :
      {E : Type 0} (f : ServiceRuntimeError E → Error B)
      → Within B user (on_runtime B f has_process)
  has-Within {E} f = Within-on_runtime B user f has_process (λ r w h.
      subst IsConsistent
        (sym (ap (λ (x : RuntimeState B.Process × B.World). x.0) (has_process-state E r w))) h)

  apply-Within :
      {E : Type 0} (f : ServiceRuntimeError E → Error B) (healthy : Bool)
      → Within B user (on_runtime B f (apply_health healthy))
  apply-Within {E} f healthy =
      Within-on_runtime B user f (apply_health healthy)
        (λ r w h. (apply_health-Sound {E = E} r w h healthy).keeps)

  pub observe_health-Within : (cap : Option ℕ) → Within B user (observe_health B cap)
  unfolding observe_health
  observe_health-Within cap =
      search (within_rules, inspect-Within, has-Within, apply-Within, assess-Within) depth 20

  wait_more-Within :
      (deadline began : ℕ) (seen : HealthSnapshot B.Json) (again : Op B Unit)
      → Within B user again
      → Within B user (wait_more B deadline began seen again)
  unfolding wait_more
  wait_more-Within deadline began seen again h = search within_rules depth 10

  round-Within :
      (deadline began : ℕ) (again : Op B Unit)
      → Within B user again
      → Within B user (healthy_round B deadline began again)
  unfolding healthy_round
  round-Within deadline began again h =
      search (within_rules, observe_health-Within, wait_more-Within) depth 20

  wait_loop-Within :
      (fuel deadline began : ℕ) → Within B user (wait_healthy_loop B fuel deadline began)
  unfolding wait_healthy_loop
  wait_loop-Within zero deadline began = search within_rules
  wait_loop-Within (suc fuel) deadline began =
      round-Within deadline began _ (wait_loop-Within fuel deadline began)

  pub wait_until_healthy-Within : (fuel : ℕ) → Within B user (wait_until_healthy B fuel)
  unfolding wait_until_healthy
  wait_until_healthy-Within fuel = search (within_rules, wait_loop-Within) depth 10
