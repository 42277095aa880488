-- ===== src/Registry/Observe.antt =====
-- src/application/service_registry.rs: observing an entry's health, and the waits before and after
-- a launch. A wait has fuel for its rounds.
use aku_supervisor.Base.{
  ℕ, zero, suc, ◌-◌, min, String, Bool, true, false, not, Option, none, some, Result, ok, map_ok,
  is_empty, pure, raise, get, ◌>>=◌, ◌>>◌, leb, if◌then◌else◌,
}
use aku_supervisor.Health.{
  HealthCheckSpec, HealthSnapshot, TransportHealth, unknown_health, healthy_at, unhealthy_at,
  with_observed, transport_down, is_healthy, startup_deadline, timeout,
}
use aku_supervisor.Ports.{Backend}
use aku_supervisor.Runtime.{inspect_with, has_process, apply_health}
use aku_supervisor.Runtime.Outcomes.{ServiceRuntimeError, poisoned, inspect}
use aku_supervisor.Registry.Types.{
  RegistryError, lock_poisoned, internal_state, observation, health_failed,
}
use aku_supervisor.Registry.Entry.{Op, lock_health, set_health, machine, on_runtime}

module _ {E PE QE : Type 0} where
  -- `has_process`
  abbrev pub lookup_error : ServiceRuntimeError E → RegistryError PE QE
  lookup_error poisoned = lock_poisoned
  lookup_error (ServiceRuntimeError.transition e) = RegistryError.transition e
  lookup_error _ = internal_state

  abbrev pub any_internal : ServiceRuntimeError E → RegistryError PE QE
  any_internal e = internal_state

module _ {PE QE : Type 0} where
  abbrev pub map_observation_error : ServiceRuntimeError PE → RegistryError PE QE
  map_observation_error poisoned = lock_poisoned
  map_observation_error (ServiceRuntimeError.transition e) = RegistryError.transition e
  map_observation_error (inspect e) = observation e
  map_observation_error _ = internal_state

abbrev pub detail_or : String → Option String → String
detail_or fallback none = fallback
detail_or fallback (some text) = text

-- `min` with an optional cap.
abbrev pub capped : Option ℕ → ℕ → ℕ
capped none limit = limit
capped (some cap) limit = min limit cap

-- `check.timeout().expect(…)`: a transport check has a timeout, so the fallback is not read.
abbrev pub transport_timeout : Option ℕ → ℕ
transport_timeout none = 0
transport_timeout (some limit) = limit

module _ (B : Backend) where
  abbrev pub tree_ready : Option B.Process → B.World → B.World × Result B.ProcessError Bool
  tree_ready none w = (w, ok false)
  tree_ready (some p) w =
      let r = B.owned_pids p w in (r.0, map_ok (λ pids. not (is_empty pids)) r.1)

  unfoldable pub transport_snapshot : ℕ → TransportHealth B.Json → HealthSnapshot B.Json
  transport_snapshot now t =
      if t.healthy
      then with_observed (healthy_at now true (some t.transport_ready) t.detail) t.observed
      else with_observed (unhealthy_at now true (some t.transport_ready) t.detail) t.observed

  -- The probe of an entry whose process tree is ready.
  unfoldable pub probe_ready : HealthCheckSpec B.Json → Option ℕ → Op B (HealthSnapshot B.Json)
  unfolding transport_snapshot timeout
  probe_ready HealthCheckSpec.process cap = do
    now ← machine B B.unix_ms
    pure (healthy_at now true none "owned process tree is ready")
  probe_ready check cap = do
    t ← machine B (B.probe check (capped cap (transport_timeout (timeout check))))
    now ← machine B B.unix_ms
    pure (transport_snapshot now t)

  unfoldable pub assess :
      HealthCheckSpec B.Json → Option ℕ → (has ready : Bool) → Op B (HealthSnapshot B.Json)
  assess check cap false ready = pure unknown_health
  assess check cap true false = do
    now ← machine B B.unix_ms
    pure (unhealthy_at now false (transport_down check) "owned process tree is not ready")
  assess check cap true true = probe_ready check cap

  unfoldable pub observe_health : Option ℕ → Op B (HealthSnapshot B.Json)
  observe_health cap = do
    s ← get
    ready ← on_runtime B map_observation_error (inspect_with (λ state process. tree_ready process))
    has ← on_runtime B (any_internal {E = Unit {0}}) has_process
    seen ← assess s.0.registration.health cap has ready
    on_runtime B (lookup_error {E = Unit {0}}) (apply_health (is_healthy seen))
    lock_health B
    set_health B seen
    pure seen

  -- The end of a round that was not healthy: give up at the deadline, or sleep and go round again.
  unfoldable pub wait_more :
      (deadline started : ℕ) → HealthSnapshot B.Json → (again : Op B Unit) → Op B Unit
  wait_more deadline started seen again = do
    after ← machine B B.instant_ms
    if leb deadline (after - started)
        then raise (health_failed (detail_or "health expectation did not pass" seen.detail))
        else (do machine B (λ w. (B.sleep (min 100 (deadline - (after - started))) w, tt)); again)

  -- One round: a probe with what is left of the deadline.
  unfoldable pub healthy_round : (deadline started : ℕ) → (again : Op B Unit) → Op B Unit
  healthy_round deadline started again = do
    before ← machine B B.instant_ms
    seen ← observe_health (some (deadline - (before - started)))
    if is_healthy seen then pure tt else wait_more deadline started seen again

  unfoldable pub wait_healthy_loop : ℕ → (deadline started : ℕ) → Op B Unit
  wait_healthy_loop zero deadline started = raise RegistryError.unfinished
  wait_healthy_loop (suc fuel) deadline started =
      healthy_round deadline started (wait_healthy_loop fuel deadline started)

  unfoldable pub wait_until_healthy : ℕ → Op B Unit
  wait_until_healthy fuel = do
    s ← get
    started ← machine B B.instant_ms
    wait_healthy_loop fuel (startup_deadline s.0.registration.health) started
