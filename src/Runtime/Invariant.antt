-- ===== src/Runtime/Invariant.antt =====
-- Every call of the runtime is sound: it keeps the state consistent and never reports an illegal
-- transition. So is every history of calls.
use aku_supervisor.Base.{
  Bool, true, Option, none, some, Result, ok, err, ◌≡◌, refl, arith, Bool-cases, inl, inr,
}
use aku_supervisor.Domain.Lifecycle.{LifecycleState}
use aku_supervisor.Runtime.{
  RuntimeState, start_with, stop_with, restart_with, apply_health, reconcile_exit_with,
  inspect_with, has_process,
}
use aku_supervisor.Runtime.Outcomes.{RestartOutcome, StopProgress, complete}
use aku_supervisor.Runtime.Consistency.{consistent, IsConsistent, Sound}
use aku_supervisor.Runtime.Contract.{
  spawned, replaced_with, restart_contract, restart_with-eq, stopped_with, stop_contract,
  stop_with-eq,
}

module _ {P W E : Type 0} (r : RuntimeState P) (w : W) (inv : IsConsistent r) where
  pub start_with-Sound : (spawn : W → W × Result E P) → Sound (start_with spawn (r, w))
  unfolding start_with
  start_with-Sound spawn = record { keeps = ground arith; legal = λ e h. ground arith }

  pub apply_health-Sound : (healthy : Bool) → Sound (apply_health {E = E} healthy (r, w))
  unfolding apply_health
  apply_health-Sound healthy = record { keeps = ground arith; legal = λ e h. ground arith }

  pub reconcile_exit_with-Sound :
      {A : Type 0} (f : P → W → (P × W) × Result E (Option A))
      → Sound (reconcile_exit_with f (r, w))
  unfolding reconcile_exit_with
  reconcile_exit_with-Sound f = record { keeps = ground arith; legal = λ e h. ground arith }

module _ {P W E : Type 0} where
  spawned-Sound : {A : Type 0} (outcome : A) (out : W × Result E P) → Sound (spawned outcome out)
  spawned-Sound outcome (w, ok p) = record { keeps = refl; legal = λ e h. cc }
  spawned-Sound outcome (w, err x) = record { keeps = refl; legal = λ e h. cc }

  replaced_with-Sound :
      (spawn : W → W × Result E P) (out : (P × W) × Result E StopProgress)
      → Sound (replaced_with spawn out)
  replaced_with-Sound spawn ((p, w), ok complete) = spawned-Sound RestartOutcome.restarted (spawn w)
  replaced_with-Sound spawn ((p, w), ok StopProgress.termination_pending) = record {
    keeps = refl;
    legal = λ e h. cc;
  }
  replaced_with-Sound spawn ((p, w), err x) = record { keeps = refl; legal = λ e h. cc }

  restart_contract-Sound :
      (stop : P → W → (P × W) × Result E StopProgress) (spawn : W → W × Result E P)
      (owner : Option P) (w : W)
      → Sound (restart_contract stop spawn owner w)
  restart_contract-Sound stop spawn none w = spawned-Sound RestartOutcome.started (spawn w)
  restart_contract-Sound stop spawn (some p) w = replaced_with-Sound spawn (stop p w)

  restart_poisoned :
      (stop : P → W → (P × W) × Result E StopProgress) (spawn : W → W × Result E P)
      (r : RuntimeState P) (w : W)
      → r.lock_poisoned ≡ true
      → IsConsistent r
      → Sound (restart_with stop spawn (r, w))
  unfolding restart_with
  restart_poisoned stop spawn r w h inv = rw h (record { keeps = inv; legal = λ e x. cc })

  stopped_with-Sound : (out : (P × W) × Result E StopProgress) → Sound (stopped_with out)
  stopped_with-Sound ((p, w), ok complete) = record { keeps = refl; legal = λ e h. cc }
  stopped_with-Sound ((p, w), ok StopProgress.termination_pending) = record {
    keeps = refl;
    legal = λ e h. cc;
  }
  stopped_with-Sound ((p, w), err x) = record { keeps = refl; legal = λ e h. cc }

  stop_contract-Sound :
      (stop : P → W → (P × W) × Result E StopProgress) (state : LifecycleState) (owner : Option P)
      (w : W)
      → consistent state owner ≡ true
      → Sound (stop_contract stop state owner w)
  stop_contract-Sound stop LifecycleState.failed none w inv = record {
    keeps = refl;
    legal = λ e h. cc;
  }
  stop_contract-Sound stop LifecycleState.stopped none w inv = record {
    keeps = refl;
    legal = λ e h. cc;
  }
  stop_contract-Sound stop state (some p) w inv = stopped_with-Sound (stop p w)
  stop_contract-Sound stop _ none w inv = absurd (cc inv)

  stop_poisoned :
      (stop : P → W → (P × W) × Result E StopProgress) (r : RuntimeState P) (w : W)
      → r.lock_poisoned ≡ true
      → IsConsistent r
      → Sound (stop_with stop (r, w))
  unfolding stop_with
  stop_poisoned stop r w h inv = rw h (record { keeps = inv; legal = λ e x. cc })

  pub stop_with-Sound :
      (stop : P → W → (P × W) × Result E StopProgress) (r : RuntimeState P) (w : W)
      → IsConsistent r
      → Sound (stop_with stop (r, w))
  stop_with-Sound stop r w inv = elim (Bool-cases r.lock_poisoned) [
    | inl h ↦ stop_poisoned stop r w h inv
    | inr h ↦
        rw (stop_with-eq stop r w h inv) (stop_contract-Sound stop r.lifecycle r.process w inv)
  ]

  pub restart_with-Sound :
      (stop : P → W → (P × W) × Result E StopProgress) (spawn : W → W × Result E P)
      (r : RuntimeState P) (w : W)
      → IsConsistent r
      → Sound (restart_with stop spawn (r, w))
  restart_with-Sound stop spawn r w inv = elim (Bool-cases r.lock_poisoned) [
    | inl h ↦ restart_poisoned stop spawn r w h inv
    | inr h ↦
        rw (restart_with-eq stop spawn r w h inv) (restart_contract-Sound stop spawn r.process w)
  ]

module _ {P W E : Type 0} (r : RuntimeState P) (w : W) where
  -- Looking at a runtime leaves it as it is.
  pub inspect_with-state :
      {A : Type 0} (f : LifecycleState → Option P → W → W × Result E A)
      → (inspect_with f (r, w)).0.0 ≡ r
  unfolding inspect_with
  inspect_with-state f = ground arith

module _ {P W : Type 0} (E : Type 0) (r : RuntimeState P) (w : W) where
  pub has_process-state : (has_process {E = E} (r, w)).0 ≡ (r, w)
  unfolding has_process
  has_process-state = ground arith
