-- ===== src/Runtime/Histories.antt =====
-- Histories: any calls, one after another, on a runtime that begins as `ServiceRuntime::new()`.
use aku_supervisor.Base.{Bool, Option, List, [], ◌∷◌, Result, ok, err, ◌≢◌, refl, arith}
use aku_supervisor.Domain.Lifecycle.{TransitionError}
use aku_supervisor.Runtime.{
  RuntimeState, new, start_with, stop_with, restart_with, apply_health, reconcile_exit_with,
}
use aku_supervisor.Runtime.Outcomes.{StopProgress, ServiceRuntimeError, transition}
use aku_supervisor.Runtime.Consistency.{IsConsistent}
use aku_supervisor.Runtime.Invariant.{
  start_with-Sound, stop_with-Sound, restart_with-Sound, apply_health-Sound,
  reconcile_exit_with-Sound,
}

-- The callbacks are the environment's: each call brings its own.
pub data Call (P W E : Type 0) : Type 0 where
  start : (W → W × Result E P) → Call P W E
  stop : (P → W → (P × W) × Result E StopProgress) → Call P W E
  restart : (P → W → (P × W) × Result E StopProgress) → (W → W × Result E P) → Call P W E
  health : Bool → Call P W E
  reconcile : (P → W → (P × W) × Result E (Option W)) → Call P W E

module _ {E : Type 0} where
  abbrev pub failure :
      {A : Type 0} → Result (ServiceRuntimeError E) A → Option (ServiceRuntimeError E)
  failure (ok a) = Option.none
  failure (err e) = Option.some e

  abbrev pub Legal : List (Option (ServiceRuntimeError E)) → Type 0
  Legal [] = Unit
  Legal (x ∷ xs) = ((e : TransitionError) → x ≢ Option.some (transition e)) × Legal xs

  failure-legal :
      {A : Type 0} (r : Result (ServiceRuntimeError E) A)
      → ((e : TransitionError) → r ≢ err (transition e))
      → (e : TransitionError) → failure r ≢ Option.some (transition e)
  failure-legal (ok a) h e x = cc
  failure-legal (err y) h e x = h e (ground arith)

module _ {P W E : Type 0} where
  pub step : Call P W E → RuntimeState P × W → (RuntimeState P × W) × Option (ServiceRuntimeError E)
  step (start spawn) s = let out = start_with spawn s in (out.0, failure out.1)
  step (stop f) s = let out = stop_with f s in (out.0, failure out.1)
  step (restart f spawn) s = let out = restart_with f spawn s in (out.0, failure out.1)
  step (health healthy) s = let out = apply_health {E = E} healthy s in (out.0, failure out.1)
  step (reconcile f) s = let out = reconcile_exit_with f s in (out.0, failure out.1)

  -- The states of a history and the errors that its calls returned, newest first.
  pub data Reach (w : W) : RuntimeState P × W → List (Option (ServiceRuntimeError E)) → Type 0 where
    here : Reach w (new, w) []
    next :
        {s : RuntimeState P × W} {errors : List (Option (ServiceRuntimeError E))} (c : Call P W E)
        → Reach w s errors
        → Reach w (step c s).0 ((step c s).1 ∷ errors)

  step-Sound :
      (c : Call P W E) (s : RuntimeState P × W)
      → IsConsistent s.0
      → IsConsistent (step c s).0.0
        × ((e : TransitionError) → (step c s).1 ≢ Option.some (transition e))
  unfolding step
  step-Sound (start spawn) s inv =
      let p = start_with-Sound s.0 s.1 inv spawn in (p.keeps, failure-legal _ p.legal)
  step-Sound (stop f) s inv =
      let p = stop_with-Sound f s.0 s.1 inv in (p.keeps, failure-legal _ p.legal)
  step-Sound (restart f spawn) s inv =
      let p = restart_with-Sound f spawn s.0 s.1 inv in (p.keeps, failure-legal _ p.legal)
  step-Sound (health healthy) s inv =
      let p = apply_health-Sound {E = E} s.0 s.1 inv healthy in (p.keeps, failure-legal _ p.legal)
  step-Sound (reconcile f) s inv =
      let p = reconcile_exit_with-Sound s.0 s.1 inv f in (p.keeps, failure-legal _ p.legal)

  -- Whatever the callbacks answer, every reachable runtime is consistent: no service rests in
  -- `starting` or `stopping`, and it has an owner whenever it is running, unhealthy or pending. And no
  -- call of the history was refused for an illegal transition.
  pub Reach-consistent :
      {w : W} {s : RuntimeState P × W} {errors : List (Option (ServiceRuntimeError E))}
      → Reach w s errors
      → IsConsistent s.0 × Legal errors
  Reach-consistent here = (refl, tt)
  Reach-consistent (next {s = s} c r) =
      let (inv, legal) = Reach-consistent r in let p = step-Sound c s inv in (p.0, (p.1, legal))
