-- ===== src/Tests/Runtimes.antt =====
-- The theorems on a service's runtime.
use aku_supervisor.Base.{
  ℕ, ◌+◌, String, false, Option, none, some, [], ◌∷◌, List, ok, err, ◌≡◌, refl, Result,
}
use aku_supervisor.Domain.Lifecycle.{LifecycleState}
use aku_supervisor.Runtime.{RuntimeState, new, start_with, stop_with, restart_with}
use aku_supervisor.Runtime.Consistency.{IsConsistent}
use aku_supervisor.Runtime.Contract.{
  idle, owns, start_contract, stop_contract, restart_contract, start_with-eq, stop_with-eq,
  restart_with-eq,
}
use aku_supervisor.Runtime.Histories.{
  Call, Legal, here, next, step, start, restart, health, Reach-consistent,
}
use aku_supervisor.Runtime.Outcomes.{ServiceRuntimeError, StopProgress, complete}

abbrev spawn_next : ℕ → ℕ × Result String ℕ
spawn_next w = (w + 1, ok w)

abbrev stop_fails : ℕ → ℕ → (ℕ × ℕ) × Result String StopProgress
stop_fails p w = ((p, w + 1), err "timeout")

abbrev stop_ends : ℕ → ℕ → (ℕ × ℕ) × Result String StopProgress
stop_ends p w = ((p, w + 1), ok complete)

start_with-eq_example :
    start_with spawn_next (idle LifecycleState.failed, 4)
    ≡ start_contract spawn_next (idle LifecycleState.failed) none 4
start_with-eq_example = start_with-eq spawn_next (idle LifecycleState.failed) 4 refl refl

stop_with-eq_example :
    stop_with stop_fails (owns 7 LifecycleState.unhealthy, 4)
    ≡ stop_contract stop_fails LifecycleState.unhealthy (some 7) 4
stop_with-eq_example = stop_with-eq stop_fails (owns 7 LifecycleState.unhealthy) 4 refl refl

restart_with-eq_example :
    restart_with stop_ends spawn_next (owns 7 LifecycleState.running, 4)
    ≡ restart_contract stop_ends spawn_next (some 7) 4
restart_with-eq_example =
    restart_with-eq stop_ends spawn_next (owns 7 LifecycleState.running) 4 refl refl

abbrev calls : List (Call ℕ ℕ String)
calls = restart stop_fails spawn_next ∷ health false ∷ start spawn_next ∷ []

-- The state and the errors after some calls, the last call first.
abbrev after :
    List (Call ℕ ℕ String) → (RuntimeState ℕ × ℕ) × List (Option (ServiceRuntimeError String))
after [] = ((new, 4), [])
after (c ∷ cs) = ((step c (after cs).0).0, (step c (after cs).0).1 ∷ (after cs).1)

Reach-consistent_example : IsConsistent (after calls).0.0 × Legal (after calls).1
Reach-consistent_example =
    Reach-consistent
      (next (restart stop_fails spawn_next) (next (health false) (next (start spawn_next) here)))
