-- ===== src/Cooperative/Interleaving.antt =====
-- src/application/cooperative_operations.rs: what holds however the threads around the store
-- interleave.
use aku_supervisor.Base.{
  String, Option, none, some, List, [], ◌∷◌, ◌++◌, length, All, ◌≤◌, ◌≡◌, refl, arith,
  length-append,
}
use aku_supervisor.Base.Maps.{lookup}
use aku_supervisor.Base.Keys.{occurs}
use aku_supervisor.Cooperative.Types.{OperationState, CooperativeActionProgress}
use aku_supervisor.Cooperative.Begin.{new}
use aku_supervisor.Cooperative.Worker.{update_progress}
use aku_supervisor.Cooperative.Flights.{
  Worker, starting, executing, request_of, System, poison, Step, Reach,
}
use aku_supervisor.Cooperative.Retention.{Sound}
use aku_supervisor.Cooperative.Admission.{accept-Admission}
use aku_supervisor.Cooperative.Kept.{abandon-Sound, update_progress-Sound, finish-Sound}

-- The store is sound, and at most one worker is about, for the active request.
pub record Exclusive (y : System) : Type 0 where
  pub sound : Sound y.state
  pub flying : All (λ w. y.state.active_request_id ≡ some (request_of w)) y.workers
  pub single : length y.workers ≤ 1

pub alone :
    (before after : List Worker) (w : Worker)
    → length (before ++ (w ∷ after)) ≤ 1
    → (before ≡ []) × (after ≡ [])
alone [] [] w single = (refl, refl)
alone [] (x ∷ after) w single = absurd (omega arith)
alone (x ∷ before) after w single = absurd (omega (arith, length-append before (w ∷ after)))

pub All-middle :
    (P : Worker → Type 0) (before after : List Worker) (w : Worker)
    → All P (before ++ (w ∷ after))
    → P w
All-middle P [] after w all = all.0
All-middle P (x ∷ before) after w all = All-middle P before after w all.1

grounded :
    (active : Option String) (ws : List Worker)
    → active ≡ none
    → All (λ w. active ≡ some (request_of w)) ws
    → ws ≡ []
grounded active [] idle all = refl
grounded active (w ∷ ws) idle all = absurd (cc (idle, all.0))

progress-active :
    (request_id : String) (change : CooperativeActionProgress) (s : OperationState)
    → (update_progress request_id change s).active_request_id ≡ s.active_request_id
unfolding update_progress
progress-active request_id change s = ground arith

poison-Sound : (s : OperationState) → Sound s → Sound (poison s)
poison-Sound s sound = record {
  ordered = sound.ordered;
  tracked = sound.tracked;
  bounded = sound.bounded;
}

landed :
    (s s' : OperationState) (before after : List Worker) (w : Worker)
    → Exclusive (record { state = s; workers = before ++ (w ∷ after) })
    → Sound s'
    → Exclusive (record { state = s'; workers = before ++ after })
landed s s' before after w e sound =
    let (b, a) = alone before after w e.single in
    rw (b, a) (record { sound = sound; flying = tt; single = omega arith })

aloft :
    (s s' : OperationState) (before after : List Worker) (w w' : Worker)
    → Exclusive (record { state = s; workers = before ++ (w ∷ after) })
    → Sound s'
    → s'.active_request_id ≡ s.active_request_id
    → request_of w' ≡ request_of w
    → Exclusive (record { state = s'; workers = before ++ (w' ∷ after) })
aloft s s' before after w w' e sound active request =
    let (b, a) = alone before after w e.single in
    let flying = All-middle _ before after w e.flying in
    rw (b, a) (record { sound = sound; flying = (cc, tt); single = omega arith })

Step-Exclusive : (y z : System) → Exclusive y → Step y z → Exclusive z
Step-Exclusive _ _ e (Step.accepted target actor reason request_id s s' ws admitting) =
    let admission = accept-Admission target actor reason request_id s s' e.sound admitting in
    rw (grounded s.active_request_id ws admission.idle e.flying)
      (record { sound = admission.sound; flying = (admission.active, tt); single = omega arith })
Step-Exclusive _ _ e (Step.spawned request_id s before after) =
    aloft s s before after (starting request_id) (executing request_id) e e.sound refl refl
Step-Exclusive _ _ e (Step.refused request_id error s before after) =
    let active = All-middle _ before after (starting request_id) e.flying in
    landed s _ before after (starting request_id) e
      (abandon-Sound request_id error s e.sound active)
Step-Exclusive _ _ e (Step.progress request_id change s before after) =
    aloft s (update_progress request_id change s) before after (executing request_id)
      (executing request_id) e (update_progress-Sound request_id change s e.sound)
      (progress-active request_id change s) refl
Step-Exclusive _ _ e (Step.finished request_id result s before after) =
    let active = All-middle _ before after (executing request_id) e.flying in
    landed s _ before after (executing request_id) e
      (finish-Sound request_id result s e.sound active)
Step-Exclusive _ _ e (Step.lost request_id s before after) =
    landed s s before after (executing request_id) e e.sound
Step-Exclusive _ _ e (Step.poisoning s ws) = record {
  sound = poison-Sound s e.sound;
  flying = e.flying;
  single = e.single;
}

new-Sound : Sound new
unfolding lookup occurs
new-Sound = record {
  ordered = record { unique = tt; distinct = tt; same = λ k. refl; count = refl };
  tracked = record {
    named = λ k o e. absurd (cc e);
    running = λ k o e. absurd (cc e);
    present = λ k e. absurd (cc e);
  };
  bounded = omega arith;
}

-- However the threads interleave, at most 128 operations are retained, listed once each in the
-- order of eviction; a retained operation is running exactly when it is the active one; and at most
-- one thread starts or executes an operation, which is the active one.
pub Reach-Exclusive : (y : System) → Reach y → Exclusive y
Reach-Exclusive _ Reach.initial = record { sound = new-Sound; flying = tt; single = omega arith }
Reach-Exclusive z (Reach.next y _ reached step) =
    Step-Exclusive y z (Reach-Exclusive y reached) step
