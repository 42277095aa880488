-- ===== src/Registry/Supervision/Plans.antt =====
-- src/application/service_registry.rs: what `SupervisionState` plans after an exit.
use aku_supervisor.Base.{
  ℕ, ◌-◌, ◌<◌, true, false, leb, ◌≡◌, ◌↔◌, ◌⊎◌, inl, inr, refl, Bool-cases, arith,
}
use aku_supervisor.Domain.Actor.{Actor, is_recovery}
use aku_supervisor.Domain.Control.{LifecycleAction, OperatorHold, holds_stopped}
use aku_supervisor.Domain.Lifecycle.{DesiredState}
use aku_supervisor.Ports.{ExitStatus}
use aku_supervisor.Registry.Types.{ServiceRestartPolicy}
use aku_supervisor.Registry.Supervision.{
  SupervisionState, request_running, record_started, record_exit, wants_running, is_on_failure,
  was_stable, episode,
}

-- The conditions of an automatic restart.
pub record Recovers (s : SupervisionState) (status : ExitStatus) (policy : ServiceRestartPolicy)
    (hold : OperatorHold) (window instant : ℕ) : Type 0 where
  pub policy_allows : policy ≡ ServiceRestartPolicy.on_failure
  pub failed : status.success ≡ false
  pub desired : s.desired_state ≡ DesiredState.running
  pub unheld : holds_stopped hold ≡ false
  pub first :
      (s.automatic_restarts_in_episode ≡ 0) ⊎ (was_stable s.started_at instant window ≡ true)
  pub undeferred : s.restart_after_termination ≡ false

on_failure-cases :
    (p : ServiceRestartPolicy) → is_on_failure p ≡ true → p ≡ ServiceRestartPolicy.on_failure
on_failure-cases ServiceRestartPolicy.on_failure h = refl
on_failure-cases ServiceRestartPolicy.manual h = absurd (cc h)

running-cases : (d : DesiredState) → wants_running d ≡ true → d ≡ DesiredState.running
running-cases DesiredState.running h = refl
running-cases DesiredState.stopped h = absurd (cc h)

automatic-Recovers :
    (s : SupervisionState) (status : ExitStatus) (policy : ServiceRestartPolicy)
    (hold : OperatorHold) (window instant unix : ℕ)
    → (record_exit s status policy hold window instant unix).1 ≡ true
    → Recovers s status policy hold window instant
unfolding record_exit
automatic-Recovers s status policy hold window instant unix h = record {
  policy_allows = on_failure-cases policy (ground arith);
  failed = ground arith;
  desired = running-cases s.desired_state (ground arith);
  unheld = ground arith;
  first = elim (Bool-cases (was_stable s.started_at instant window)) [
    | inl stable ↦ inr stable
    | inr brief ↦ inl (ground arith)
  ];
  undeferred =
      let wanted : wants_running s.desired_state ≡ true = ground arith in
      let unheld : holds_stopped hold ≡ false = ground arith in ground (arith, wanted, unheld);
}

plan :
    (s : SupervisionState) (status : ExitStatus) (policy : ServiceRestartPolicy)
    (hold : OperatorHold) (window instant unix : ℕ)
    → Recovers s status policy hold window instant
    → episode s instant window ≡ 0
    → (record_exit s status policy hold window instant unix).1 ≡ true
unfolding record_exit
plan s status policy hold window instant unix r e =
    ground (arith, r.policy_allows, r.failed, r.desired, r.unheld, r.undeferred, e)

Recovers-automatic :
    (s : SupervisionState) (status : ExitStatus) (policy : ServiceRestartPolicy)
    (hold : OperatorHold) (window instant unix : ℕ)
    → Recovers s status policy hold window instant
    → (record_exit s status policy hold window instant unix).1 ≡ true
unfolding record_exit
Recovers-automatic s status policy hold window instant unix r = elim r.first [
  | inl none_yet ↦ elim (Bool-cases (was_stable s.started_at instant window)) [
    | inl stable ↦ plan s status policy hold window instant unix r (rw stable refl)
    | inr brief ↦ plan s status policy hold window instant unix r (rw brief none_yet)
  ]
  | inr stable ↦ plan s status policy hold window instant unix r (rw stable refl)
]

-- A restart is planned automatically exactly when the policy is `on_failure`, the process failed, the
-- service is wanted running and is not held stopped, no restart was deferred, and either no automatic
-- restart was made in this episode or the process had been up for the stability window.
pub record_exit_automatic_iff :
    (s : SupervisionState) (status : ExitStatus) (policy : ServiceRestartPolicy)
    (hold : OperatorHold) (window instant unix : ℕ)
    → ((record_exit s status policy hold window instant unix).1 ≡ true)
      ↔ Recovers s status policy hold window instant
record_exit_automatic_iff s status policy hold window instant unix = (
  automatic-Recovers s status policy hold window instant unix,
  Recovers-automatic s status policy hold window instant unix,
)

-- A deferred restart is planned exactly when one was asked for while the tree was still ending, and the
-- service is still wanted running and is not held stopped; there is no automatic restart then.
pub record_exit_deferred_iff :
    (s : SupervisionState) (status : ExitStatus) (policy : ServiceRestartPolicy)
    (hold : OperatorHold) (window instant unix : ℕ)
    → let exit = record_exit s status policy hold window instant unix in
      (exit.2 ≡ true) ↔ (
        (s.restart_after_termination ≡ true)
        × (wants_running s.desired_state ≡ true)
        × (holds_stopped hold ≡ false)
        × (exit.1 ≡ false))
unfolding record_exit
record_exit_deferred_iff s status policy hold window instant unix =
    (λ h. (ground arith, ground arith, ground arith, ground arith), λ h. ground arith)

-- After an automatic restart was planned and a recovery has started the service again, another exit
-- within the stability window plans no automatic restart, whatever its status.
pub one_restart_per_episode :
    (s : SupervisionState) (status next : ExitStatus) (policy : ServiceRestartPolicy)
    (hold : OperatorHold) (actor : Actor) (action : LifecycleAction)
    (window instant unix started started_unix later later_unix : ℕ)
    → (record_exit s status policy hold window instant unix).1 ≡ true
    → is_recovery actor ≡ true
    → later - started < window
    → let exited = (record_exit s status policy hold window instant unix).0 in
      let again = record_started (request_running exited actor) action started started_unix in
      (record_exit again next policy hold window later later_unix).1 ≡ false
unfolding record_exit request_running record_started
one_restart_per_episode s status next policy hold actor action window instant unix started
      started_unix later later_unix h r soon =
    let late : leb window (later - started) ≡ false = ground arith in rw (r, h, late) (ground arith)
