-- ===== src/Planning/Mutation.antt =====
-- src/application/dependency_control.rs: `DependencyAwareControl`, which starts the dependencies of a
-- service before the service. The wrapped control and the observer are records of functions on a state.
use aku_supervisor.Base.{
  ◌-◌, String, Bool, true, false, ◌&&◌, ◌||◌, Option, none, some, List, [], ◌∷◌, ok, map_err, Exec,
  pure, lift, modify, ◌>>=◌, ◌>>◌, length, take, ltb, if◌then◌else◌, str_eq,
}
use Prim.Native.String.{◌++◌ as text_append}
use aku_supervisor.Base.Maps.{OrdMap, lookup}
use aku_supervisor.Control.{ControlAction, ControlError, ControlMutationResult, with_context}
use aku_supervisor.Domain.Actor.{Actor}
use aku_supervisor.Domain.Reason.{Reason}
use aku_supervisor.Registry.Types.{ServiceSnapshot}
use aku_supervisor.Planning.StartOrder.{collect_from, stable_start_order}

-- The trait `SupervisorControl`.
pub record SupervisorControl (S J : Type 0) : Type 0 where
  pub snapshots : Exec S ControlError (List (ServiceSnapshot J))
  pub preflight_launches : List String → Exec S ControlError (Unit {0})
  pub mutate : ControlAction → String → Actor → Reason → Exec S ControlError ControlMutationResult

-- The trait `DependencyPlanObserver`.
pub record DependencyPlanObserver (S : Type 0) : Type 0 where
  pub planned : ControlAction → String → (direct order : List String) → S → S

-- `IgnoreDependencyPlans`
abbrev pub ignore_dependency_plans : {S : Type 0} → DependencyPlanObserver S
ignore_dependency_plans = record { planned = λ action id direct order s. s }

abbrev pub is_launching : ControlAction → Bool
is_launching ControlAction.stop = false
is_launching _ = true

abbrev pub is_restarting : ControlAction → Bool
is_restarting ControlAction.restart = true
is_restarting _ = false

-- The action's `Debug` form.
abbrev pub show_action : ControlAction → String
show_action ControlAction.start = "Start"
show_action ControlAction.stop = "Stop"
show_action ControlAction.restart = "Restart"

abbrev pub joined : List String → String
joined [] = ""
joined (s ∷ ss) = text_append s (joined ss)

module _ {J : Type 0} where
  -- `is_some_and(|snapshot| snapshot.root_pid.is_none())`
  abbrev pub not_running : Option (ServiceSnapshot J) → Bool
  not_running none = false
  not_running (some service) = elim service.root_pid [ none ↦ true | some pid ↦ false ]

  abbrev pub is_launched : OrdMap (ServiceSnapshot J) → ControlAction → String → String → Bool
  is_launched services action service_id planned_id =
      (str_eq planned_id service_id && is_restarting action)
      || not_running (lookup planned_id services)

  unfoldable pub launch_ids :
      OrdMap (ServiceSnapshot J) → ControlAction → String → List String → List String
  launch_ids services action service_id [] = []
  launch_ids services action service_id (id ∷ ids) =
      let rest = launch_ids services action service_id ids in
      if is_launched services action service_id id then id ∷ rest else rest

  unfoldable pub direct_dependencies : String → List (ServiceSnapshot J) → List String
  direct_dependencies id [] = []
  direct_dependencies id (s ∷ ss) =
      if str_eq s.id id then s.depends_on else direct_dependencies id ss

abbrev pub in_context : {S A : Type 0} → String → Exec S ControlError A → Exec S ControlError A
in_context text m s = let r = m s in (r.0, map_err (λ e. with_context e text) r.1)

-- `order.iter().take(order.len().saturating_sub(1))`
abbrev pub before_last : List String → List String
before_last order = take (length order - 1) order

module _ {S J : Type 0} (inner : SupervisorControl S J) where
  unfoldable pub prepare : ControlAction → String → List String → Exec S ControlError (Unit {0})
  prepare action service_id [] s = (s, ok tt)
  prepare action service_id (id ∷ ids) s =
      (in_context
            (joined (
              "cannot prepare service "
              ∷ id
              ∷ " before "
              ∷ show_action action
              ∷ " of "
              ∷ service_id
              ∷ []))
            (inner.preflight_launches (id ∷ []))
          >> prepare action service_id ids)
        s

  unfoldable pub start_dependencies :
      Actor → Reason → String → List String → Exec S ControlError (Unit {0})
  start_dependencies actor reason service_id [] s = (s, ok tt)
  start_dependencies actor reason service_id (id ∷ ids) s =
      (in_context (joined ("cannot start dependency " ∷ id ∷ " for " ∷ service_id ∷ []))
            (inner.mutate ControlAction.start id actor reason)
          >>= λ _. start_dependencies actor reason service_id ids)
        s

  module _ (observer : DependencyPlanObserver S) where
    abbrev pub announce :
        ControlAction
        → String
        → List (ServiceSnapshot J)
        → List String
        → Exec S ControlError (Unit {0})
    announce action service_id snapshots order =
        if ltb 1 (length order)
        then modify
            (observer.planned action service_id (direct_dependencies service_id snapshots) order)
        else pure tt

    -- What is done with the plan before the action itself.
    abbrev pub carry_out :
        ControlAction
        → String
        → Actor
        → Reason
        → List (ServiceSnapshot J)
        → List String
        → Exec S ControlError (Unit {0})
    carry_out action service_id actor reason snapshots order = do
      prepare action service_id (launch_ids (collect_from [] snapshots) action service_id order)
      announce action service_id snapshots order
      start_dependencies actor reason service_id (before_last order)

    unfoldable pub mutate :
        ControlAction → String → Actor → Reason → Exec S ControlError ControlMutationResult
    mutate action service_id actor reason =
        if is_launching action
        then (do
          snapshots ← inner.snapshots
          order ← lift (stable_start_order snapshots (service_id ∷ []))
          carry_out action service_id actor reason snapshots order
          inner.mutate action service_id actor reason)
        else inner.mutate action service_id actor reason
