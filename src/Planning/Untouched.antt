-- ===== src/Planning/Untouched.antt =====
-- src/application/dependency_control.rs: a launch that cannot be planned or prepared starts nothing.
use aku_supervisor.Base.{
  String, true, none, some, List, [], ◌∷◌, ok, err, Result-cases, Bool-cases, str_eq, str_eq_refl,
  str_eq_iff, subst, inl, inr, ◌⊎◌, ◌≡◌, refl, arith,
}
use aku_supervisor.Base.Maps.{OrdMap, lookup}
use aku_supervisor.Control.{ControlAction, ControlError, with_context}
use aku_supervisor.Domain.Actor.{Actor}
use aku_supervisor.Domain.Reason.{Reason}
use aku_supervisor.Registry.Types.{ServiceSnapshot}
use aku_supervisor.Planning.Mutation.{
  SupervisorControl, DependencyPlanObserver, is_launching, is_launched, launch_ids, prepare, mutate,
  joined, show_action,
}
use aku_supervisor.Planning.Sets.{contains, contains-head, contains-tail}
use aku_supervisor.Planning.StartOrder.{collect_from, stable_start_order}

module _ {S J : Type 0} (inner : SupervisorControl S J) (Same : S → S → Type 0) where
  -- The snapshots and the preflight checks only read: they leave the services the same.
  pub record IsReadOnly : Type 0 where
    pub same : (s : S) → Same s s
    pub again : (s s' s'' : S) → Same s s' → Same s' s'' → Same s s''
    pub asking : (s : S) → Same s (inner.snapshots s).0
    pub checking : (ids : List String) (s : S) → Same s (inner.preflight_launches ids s).0

  -- The action starts a process of the service: it is the one to restart, or has no process.
  abbrev pub Launches : ControlAction → String → List (ServiceSnapshot J) → String → Type 0
  Launches action id snapshots x =
      ((x ≡ id) × (action ≡ ControlAction.restart))
      ⊎ ((service : ServiceSnapshot J) × (lookup x (collect_from [] snapshots) ≡ some service)
          × (service.root_pid ≡ none))

  -- The check of the service's launch fails while the services stay the same.
  abbrev pub Blocked : S → String → Type 0
  Blocked s x =
      (s' : S) → Same s s' → (e : ControlError) × ((inner.preflight_launches (x ∷ []) s').1 ≡ err e)

  -- There is no plan, or some service of the plan that is to be launched cannot be.
  abbrev pub Refuses : ControlAction → String → List (ServiceSnapshot J) → S → Type 0
  Refuses action id snapshots s =
      ((e : ControlError) × (stable_start_order snapshots (id ∷ []) ≡ err e))
      ⊎ ((order : List String) × (stable_start_order snapshots (id ∷ []) ≡ ok order)
          × ((x : String) × (contains order x ≡ true)
              × Launches action id snapshots x
              × Blocked s x))

  -- The error of a check of some service of the list, with what was to be done.
  abbrev pub Explains : ControlAction → String → List String → ControlError → Type 0
  Explains action id order e =
      (y : String) × (contains order y ≡ true)
      × ((cause : ControlError) × (s' : S) × ((inner.preflight_launches (y ∷ []) s').1 ≡ err cause)
          × (e
              ≡ with_context cause (
                  joined (
                    "cannot prepare service "
                    ∷ y
                    ∷ " before "
                    ∷ show_action action
                    ∷ " of "
                    ∷ id
                    ∷ []))))

  Explains-more :
      (action : ControlAction) (id y : String) (ids : List String) (e : ControlError)
      → Explains action id ids e
      → Explains action id (y ∷ ids) e
  Explains-more action id y ids e (z, there, why) = (z, contains-tail y z ids there, why)

  prepare-Same :
      (action : ControlAction) (id : String) (ids : List String) (s : S)
      → IsReadOnly
      → Same s (prepare inner action id ids s).0
  unfolding prepare
  prepare-Same action id [] s r = r.same s
  prepare-Same action id (x ∷ xs) s r =
      let s' = (inner.preflight_launches (x ∷ []) s).0 in
      let checked = r.checking (x ∷ []) s in
      elim (Result-cases (inner.preflight_launches (x ∷ []) s).1) [
        | inl (a, h) ↦ simp h (
            r.again s s' (prepare inner action id xs s').0 checked (prepare-Same action id xs s' r))
        | inr (e, h) ↦ simp h checked
      ]

  prepare-refused :
      (action : ControlAction) (id x : String) (ids : List String) (start s : S)
      → IsReadOnly
      → Same start s
      → contains ids x ≡ true
      → Blocked start x
      → (e : ControlError) × ((prepare inner action id ids s).1 ≡ err e) × Explains action id ids e
  unfolding prepare contains
  prepare-refused action id x [] start s r same there blocked = absurd (cc there)
  prepare-refused action id x (y ∷ ys) start s r same there blocked =
      let s' = (inner.preflight_launches (y ∷ []) s).0 in
      let checked = r.again start s s' same (r.checking (y ∷ []) s) in
      elim (Result-cases (inner.preflight_launches (y ∷ []) s).1) [
        | inr (cause, h) ↦
            let text = joined (
              "cannot prepare service " ∷ y ∷ " before " ∷ show_action action ∷ " of " ∷ id ∷ []) in
            (with_context cause text, simp h refl, (y, contains-head y ys, (cause, s, h, refl)))
        | inl (a, h) ↦ elim (Bool-cases (str_eq y x)) [
          | inl hit ↦
              let (e, failed) = blocked s same in
              let passed =
                subst (λ (z : String). (inner.preflight_launches (z ∷ []) s).1 ≡ ok a)
                  ((str_eq_iff y x).0 hit) h in
              absurd (cc (passed, failed))
          | inr miss ↦
              let (e, failed, why) =
                prepare-refused action id x ys start s' r checked (rw miss at there) blocked in
              (e, simp (h, failed) refl, Explains-more action id y ys e why)
        ]
      ]

  Launches-is_launched :
      (action : ControlAction) (id : String) (snapshots : List (ServiceSnapshot J)) (x : String)
      → Launches action id snapshots x
      → is_launched (collect_from [] snapshots) action id x ≡ true
  Launches-is_launched action id snapshots x (inl (target, restarts)) =
      rw (target, restarts, str_eq_refl id) refl
  Launches-is_launched action id snapshots x (inr (service, found, idle)) =
      rw (found, idle) (ground arith)

  launch_ids-contains :
      (services : OrdMap (ServiceSnapshot J)) (action : ControlAction) (id x : String)
      (order : List String)
      → contains order x ≡ true
      → is_launched services action id x ≡ true
      → contains (launch_ids services action id order) x ≡ true
  unfolding contains launch_ids
  launch_ids-contains services action id x [] there launched = absurd (cc there)
  launch_ids-contains services action id x (y ∷ ys) there launched =
      elim (Bool-cases (str_eq y x)) [
        | inl hit ↦
            let also : is_launched services action id y ≡ true =
              rw ((str_eq_iff y x).0 hit) launched in
            rw also (rw hit refl)
        | inr miss ↦
            let rest = launch_ids-contains services action id x ys (rw miss at there) launched in
            elim (Bool-cases (is_launched services action id y)) [
              | inl also ↦ rw also (rw miss rest)
              | inr skipped ↦ rw skipped rest
            ]
      ]

  launch_ids-order :
      (services : OrdMap (ServiceSnapshot J)) (action : ControlAction) (id y : String)
      (order : List String)
      → contains (launch_ids services action id order) y ≡ true
      → contains order y ≡ true
  unfolding contains launch_ids
  launch_ids-order services action id y [] there = there
  launch_ids-order services action id y (x ∷ xs) there =
      let rest = launch_ids-order services action id y xs in
      elim (Bool-cases (is_launched services action id x)) [
        | inr skipped ↦ contains-tail x y xs (rest (rw skipped at there))
        | inl launched ↦ elim (Bool-cases (str_eq x y)) [
          | inl hit ↦ rw hit refl
          | inr miss ↦ contains-tail x y xs (rest (rw miss at (rw launched at there)))
        ]
      ]

module _ {S J : Type 0} (inner : SupervisorControl S J) (observer : DependencyPlanObserver S)
    (Same : S → S → Type 0) where
  -- If the snapshots and the checks only read, and a start or a restart has no plan, or its plan has a
  -- service whose process it is to start and whose launch cannot be prepared, it fails and leaves the
  -- services the same, as when nothing was asked of them. The error is the planner's, or that of the
  -- check of a service of the plan, which it names.
  pub mutate-refused :
      (action : ControlAction) (id : String) (actor : Actor) (reason : Reason) (s : S)
      (snapshots : List (ServiceSnapshot J))
      → IsReadOnly inner Same
      → is_launching action ≡ true
      → (inner.snapshots s).1 ≡ ok snapshots
      → Refuses inner Same action id snapshots s
      → (e : ControlError) × ((mutate inner observer action id actor reason s).1 ≡ err e)
        × Same s (mutate inner observer action id actor reason s).0
        × ((stable_start_order snapshots (id ∷ []) ≡ err e)
            ⊎ ((order : List String) × (stable_start_order snapshots (id ∷ []) ≡ ok order)
                × Explains inner Same action id order e))
  unfolding mutate
  mutate-refused action id actor reason s snapshots r l h (inl (e, failed)) =
      (e, simp (l, h, failed) refl, simp (l, h, failed) (r.asking s), inl failed)
  mutate-refused action id actor reason s snapshots r l h
        (inr (order, planned, (x, there, launches, blocked))) =
      let services = collect_from [] snapshots in
      let ids = launch_ids services action id order in
      let s' = (inner.snapshots s).0 in
      let (e, failed, (y, among, why)) =
        prepare-refused inner Same action id x ids s s' r (r.asking s)
          (launch_ids-contains inner Same services action id x order there
            (Launches-is_launched inner Same action id snapshots x launches))
          blocked in
      (
        e,
        simp (l, h, planned, failed) refl,
        simp (l, h, planned, failed)
            (r.again s s' (prepare inner action id ids s').0 (r.asking s)
              (prepare-Same inner Same action id ids s' r)),
        inr (
          order,
          planned,
          (y, launch_ids-order inner Same services action id y order among, why),
        ),
      )
