-- ===== src/Registry/Topology/Retained.antt =====
-- src/application/service_registry.rs: what `reconcile_registrations` keeps, replaces and removes.
use aku_supervisor.Base.{
  String, Bool, true, false, ◌||◌, Option, none, some, is_some, List, [], ◌∷◌, ok, err, str_eq,
  str_eq_iff, ◌≡◌, ◌⊎◌, inl, inr, refl, ap, ◌∙◌, Bool-cases, Result-cases, arith,
}
use aku_supervisor.Base.Maps.{OrdMap, lookup, keys}
use aku_supervisor.Runtime.{has_process}
use aku_supervisor.Registry.Supervision.{wants_running}
use aku_supervisor.Registry.Types.{ServiceRegistration}
use aku_supervisor.Registry.Entry.{ServiceEntry}
use aku_supervisor.Registry.Topology.{
  Registry, collect, may_replace, is_retained, RegistryReconcileError, duplicate_service_id,
  check_replaced, reconcile_registrations, RegistryReconcileOutcome, rebuild, starting,
}
use aku_supervisor.Registry.Topology.Rebuilt.{target, rebuilt-target}

module _ {J P : Type 0} (same : ServiceRegistration J → ServiceRegistration J → Bool) where
  -- A service that is to be running or owns a process.
  abbrev pub is_active : ServiceEntry J P → Bool
  is_active entry = wants_running entry.supervision.desired_state || is_some entry.runtime.process

  may_replace-idle :
      (id : String) (entry : ServiceEntry J P)
      → may_replace id entry ≡ ok tt
      → is_active entry ≡ false
  unfolding may_replace has_process
  may_replace-idle id entry h = ground arith

  -- What a passed check says of the first service and of the others.
  check_replaced-cons :
      (desired : OrdMap (ServiceRegistration J)) (j : String) (x : ServiceEntry J P)
      (rest : OrdMap (ServiceEntry J P))
      → check_replaced same desired ((j, x) ∷ rest) ≡ ok tt
      → ((is_retained same (lookup j desired) x ≡ true) ⊎ (may_replace j x ≡ ok tt))
        × (check_replaced same desired rest ≡ ok tt)
  unfolding check_replaced
  check_replaced-cons desired j x rest c =
      elim (Bool-cases (is_retained same (lookup j desired) x)) [
        | inl same_one ↦ (inl same_one, rw same_one at c)
        | inr other ↦ elim (Result-cases (may_replace j x)) [
          | inl (_, h) ↦ (inr h, rw (other, h) at c)
          | inr (e, h) ↦ absurd (cc (rw (other, h) at c))
        ]
      ]

  check_replaced-lookup :
      (desired : OrdMap (ServiceRegistration J)) (services : OrdMap (ServiceEntry J P))
      (id : String) (entry : ServiceEntry J P)
      → check_replaced same desired services ≡ ok tt
      → lookup id services ≡ some entry
      → is_active entry ≡ true
      → is_retained same (lookup id desired) entry ≡ true
  unfolding check_replaced lookup
  check_replaced-lookup desired [] id entry c e a = absurd (cc e)
  check_replaced-lookup desired ((j, x) ∷ rest) id entry c e a =
      let (first, others) = check_replaced-cons desired j x rest c in
      elim (Bool-cases (str_eq j id)) [
        | inr miss ↦ check_replaced-lookup desired rest id entry others (rw miss at e) a
        | inl hit ↦
            let found : x ≡ entry = cc (rw hit at e) in
            let name : j ≡ id = (str_eq_iff j id).0 hit in
            elim first [
              | inl kept ↦ rw (← found, ← name) kept
              | inr free ↦ absurd (cc (may_replace-idle j x free, a, found))
            ]
      ]

  retained-target :
      (d : Option (ServiceRegistration J)) (entry : ServiceEntry J P)
      → is_retained same d entry ≡ true
      → target same d (some entry) ≡ some entry
  retained-target none entry h = absurd (cc h)
  retained-target (some r) entry h = rw h refl

  -- A service that is to be running or owns a process keeps its entry, with the process owner, the health,
  -- the policy and the supervision, whatever registrations replace those of the registry, and whether the
  -- replacement succeeds or is refused.
  pub reconcile-active :
      (rs : List (ServiceRegistration J)) (registry : Registry J P) (id : String)
      (entry : ServiceEntry J P)
      → lookup id registry.services ≡ some entry
      → is_active entry ≡ true
      → lookup id (reconcile_registrations same rs registry).0.services ≡ some entry
  unfolding reconcile_registrations
  reconcile-active rs registry id entry e a = elim (Result-cases (collect rs [])) [
    | inr (twice, h) ↦ rw h e
    | inl (desired, h) ↦ elim (Bool-cases registry.poisoned) [
      | inl bad ↦ rw (h, bad) e
      | inr good ↦ elim (Result-cases (check_replaced same desired registry.services)) [
        | inr (refused, c) ↦ rw (h, good, c) e
        | inl (_, c) ↦
            let kept = check_replaced-lookup desired registry.services id entry c e a in
            rw (h, good, c)
              (rebuilt-target same rs desired registry id h
                ∙ (ap (target same (lookup id desired)) e
                    ∙ retained-target (lookup id desired) entry kept))
      ]
    ]
  ]

  -- Either the replacement is refused and the registry stays as it is, or it succeeds and the services
  -- are afterwards those that are registered: one whose registration is the same keeps its entry, and one that is new
  -- or whose registration changed gets a fresh entry.
  pub reconcile-target :
      (rs : List (ServiceRegistration J)) (registry : Registry J P)
      → ((e : RegistryReconcileError) × (reconcile_registrations same rs registry
            ≡ (registry, err e)))
        ⊎ ((desired : OrdMap (ServiceRegistration J)) × (collect rs [] ≡ ok desired)
            × ((outcome : RegistryReconcileOutcome) × ((reconcile_registrations same rs registry).1
                  ≡ ok outcome))
            × ((id : String)
                → lookup id (reconcile_registrations same rs registry).0.services
                  ≡ target same (lookup id desired) (lookup id registry.services)))
  unfolding reconcile_registrations
  reconcile-target rs registry = elim (Result-cases (collect rs [])) [
    | inr (twice, h) ↦ inl (duplicate_service_id twice, rw h refl)
    | inl (desired, h) ↦ elim (Bool-cases registry.poisoned) [
      | inl bad ↦ inl (RegistryReconcileError.lock_poisoned, rw (h, bad) refl)
      | inr good ↦ elim (Result-cases (check_replaced same desired registry.services)) [
        | inr (refused, c) ↦ inl (refused, rw (h, good, c) refl)
        | inl (_, c) ↦
            let b = rebuild same desired (starting same registry.services) in
            let outcome : RegistryReconcileOutcome = record {
              added = b.added;
              updated = b.updated;
              removed = keys b.current;
            } in
            inr (
              desired,
              h,
              (outcome, rw (h, good, c) refl),
              λ id. rw (h, good, c) (rebuilt-target same rs desired registry id h),
            )
      ]
    ]
  ]
