-- ===== src/Planning/Target.antt =====
-- src/application/dependency_control.rs: where the requested service stands in its plan.
use aku_supervisor.Base.{
  ℕ, String, List, [], ◌∷◌, ◌++◌, ok, length, length-append, take, Option-cases, Result-cases,
  ok-injective, inl, inr, ◌≡◌, refl, ap, sym, ◌∙◌, arith,
}
use aku_supervisor.Base.Maps.{lookup}
use aku_supervisor.Registry.Types.{ServiceSnapshot}
use aku_supervisor.Planning.Mutation.{before_last}
use aku_supervisor.Planning.Sets.{contains}
use aku_supervisor.Planning.StartOrder.{
  Visit, nothing_visited, enter, visit_all, visit_start, expand, collect_from, plan_start,
  stable_start_order,
}

take-length : (xs ys : List String) → take (length xs) (xs ++ ys) ≡ xs
take-length [] ys = refl
take-length (x ∷ xs) ys = ap (◌∷◌ x) (take-length xs ys)

before_last-append : (xs : List String) (id : String) → before_last (xs ++ (id ∷ [])) ≡ xs
before_last-append xs id =
    ap (λ (n : ℕ). take n (xs ++ (id ∷ []))) (omega (arith, length-append xs (id ∷ [])))
    ∙ take-length xs (id ∷ [])

-- The visit of the one service, which is the last that is ordered.
visited_last :
    {J : Type 0} (snapshots : List (ServiceSnapshot J)) (id : String) (v : Visit)
    → plan_start snapshots (id ∷ []) ≡ ok v
    → (front : List String) × (v.ordered ≡ front ++ (id ∷ []))
unfolding plan_start visit_all visit_start expand contains
visited_last snapshots id v e =
    let services = collect_from [] snapshots in
    let visit = visit_start (length services) services in
    elim (Option-cases (lookup id services)) [
      | inl missing ↦ absurd (cc (rw missing at e))
      | inr (service, found) ↦
          elim (Result-cases (visit_all visit service.depends_on (enter id nothing_visited))) [
            | inr (x, h) ↦ absurd (cc (rw (found, h) at e))
            | inl (u, h) ↦
                (u.ordered, ap (λ (w : Visit). w.ordered) (sym (ok-injective (rw (found, h) at e))))
          ]
    ]

-- The plan for one service ends with that service, so that the services started before it are the rest
-- of the plan.
pub stable_start_order_last :
    {J : Type 0} (snapshots : List (ServiceSnapshot J)) (id : String) (order : List String)
    → stable_start_order snapshots (id ∷ []) ≡ ok order
    → order ≡ before_last order ++ (id ∷ [])
unfolding stable_start_order
stable_start_order_last snapshots id order e =
    elim (Result-cases (plan_start snapshots (id ∷ []))) [
      | inr (x, h) ↦ absurd (cc (rw h at e))
      | inl (v, h) ↦
          let (front, split) = visited_last snapshots id v h in
          let whole : order ≡ front ++ (id ∷ []) = sym (ok-injective (rw h at e)) ∙ split in
          rw whole (ap (λ (xs : List String). xs ++ (id ∷ [])) (sym (before_last-append front id)))
    ]
