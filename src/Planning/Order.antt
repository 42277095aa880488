-- ===== src/Planning/Order.antt =====
-- src/application/dependency_control.rs: what `stable_start_order` promises.
use aku_supervisor.Base.{
  ℕ, suc, String, true, List, [], ◌∷◌, All, ok, err, length, Result-cases, inl, inr, ok-injective,
  ◌≡◌, ◌≢◌, refl, ap, sym, ◌∙◌, arith,
}
use mathlib.Core.List.{reverse, reverse-reverse}
use aku_supervisor.Registry.Types.{ServiceSnapshot}
use aku_supervisor.Planning.Sets.{contains}
use aku_supervisor.Planning.StartOrder.{
  Visit, nothing_visited, visit_start, collect_from, plan_start, stable_start_order, PlanError,
  unfinished,
}
use aku_supervisor.Planning.Sound.{
  Topological, IsSound, nothing-IsSound, visit_all-Grows, visit_start-Grows,
}
use aku_supervisor.Planning.Fuel.{visit_all-Finishes, visit_start-Finishes}
use aku_supervisor.Planning.Acyclic.{Registered, Ranked, Above, visit_all-Only, visit_start-Only}

module _ {J : Type 0} (snapshots : List (ServiceSnapshot J)) (requested : List String) where
  plan_start-Sound :
      (v : Visit)
      → plan_start snapshots requested ≡ ok v
      → IsSound (collect_from [] snapshots) v × All (λ id. contains v.visited id ≡ true) requested
  unfolding plan_start
  plan_start-Sound v e =
      let services = collect_from [] snapshots in
      let fuel = suc (length services) in
      let (g, all) =
        visit_all-Grows services (visit_start fuel services) (visit_start-Grows services fuel)
          requested nothing_visited v (nothing-IsSound services) e in
      (g.sound, all)

  -- Read backwards, an order that is returned has every service once, each registered and behind all
  -- of its dependencies; and every requested service is in it.
  pub stable_start_order_sound :
      (order : List String)
      → stable_start_order snapshots requested ≡ ok order
      → Topological (collect_from [] snapshots) (reverse order)
        × All (λ id. contains (reverse order) id ≡ true) requested
  unfolding stable_start_order
  stable_start_order_sound order e = elim (Result-cases (plan_start snapshots requested)) [
    | inr (x, h) ↦ absurd (cc (rw h at e))
    | inl (v, h) ↦
        let (s, all) = plan_start-Sound v h in
        let same =
          ap reverse (sym (ok-injective (rw h at e)) ∙ s.order) ∙ reverse-reverse v.visited in
        rw same (s.topological, all)
  ]

  -- The depth-first visit never runs out of the fuel that it is given, whatever the dependencies.
  plan_start-finishes : plan_start snapshots requested ≢ err unfinished
  unfolding plan_start
  plan_start-finishes =
      let services = collect_from [] snapshots in
      visit_all-Finishes services (visit_start (suc (length services)) services) []
        (visit_start-Grows services (suc (length services)))
        (visit_start-Finishes services (suc (length services)) [] tt (omega arith)) requested
        nothing_visited (nothing-IsSound services) refl

  Above-nothing :
      (rank : String → ℕ) (ids : List String)
      → All (λ id. Registered (collect_from [] snapshots) id) ids
      → All (λ id. Registered (collect_from [] snapshots) id × Above rank id []) ids
  Above-nothing rank [] h = tt
  Above-nothing rank (id ∷ ids) h = ((h.0, tt), Above-nothing rank ids h.1)

  plan_start-only :
      (rank : String → ℕ)
      → Ranked rank (collect_from [] snapshots)
      → All (λ id. Registered (collect_from [] snapshots) id) requested
      → (x : PlanError) → plan_start snapshots requested ≡ err x
      → x ≡ unfinished
  unfolding plan_start
  plan_start-only rank ranked known x e =
      let services = collect_from [] snapshots in
      let fuel = suc (length services) in
      visit_all-Only rank services ranked (visit_start fuel services) []
        (visit_start-Grows services fuel) (visit_start-Only rank services ranked fuel []) requested
        nothing_visited x (nothing-IsSound services) refl (Above-nothing rank requested known) e

  -- If every dependency is registered and has a lower rank than its service, so that there is no cycle,
  -- and every requested service is registered, an order is returned.
  pub stable_start_order_total :
      (rank : String → ℕ)
      → Ranked rank (collect_from [] snapshots)
      → All (λ id. Registered (collect_from [] snapshots) id) requested
      → (order : List String) × (stable_start_order snapshots requested ≡ ok order)
  unfolding stable_start_order
  stable_start_order_total rank ranked known =
      elim (Result-cases (plan_start snapshots requested)) [
        | inl (v, h) ↦ (v.ordered, rw h)
        | inr (x, h) ↦
            absurd (plan_start-finishes (h ∙ ap err (plan_start-only rank ranked known x h)))
      ]
