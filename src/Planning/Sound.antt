-- ===== src/Planning/Sound.antt =====
-- What a successful visit has done.
use aku_supervisor.Base.{
  ℕ, zero, suc, String, true, false, Option, none, some, List, [], ◌∷◌, ◌++◌, All, Result, ok,
  Bool-cases, Result-cases, ok-injective, inl, inr, str_eq_iff, ◌≡◌, refl, ap, subst, ◌∙◌, arith,
}
use mathlib.Core.List.{reverse, reverse-cons}
use aku_supervisor.Base.Maps.{OrdMap, lookup}
use aku_supervisor.Registry.Types.{ServiceSnapshot}
use aku_supervisor.Planning.Sets.{contains, contains-head, contains-tail, remove_head}
use aku_supervisor.Planning.StartOrder.{
  PlanError, Visit, visit_all, visit_start, expand, enter, leave, nothing_visited,
}

module _ {J : Type 0} (services : OrdMap (ServiceSnapshot J)) where
  -- Newest first: each service stands once, is registered, and stands after all its dependencies.
  abbrev pub Topological : List String → Type 0
  Topological [] = Unit
  Topological (id ∷ earlier) =
      (contains earlier id ≡ false)
      × ((service : ServiceSnapshot J) × (lookup id services ≡ some service)
          × All (λ dependency. contains earlier dependency ≡ true) service.depends_on)
      × Topological earlier

  pub record IsSound (v : Visit) : Type 0 where
    pub order : v.ordered ≡ reverse v.visited
    pub topological : Topological v.visited
    pub apart : (x : String) → contains v.visiting x ≡ true → contains v.visited x ≡ false

  -- From a sound visit to a sound one: nothing visited is forgotten, and nothing stays being visited.
  pub record Grows (v u : Visit) : Type 0 where
    pub sound : IsSound u
    pub keeps : (x : String) → contains v.visited x ≡ true → contains u.visited x ≡ true
    pub visiting : u.visiting ≡ v.visiting

  abbrev pub Visits : (String → Visit → Result PlanError Visit) → Type 0
  Visits visit =
      (id : String) (v u : Visit)
      → IsSound v
      → visit id v ≡ ok u
      → Grows v u × (contains u.visited id ≡ true)

  Grows-trans : (v u t : Visit) → Grows v u → Grows u t → Grows v t
  Grows-trans v u t g h = record {
    sound = h.sound;
    keeps = λ x m. h.keeps x (g.keeps x m);
    visiting = h.visiting ∙ g.visiting;
  }

  pub visit_all-Grows :
      (visit : String → Visit → Result PlanError Visit)
      → Visits visit
      → (ids : List String) (v u : Visit) → IsSound v
      → visit_all visit ids v ≡ ok u
      → Grows v u × All (λ id. contains u.visited id ≡ true) ids
  unfolding visit_all
  visit_all-Grows visit p [] v u s e = (
    subst (Grows v) (ok-injective e) (record { sound = s; keeps = λ x m. m; visiting = refl }),
    tt,
  )
  visit_all-Grows visit p (id ∷ ids) v u s e = elim (Result-cases (visit id v)) [
    | inl (t, h) ↦
        let (g, m) = p id v t s h in
        let (g', ms) = visit_all-Grows visit p ids t u g.sound (rw h at e) in
        (Grows-trans v t u g g', (g'.keeps id m, ms))
    | inr (x, h) ↦ absurd (cc (rw h at e))
  ]

  pub enter-IsSound :
      (id : String) (v : Visit) → IsSound v → contains v.visited id ≡ false → IsSound (enter id v)
  unfolding contains
  enter-IsSound id v s h = record {
    order = s.order;
    topological = s.topological;
    apart = λ x m. ground (arith, str_eq_iff id x, s.apart x);
  }

  module _ (id : String) (v u : Visit) (g : Grows (enter id v) u)
      (idle : contains v.visiting id ≡ false) where
    visiting-leave : (leave id u).visiting ≡ v.visiting
    visiting-leave = rw g.visiting (remove_head id v.visiting idle)

    fresh : contains u.visited id ≡ false
    fresh = g.sound.apart id (rw g.visiting (contains-head id v.visiting))

    apart-leave :
        (x : String)
        → contains (leave id u).visiting x ≡ true
        → contains (leave id u).visited x ≡ false
    unfolding contains
    apart-leave x m =
        let m' = rw visiting-leave at m in
        let n = g.sound.apart x (rw g.visiting (contains-tail id x v.visiting m')) in
        ground (arith, str_eq_iff id x, idle, m', n)

    leave-Grows :
        (service : ServiceSnapshot J)
        → lookup id services ≡ some service
        → All (λ dependency. contains u.visited dependency ≡ true) service.depends_on
        → Grows v (leave id u) × (contains (leave id u).visited id ≡ true)
    leave-Grows service found ready = (
      record {
        sound = record {
          order = rw reverse-cons (ap (λ (xs : List String). xs ++ (id ∷ [])) g.sound.order);
          topological = (fresh, (service, found, ready), g.sound.topological);
          apart = apart-leave;
        };
        keeps = λ x m. contains-tail id x u.visited (g.keeps x m);
        visiting = visiting-leave;
      },
      contains-head id u.visited,
    )

  expand-Grows :
      (visit : String → Visit → Result PlanError Visit)
      → Visits visit
      → (id : String) (v u : Visit) (found : Option (ServiceSnapshot J))
      → lookup id services ≡ found
      → IsSound v
      → contains v.visited id ≡ false
      → expand visit found id v ≡ ok u
      → Grows v u × (contains u.visited id ≡ true)
  unfolding expand
  expand-Grows visit p id v u none f s n e = absurd (cc e)
  expand-Grows visit p id v u (some service) f s n e = elim (Bool-cases (contains v.visiting id)) [
    | inl busy ↦ absurd (cc (rw busy at e))
    | inr idle ↦ elim (Result-cases (visit_all visit service.depends_on (enter id v))) [
      | inr (x, h) ↦ absurd (cc (rw (idle, h) at e))
      | inl (t, h) ↦
          let (g, ready) =
            visit_all-Grows visit p service.depends_on (enter id v) t (enter-IsSound id v s n) h in
          subst (λ (z : Visit). Grows v z × (contains z.visited id ≡ true))
            (ok-injective (rw (idle, h) at e)) (leave-Grows id v t g idle service f ready)
    ]
  ]

  pub visit_start-Grows : (fuel : ℕ) → Visits (visit_start fuel services)
  unfolding visit_start
  visit_start-Grows zero id v u s e = absurd (cc e)
  visit_start-Grows (suc fuel) id v u s e = elim (Bool-cases (contains v.visited id)) [
    | inl seen ↦
        let e' = ok-injective (rw seen at e) in
        (
          subst (Grows v) e' (record { sound = s; keeps = λ x m. m; visiting = refl }),
          subst (λ (z : Visit). contains z.visited id ≡ true) e' seen,
        )
    | inr new ↦
        expand-Grows (visit_start fuel services) (visit_start-Grows fuel) id v u
          (lookup id services) refl s new (rw new at e)
  ]

  pub nothing-IsSound : IsSound nothing_visited
  unfolding contains
  nothing-IsSound = record { order = refl; topological = tt; apart = λ x m. refl }
