-- ===== src/Planning/Fuel.antt =====
-- The depth of the visit: the services being visited are registered and differ, so there are at most as
-- many as there are services, and the fuel never runs out.
use aku_supervisor.Base.{
  ℕ, zero, suc, ◌+◌, ◌≤◌, ◌<◌, String, true, false, Option, none, some, is_some, List, [], ◌∷◌,
  Result, err, length, Bool-cases, Option-cases, Result-cases, inl, inr, str_eq_iff, ◌≡◌, ◌≢◌, refl,
  ap, sym, subst, ◌∙◌, arith,
}
use aku_supervisor.Base.Maps
use aku_supervisor.Base.Maps.{OrdMap, lookup, lookup-remove}
use aku_supervisor.Registry.Types.{ServiceSnapshot}
use aku_supervisor.Planning.Sets.{contains}
use aku_supervisor.Planning.StartOrder.{
  PlanError, Visit, visit_all, visit_start, expand, enter, unfinished,
}
use aku_supervisor.Planning.Sound.{IsSound, Visits, enter-IsSound, visit_start-Grows}

module _ {V : Type 0} where
  -- The list has distinct keys of the map.
  abbrev pub Chain : OrdMap V → List String → Type 0
  Chain m [] = Unit
  Chain m (x ∷ xs) = (contains xs x ≡ false) × (is_some (lookup x m) ≡ true) × Chain m xs

  length-remove : (x : String) (m : OrdMap V) → length (Maps.remove x m) ≤ length m
  unfolding Maps.remove
  length-remove x [] = omega arith
  length-remove x ((k, v) ∷ m) = ground (arith, length-remove x m)

  length-remove_key :
      (x : String) (m : OrdMap V)
      → is_some (lookup x m) ≡ true
      → length (Maps.remove x m) < length m
  unfolding Maps.remove lookup
  length-remove_key x [] h = cc
  length-remove_key x ((k, v) ∷ m) h = ground (arith, length-remove x m, length-remove_key x m)

  Chain-remove :
      (x : String) (m : OrdMap V) (xs : List String)
      → contains xs x ≡ false
      → Chain m xs
      → Chain (Maps.remove x m) xs
  unfolding contains
  Chain-remove x m [] h c = tt
  Chain-remove x m (y ∷ ys) h c = (
    c.0,
    rw (lookup-remove x y m) (ground (arith, str_eq_iff x y, str_eq_iff y x, c.1)),
    Chain-remove x m ys (ground arith) c.2,
  )

  pub length-Chain : (m : OrdMap V) (xs : List String) → Chain m xs → length xs ≤ length m
  length-Chain m [] c = omega arith
  length-Chain m (x ∷ xs) c = omega (
    arith,
    length-Chain (Maps.remove x m) xs (Chain-remove x m xs c.0 c.2),
    length-remove_key x m c.1,
  )

module _ {J : Type 0} (services : OrdMap (ServiceSnapshot J)) where
  abbrev pub Finishes : (String → Visit → Result PlanError Visit) → List String → Type 0
  Finishes visit busy =
      (id : String) (v : Visit)
      → IsSound services v
      → v.visiting ≡ busy
      → visit id v ≢ err unfinished

  pub visit_all-Finishes :
      (visit : String → Visit → Result PlanError Visit) (busy : List String)
      → Visits services visit
      → Finishes visit busy
      → (ids : List String) (v : Visit) → IsSound services v
      → v.visiting ≡ busy
      → visit_all visit ids v ≢ err unfinished
  unfolding visit_all
  visit_all-Finishes visit busy p f [] v s b e = cc e
  visit_all-Finishes visit busy p f (id ∷ ids) v s b e = elim (Result-cases (visit id v)) [
    | inl (t, h) ↦
        let g = (p id v t s h).0 in
        visit_all-Finishes visit busy p f ids t g.sound (g.visiting ∙ b) (rw h at e)
    | inr (x, h) ↦ f id v s b (h ∙ rw h at e)
  ]

  expand-Finishes :
      (visit : String → Visit → Result PlanError Visit) (found : Option (ServiceSnapshot J))
      (id : String) (v : Visit)
      → Visits services visit
      → (contains v.visiting id ≡ false → Finishes visit (id ∷ v.visiting))
      → IsSound services v
      → contains v.visited id ≡ false
      → expand visit found id v ≢ err unfinished
  unfolding expand
  expand-Finishes visit none id v p f s n e = cc e
  expand-Finishes visit (some service) id v p f s n e = elim (Bool-cases (contains v.visiting id)) [
    | inl busy ↦ cc (rw busy at e)
    | inr idle ↦ elim (Result-cases (visit_all visit service.depends_on (enter id v))) [
      | inl (t, h) ↦ cc (rw (idle, h) at e)
      | inr (x, h) ↦
          visit_all-Finishes visit (id ∷ v.visiting) p (f idle) service.depends_on (enter id v)
            (enter-IsSound services id v s n) refl (h ∙ rw (idle, h) at e)
    ]
  ]

  expand-missing :
      (visit : String → Visit → Result PlanError Visit) (id : String) (v : Visit)
      → expand {J = J} visit none id v ≢ err unfinished
  unfolding expand
  expand-missing visit id v e = cc e

  pub visit_start-Finishes :
      (fuel : ℕ) (busy : List String)
      → Chain services busy
      → length services < fuel + length busy
      → Finishes (visit_start fuel services) busy
  unfolding visit_start
  visit_start-Finishes zero busy c enough id v s b e = omega (arith, length-Chain services busy c)
  visit_start-Finishes (suc fuel) busy c enough id v s b e =
      elim (Bool-cases (contains v.visited id)) [
        | inl seen ↦ cc (rw seen at e)
        | inr new ↦ elim (Option-cases (lookup id services)) [
          | inl missing ↦ expand-missing (visit_start fuel services) id v (rw (new, missing) at e)
          | inr (service, found) ↦
              expand-Finishes (visit_start fuel services) (some service) id v
                (visit_start-Grows services fuel)
                (λ idle.
                  visit_start-Finishes fuel (id ∷ v.visiting)
                    (idle, rw found, subst (Chain services) (sym b) c)
                    (omega (arith, enough, ap (λ (xs : List String). length xs) b)))
                s new (rw (new, found) at e)
        ]
      ]
