-- ===== src/Planning/Acyclic.antt =====
-- On services whose dependencies are registered and fall in some rank, a visit meets no missing service
-- and no cycle: it can fail only for want of fuel.
use aku_supervisor.Base.{
  ℕ, zero, suc, ◌<◌, String, true, false, some, is_some, List, [], ◌∷◌, All, Result, err,
  Bool-cases, Option-cases, Result-cases, inl, inr, str_eq, str_eq_iff, ◌≡◌, refl, sym, subst, ◌∙◌,
  arith,
}
use aku_supervisor.Base.Maps.{OrdMap, lookup}
use aku_supervisor.Registry.Types.{ServiceSnapshot}
use aku_supervisor.Planning.Sets.{contains}
use aku_supervisor.Planning.StartOrder.{
  PlanError, Visit, visit_all, visit_start, expand, enter, unfinished,
}
use aku_supervisor.Planning.Sound.{IsSound, Visits, enter-IsSound, visit_start-Grows}

abbrev pub Registered : {J : Type 0} → OrdMap (ServiceSnapshot J) → String → Type 0
Registered services id = is_some (lookup id services) ≡ true

-- Every dependency is registered and has a lower rank.
abbrev pub Ranked : {J : Type 0} → (String → ℕ) → OrdMap (ServiceSnapshot J) → Type 0
Ranked {J} rank services =
    (id : String) (service : ServiceSnapshot J)
    → lookup id services ≡ some service
    → All (λ d. Registered services d × (rank d < rank id)) service.depends_on

module _ (rank : String → ℕ) where
  abbrev pub Above : String → List String → Type 0
  Above id busy = All (λ x. rank id < rank x) busy

  Above-absent : (id : String) (busy : List String) → Above id busy → contains busy id ≡ false
  unfolding contains
  Above-absent id [] a = refl
  Above-absent id (x ∷ xs) a = elim (Bool-cases (str_eq x id)) [
    | inl e ↦ absurd (below x ((str_eq_iff x id).0 e) a.0)
    | inr n ↦ rw n (Above-absent id xs a.1)
  ]
    where
      below : (x : String) → x ≡ id → rank id < rank x → ⊥
      below x e h = let h' = subst (λ (y : String). rank id < rank y) e h in omega arith

  Above-mono :
      (d id : String) (busy : List String) → rank d < rank id → Above id busy → Above d busy
  Above-mono d id [] h a = tt
  Above-mono d id (x ∷ xs) h a = (omega (arith, a.0), Above-mono d id xs h a.1)

  module _ {J : Type 0} (services : OrdMap (ServiceSnapshot J))
      (ranked : Ranked rank services) where
    abbrev pub Only : (String → Visit → Result PlanError Visit) → List String → Type 0
    Only visit busy =
        (id : String) (v : Visit) (x : PlanError)
        → IsSound services v
        → v.visiting ≡ busy
        → Registered services id
        → Above id busy
        → visit id v ≡ err x
        → x ≡ unfinished

    pub visit_all-Only :
        (visit : String → Visit → Result PlanError Visit) (busy : List String)
        → Visits services visit
        → Only visit busy
        → (ids : List String) (v : Visit) (x : PlanError) → IsSound services v
        → v.visiting ≡ busy
        → All (λ d. Registered services d × Above d busy) ids
        → visit_all visit ids v ≡ err x
        → x ≡ unfinished
    unfolding visit_all
    visit_all-Only visit busy p o [] v x s b r e = absurd (cc e)
    visit_all-Only visit busy p o (id ∷ ids) v x s b r e = elim (Result-cases (visit id v)) [
      | inl (t, h) ↦
          let g = (p id v t s h).0 in
          visit_all-Only visit busy p o ids t x g.sound (g.visiting ∙ b) r.1 (rw h at e)
      | inr (y, h) ↦ o id v x s b r.0.0 r.0.1 (h ∙ rw h at e)
    ]

    lower :
        (id : String) (busy : List String) (ids : List String)
        → Above id busy
        → All (λ d. Registered services d × (rank d < rank id)) ids
        → All (λ d. Registered services d × Above d (id ∷ busy)) ids
    lower id busy [] a h = tt
    lower id busy (d ∷ ds) a h =
        ((h.0.0, (h.0.1, Above-mono d id busy h.0.1 a)), lower id busy ds a h.1)

    expand-Only :
        (visit : String → Visit → Result PlanError Visit) (service : ServiceSnapshot J)
        (id : String) (v : Visit) (x : PlanError)
        → Visits services visit
        → Only visit (id ∷ v.visiting)
        → lookup id services ≡ some service
        → IsSound services v
        → contains v.visited id ≡ false
        → Above id v.visiting
        → expand visit (some service) id v ≡ err x
        → x ≡ unfinished
    unfolding expand
    expand-Only visit service id v x p o found s n a e =
        let idle = Above-absent id v.visiting a in
        elim (Result-cases (visit_all visit service.depends_on (enter id v))) [
          | inl (t, h) ↦ absurd (cc (rw (idle, h) at e))
          | inr (y, h) ↦
              visit_all-Only visit (id ∷ v.visiting) p o service.depends_on (enter id v) x
                (enter-IsSound services id v s n) refl
                (lower id v.visiting service.depends_on a (ranked id service found))
                (h ∙ rw (idle, h) at e)
        ]

    pub visit_start-Only : (fuel : ℕ) (busy : List String) → Only (visit_start fuel services) busy
    unfolding visit_start
    visit_start-Only zero busy id v x s b r a e = cc e
    visit_start-Only (suc fuel) busy id v x s b r a e = elim (Bool-cases (contains v.visited id)) [
      | inl seen ↦ absurd (cc (rw seen at e))
      | inr new ↦ elim (Option-cases (lookup id services)) [
        | inl missing ↦ absurd (cc (rw missing at r))
        | inr (service, found) ↦
            expand-Only (visit_start fuel services) service id v x (visit_start-Grows services fuel)
              (visit_start-Only fuel (id ∷ v.visiting)) found s new (subst (Above id) (sym b) a)
              (rw (new, found) at e)
      ]
    ]
