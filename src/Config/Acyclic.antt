-- ===== src/Config/Acyclic.antt =====
-- src/adapters/config.rs: a configuration whose dependencies raise no issue has no cycle.
use aku_supervisor.Base.{
  some-injective, suc, String, true, none, some, is_some, List, [], ◌∷◌, All, length, str_eq,
  str_eq_iff, str_eq_refl, Bool-cases, inl, inr, ◌≡◌, refl, subst, arith,
}
use aku_supervisor.Base.Maps.{OrdMap, keys, lookup}
use aku_supervisor.Planning.Sets.{contains}
use aku_supervisor.Config.Types.{ServiceConfig}
use aku_supervisor.Config.Dependencies.{
  Marks, Visited, go_on, visit, search, nothing_marked, visit_keys, visit_registered,
  dependency_cycle, found_cycle, dependency_issues, all_dependency_issues, known_issues,
  depends_path,
}
use aku_supervisor.Config.Search.{Known, Settled, Layered, Fine, visit-Fine, visit_registered-Fine}
use aku_supervisor.Config.PortLists.{append-nil-both}

module _ {V : Type 0} where
  pub keys-known : (m : OrdMap V) → All (λ k. is_some (lookup k m) ≡ true) (keys m)
  unfolding lookup
  keys-known [] = tt
  keys-known ((j, w) ∷ m) = (rw (str_eq_refl j) refl, wider (keys m) (keys-known m))
    where
      wider :
          (ks : List String)
          → All (λ k. is_some (lookup k m) ≡ true) ks
          → All (λ k. is_some (lookup k ((j, w) ∷ m)) ≡ true) ks
      wider [] all = tt
      wider (k ∷ ks) all = (ground (arith, all.0), wider ks all.1)

  pub All-keys :
      (P : String → Type 0) (m : OrdMap V) (id : String)
      → All P (keys m)
      → is_some (lookup id m) ≡ true
      → P id
  unfolding lookup
  All-keys P [] id all known = absurd (cc known)
  All-keys P ((j, w) ∷ m) id all known = elim (Bool-cases (str_eq j id)) [
    | inl hit ↦ subst P ((str_eq_iff j id).0 hit) all.0
    | inr miss ↦ All-keys P m id all.1 (rw miss at known)
  ]

pub same_next :
    (f g : Marks → Visited) (r : Visited) → ((m : Marks) → f m ≡ g m) → go_on f r ≡ go_on g r
same_next f g (Visited.clear m) same = same m
same_next f g (Visited.cycle c) same = refl
same_next f g Visited.unfinished same = refl

module _ {J : Type 0} (services : OrdMap (ServiceConfig J)) where
  -- `visit_keys` on registered services is the loop over dependencies.
  pub visit_keys-registered :
      (visited : String → Marks → Visited) (ids : List String) (m : Marks)
      → All (Known services) ids
      → visit_keys visited ids m ≡ visit_registered visited services ids m
  unfolding visit_keys visit_registered
  visit_keys-registered visited [] m all = refl
  visit_keys-registered visited (id ∷ ids) m all = rw all.0 (
      same_next (visit_keys visited ids) (visit_registered visited services ids) (visited id m)
        (λ m'. visit_keys-registered visited ids m' all.1))

  pub search-Fine : Fine services nothing_marked [] (keys services) (search services)
  unfolding lookup contains
  search-Fine =
      let fuel = suc (length services) in
      rw
        (visit_keys-registered (visit fuel services) (keys services) nothing_marked
          (keys-known services))
        (visit_registered-Fine services (visit fuel services) []
          (visit-Fine services fuel [] tt (omega arith)) (keys services) nothing_marked []
          (record { exact = λ x. refl; layered = tt }) (λ x c. absurd (cc c)))

  pub Fine-Layered :
      (r : Visited)
      → Fine services nothing_marked [] (keys services) r
      → found_cycle r ≡ none
      → (done : List String) × Layered services done × All (Settled services done) (keys services)
  Fine-Layered _ (Fine.cycled c) e = absurd (cc e)
  Fine-Layered _ (Fine.cleared m done g all) e = (done, g.marked.layered, all)

  -- With no cycle reported, every registered service is done.
  pub acyclic :
      dependency_cycle services ≡ none
      → (done : List String) × Layered services done
        × ((id : String) → Known services id → contains done id ≡ true)
  unfolding dependency_cycle
  acyclic e =
      let (done, layered, all) = Fine-Layered (search services) search-Fine e in
      (
        done,
        layered,
        λ id known. elim (All-keys (Settled services done) services id all known) [
          | inl free ↦ absurd (cc (free, known))
          | inr c ↦ c
        ],
      )

  pub known-issue :
      (path id dependency : String)
      → known_issues services path id dependency ≡ []
      → is_some (lookup dependency services) ≡ true
  known-issue path id dependency e = elim (Bool-cases (str_eq dependency id)) [
    | inl self ↦ absurd (cc (rw self at e))
    | inr other ↦ elim (Bool-cases (is_some (lookup dependency services))) [
      | inl known ↦ known
      | inr free ↦ absurd (cc (rw (other, free) at e))
    ]
  ]

  pub dependencies-Known :
      (path id : String) (unique ds : List String)
      → dependency_issues services path id unique ds ≡ []
      → All (Known services) ds
  unfolding dependency_issues
  dependencies-Known path id unique [] e = tt
  dependencies-Known path id unique (d ∷ ds) e =
      let (first, later) = append-nil-both (known_issues services path id d) _ e in
      (
        known-issue path id d first,
        dependencies-Known path id (d ∷ unique) ds (append-nil-both _ _ later).1,
      )

  pub all_dependencies-Known :
      (rest : OrdMap (ServiceConfig J)) (id : String) (service : ServiceConfig J)
      → all_dependency_issues services rest ≡ []
      → lookup id rest ≡ some service
      → All (Known services) service.depends_on
  unfolding all_dependency_issues lookup
  all_dependencies-Known [] id service e found = absurd (cc found)
  all_dependencies-Known ((j, w) ∷ rest) id service e found =
      let (first, later) =
        append-nil-both (dependency_issues services (depends_path j) j [] w.depends_on)
          (all_dependency_issues services rest) e in
      elim (Bool-cases (str_eq j id)) [
        | inl hit ↦
            subst (λ (s : ServiceConfig J). All (Known services) s.depends_on)
              (some-injective (rw hit at found))
              (dependencies-Known (depends_path j) j [] w.depends_on first)
        | inr miss ↦ all_dependencies-Known rest id service later (rw miss at found)
      ]
