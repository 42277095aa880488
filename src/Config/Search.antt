-- ===== src/Config/Search.antt =====
-- src/adapters/config.rs: what the search of `dependency_cycle` has done when it finds no cycle.
use aku_supervisor.Base.{
  ℕ, zero, suc, ◌+◌, ◌<◌, String, true, false, is_some, List, [], ◌∷◌, All, ◌==◌, length,
  str_eq_iff, str_eq_refl, Bool-cases, ◌⊎◌, inl, inr, ◌≡◌, arith,
}
use aku_supervisor.Base.Maps.{OrdMap, lookup, lookup-insert}
use aku_supervisor.Planning.Sets.{contains}
use aku_supervisor.Planning.Fuel.{Chain, length-Chain}
use aku_supervisor.Config.Types.{ServiceConfig}
use aku_supervisor.Config.Dependencies.{
  Marks, Visited, clear, cycle, state_of, push, finish, go_on, visit_registered, dependencies_of,
  visit, cycle_of,
}

module _ {J : Type 0} (services : OrdMap (ServiceConfig J)) where
  abbrev pub Known : String → Type 0
  Known id = is_some (lookup id services) ≡ true

  -- A dependency that is not registered, or is done.
  abbrev pub Settled : List String → String → Type 0
  Settled done d = (is_some (lookup d services) ≡ false) ⊎ (contains done d ≡ true)

  -- Newest first: no service twice, each behind its registered dependencies.
  abbrev pub Layered : List String → Type 0
  Layered [] = Unit
  Layered (id ∷ earlier) =
      (contains earlier id ≡ false)
      × All (Settled earlier) (dependencies_of (lookup id services))
      × Layered earlier

  pub record Marked (m : Marks) (done : List String) : Type 0 where
    pub exact : (x : String) → (state_of (lookup x m.states) == 2) ≡ contains done x
    pub layered : Layered done

  pub record Grows (m m' : Marks) (done done' : List String) : Type 0 where
    pub marked : Marked m' done'
    pub keeps : (x : String) → contains done x ≡ true → contains done' x ≡ true
    pub ones :
        (x : String)
        → (state_of (lookup x m.states) == 1) ≡ true
        → (state_of (lookup x m'.states) == 1) ≡ true

  Grows-trans :
      (m m' m'' : Marks) (done done' done'' : List String)
      → Grows m m' done done'
      → Grows m' m'' done' done''
      → Grows m m'' done done''
  Grows-trans m m' m'' done done' done'' g h = record {
    marked = h.marked;
    keeps = λ x c. h.keeps x (g.keeps x c);
    ones = λ x c. h.ones x (g.ones x c);
  }

  -- The search ended, and with no cycle the given services are done.
  pub data Fine (m : Marks) (done ids : List String) : Visited → Type 0 where
    cleared :
        (m' : Marks) (done' : List String)
        → Grows m m' done done'
        → All (Settled done') ids
        → Fine m done ids (clear m')
    cycled : (c : List String) → Fine m done ids (cycle c)

  abbrev pub Busy : List String → Marks → Type 0
  Busy busy m = (x : String) → contains busy x ≡ true → (state_of (lookup x m.states) == 1) ≡ true

  abbrev pub Visits : (String → Marks → Visited) → List String → Type 0
  Visits visited busy =
      (id : String) (m : Marks) (done : List String)
      → Marked m done
      → Busy busy m
      → Known id
      → Fine m done (id ∷ []) (visited id m)

  keeps-Settled :
      (done done' ids : List String)
      → ((x : String) → contains done x ≡ true → contains done' x ≡ true)
      → All (Settled done) ids
      → All (Settled done') ids
  keeps-Settled done done' [] keeps all = tt
  keeps-Settled done done' (id ∷ ids) keeps all = (
    elim all.0 [ inl free ↦ inl free | inr c ↦ inr (keeps id c) ],
    keeps-Settled done done' ids keeps all.1,
  )

  then-Fine :
      (m m' : Marks) (done done' : List String) (id : String) (ids : List String) (r : Visited)
      → Grows m m' done done'
      → Settled done' id
      → Fine m' done' ids r
      → Fine m done (id ∷ ids) r
  then-Fine m m' done done' id ids _ g here (Fine.cleared m'' done'' h all) =
      Fine.cleared m'' done'' (Grows-trans m m' m'' done done' done'' g h)
        ((elim here [ inl free ↦ inl free | inr c ↦ inr (h.keeps id c) ]), all)
  then-Fine m m' done done' id ids _ g here (Fine.cycled c) = Fine.cycled c

  Grows-refl : (m : Marks) (done : List String) → Marked m done → Grows m m done done
  Grows-refl m done marked = record { marked = marked; keeps = λ x c. c; ones = λ x c. c }

  on-Fine :
      (visited : String → Marks → Visited) (m : Marks) (done : List String) (id : String)
      (ids : List String) (r : Visited)
      → Fine m done (id ∷ []) r
      → ((m' : Marks) (done' : List String)
          → Grows m m' done done'
          → Fine m' done' ids (visit_registered visited services ids m'))
      → Fine m done (id ∷ ids) (go_on (visit_registered visited services ids) r)
  on-Fine visited m done id ids _ (Fine.cycled c) rest = Fine.cycled c
  on-Fine visited m done id ids _ (Fine.cleared m' done' g all) rest =
      then-Fine m m' done done' id ids _ g all.0 (rest m' done' g)

  pub visit_registered-Fine :
      (visited : String → Marks → Visited) (busy : List String)
      → Visits visited busy
      → (ids : List String) (m : Marks) (done : List String) → Marked m done
      → Busy busy m
      → Fine m done ids (visit_registered visited services ids m)
  unfolding visit_registered
  visit_registered-Fine visited busy good [] m done marked ones =
      Fine.cleared m done (Grows-refl m done marked) tt
  visit_registered-Fine visited busy good (id ∷ ids) m done marked ones =
      elim (Bool-cases (is_some (lookup id services))) [
        | inr free ↦ rw free (
            then-Fine m m done done id ids _ (Grows-refl m done marked) (inl free)
              (visit_registered-Fine visited busy good ids m done marked ones))
        | inl known ↦ rw known (
            on-Fine visited m done id ids (visited id m) (good id m done marked ones known)
              (λ m' done' g.
                visit_registered-Fine visited busy good ids m' done' g.marked
                  (λ x c. g.ones x (ones x c))))
      ]

  push-Marked :
      (id : String) (m : Marks) (done : List String)
      → Marked m done
      → (state_of (lookup id m.states) == 2) ≡ false
      → Marked (push id m) done
  push-Marked id m done marked new = record {
    exact =
        λ x. ground (arith, lookup-insert id x 1 m.states, marked.exact x, new, str_eq_iff id x);
    layered = marked.layered;
  }

  finish-Fine :
      (id : String) (m : Marks) (done : List String) (r : Visited)
      → (state_of (lookup id m.states) == 1) ≡ false
      → Fine (push id m) done (dependencies_of (lookup id services)) r
      → Fine m done (id ∷ []) (finish id r)
  unfolding contains
  finish-Fine id m done _ idle (Fine.cycled c) = Fine.cycled c
  finish-Fine id m done _ idle (Fine.cleared m' done' g all) =
      Fine.cleared _ (id ∷ done')
        (record {
          marked = record {
            exact = λ x.
                ground (arith, lookup-insert id x 2 m'.states, g.marked.exact x, str_eq_iff id x);
            layered = (
              ground (
                arith,
                g.marked.exact id,
                g.ones id (ground (arith, lookup-insert id id 1 m.states, str_eq_refl id)),
              ),
              all,
              g.marked.layered,
            );
          };
          keeps = λ x c. ground (arith, g.keeps x c);
          ones = λ x c. ground (
            arith,
            lookup-insert id x 2 m'.states,
            lookup-insert id x 1 m.states,
            g.ones x,
            str_eq_iff id x,
            idle,
            c,
          );
        })
        (inr (ground (arith, str_eq_refl id)), tt)

  Busy-absent :
      (busy : List String) (id : String) (m : Marks)
      → Busy busy m
      → (state_of (lookup id m.states) == 1) ≡ false
      → contains busy id ≡ false
  Busy-absent busy id m ones idle = ground (arith, ones id)

  push-Busy :
      (busy : List String) (id : String) (m : Marks) → Busy busy m → Busy (id ∷ busy) (push id m)
  unfolding contains
  push-Busy busy id m ones x c =
      ground (arith, lookup-insert id x 1 m.states, str_eq_iff id x, ones x, c)

  -- With enough fuel a visit ends, and with no cycle it leaves its service done.
  pub visit-Fine :
      (fuel : ℕ) (busy : List String)
      → Chain services busy
      → length services < fuel + length busy
      → Visits (visit fuel services) busy
  unfolding visit
  visit-Fine zero busy chain enough id m done marked ones known =
      absurd (omega (arith, length-Chain services busy chain))
  visit-Fine (suc fuel) busy chain enough id m done marked ones known =
      elim (Bool-cases (state_of (lookup id m.states) == 2)) [
        | inl over ↦ rw over (
            Fine.cleared m done (Grows-refl m done marked)
              (inr (ground (arith, marked.exact id, over)), tt))
        | inr new ↦ elim (Bool-cases (state_of (lookup id m.states) == 1)) [
          | inl again ↦ rw (new, again) (Fine.cycled (cycle_of id m.stack))
          | inr idle ↦
              rw (new, idle)
                (finish-Fine id m done _ idle (
                  visit_registered-Fine (visit fuel services) (id ∷ busy)
                    (visit-Fine fuel (id ∷ busy) (Busy-absent busy id m ones idle, known, chain)
                      (omega arith))
                    (dependencies_of (lookup id services)) (push id m) done
                    (push-Marked id m done marked new) (push-Busy busy id m ones)))
        ]
      ]
