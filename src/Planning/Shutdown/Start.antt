-- ===== src/Planning/Shutdown/Start.antt =====
-- src/application/dependency_control.rs: the graph that `stable_shutdown_order` builds from snapshots.
use aku_supervisor.Base.{
  ℕ, ◌+◌, String, false, ◌||◌, some, is_some, List, [], ◌∷◌, All, ok, length, if◌then◌else◌, str_eq,
  str_eq_refl, str_eq_iff, ◌≡◌, refl, ◌∙◌, arith,
}
use aku_supervisor.Base.Maps.{OrdMap, lookup, lookup-insert}
use aku_supervisor.Base.Keys.{Distinct, occurs, length-insert}
use aku_supervisor.Registry.Types.{ServiceSnapshot}
use aku_supervisor.Planning.Shutdown.{Graph, empty_graph, note_services}
use aku_supervisor.Planning.Shutdown.Open.{waiting}
use aku_supervisor.Planning.Shutdown.Rounds.{Counted}
use aku_supervisor.Planning.Shutdown.Blank.{blank, none_of, blank-Tallied}
use aku_supervisor.Planning.Shutdown.Setup.{
  ids_of, Tallied, Grown, note_all-Grown, waiting-insert, All-grow,
}

module _ {J : Type 0} where
  abbrev pub Declared : Graph → ServiceSnapshot J → Type 0
  Declared g s = lookup s.id g.dependencies ≡ some s.depends_on

  abbrev Fresh : Graph → ServiceSnapshot J → Type 0
  Fresh g s = lookup s.id g.dependencies ≡ some []

  pub record Noted (ss : List (ServiceSnapshot J)) (g g' : Graph) : Type 0 where
    pub tallied : Tallied g'
    pub keys : (x : String) → is_some (lookup x g'.counts) ≡ is_some (lookup x g.counts)
    pub declared : All (Declared g') ss
    pub others :
        (x : String)
        → occurs x (ids_of ss) ≡ false
        → lookup x g'.dependencies ≡ lookup x g.dependencies

  still-Fresh :
      (id : String) (ds : List String) (g g' : Graph) (ss : List (ServiceSnapshot J))
      → Grown id ds g g'
      → occurs id (ids_of ss) ≡ false
      → All (Fresh g) ss
      → All (Fresh g') ss
  unfolding occurs
  still-Fresh id ds g g' [] grown new all = tt
  still-Fresh id ds g g' (s ∷ ss) grown new all = (
    grown.others s.id (ground (arith, new, str_eq_iff id s.id, str_eq_iff s.id id)) ∙ all.0,
    still-Fresh id ds g g' ss grown (ground (arith, new)) all.1,
  )

  still_counted :
      (c c' : OrdMap ℕ) (ss : List (ServiceSnapshot J))
      → ((x : String) → is_some (lookup x c') ≡ is_some (lookup x c))
      → All (λ s. All (Counted c) s.depends_on) ss
      → All (λ s. All (Counted c') s.depends_on) ss
  still_counted c c' [] same all = tt
  still_counted c c' (s ∷ ss) same all =
      (All-grow c c' s.depends_on (λ y e. same y ∙ e) all.0, still_counted c c' ss same all.1)

  pub note_services-Noted :
      (ss : List (ServiceSnapshot J)) (g : Graph)
      → Tallied g
      → Distinct (ids_of ss)
      → All (Fresh g) ss
      → All (λ s. All (Counted g.counts) s.depends_on) ss
      → (g' : Graph) × (note_services ss g ≡ ok g') × Noted ss g g'
  unfolding note_services occurs
  note_services-Noted [] g t d fresh known =
      (g, refl, record { tallied = t; keys = λ x. refl; declared = tt; others = λ x e. refl })
  note_services-Noted (s ∷ ss) g t d fresh known =
      let (g1, computed, grown) = note_all-Grown s.id s.depends_on g t (rw fresh.0 refl) known.0 in
      let (g', later, noted) =
        note_services-Noted ss g1 grown.tallied d.1
          (still-Fresh s.id s.depends_on g g1 ss grown d.0 fresh.1)
          (still_counted g.counts g1.counts ss grown.keys known.1) in
      (
        g',
        rw computed later,
        record {
          tallied = noted.tallied;
          keys = λ x. noted.keys x ∙ grown.keys x;
          declared = (noted.others s.id d.0 ∙ grown.mine [] fresh.0, noted.declared);
          others = λ x e. noted.others x (ground (arith, e)) ∙ grown.others x (ground (arith, e));
        },
      )

  pub record Emptied (ss : List (ServiceSnapshot J)) (g g' : Graph) : Type 0 where
    pub tallied : Tallied g'
    pub idle : (x : String) → waiting x [] g'.dependencies ≡ 0
    pub fresh : All (Fresh g') ss
    pub keys :
        (x : String)
        → is_some (lookup x g'.counts) ≡ (occurs x (ids_of ss) || is_some (lookup x g.counts))
    pub size : length g'.counts ≡ length ss + length g.counts
    pub others :
        (x : String)
        → occurs x (ids_of ss) ≡ false
        → lookup x g'.dependencies ≡ lookup x g.dependencies

  still_new :
      (id : String) (g : Graph) (ss : List (ServiceSnapshot J))
      → occurs id (ids_of ss) ≡ false
      → All (λ s. is_some (lookup s.id g.counts) ≡ false) ss
      → All (λ s. is_some (lookup s.id (blank id g).counts) ≡ false) ss
  unfolding occurs
  still_new id g [] d new = tt
  still_new id g (s ∷ ss) d new = (
    ground
        (arith, lookup-insert id s.id 0 g.counts, d, new.0, str_eq_iff id s.id, str_eq_iff s.id id),
    still_new id g ss (ground (arith, d)) new.1,
  )

  miss_of :
      (id x : String) (g : Graph) (ss : List (ServiceSnapshot J))
      → (str_eq id x || occurs x (ids_of ss)) ≡ false
      → (if str_eq id x then some [] else lookup x g.dependencies) ≡ lookup x g.dependencies
  miss_of id x g ss n = ground (arith, n)

  pub empty_graph-Emptied :
      (ss : List (ServiceSnapshot J)) (g : Graph)
      → Tallied g
      → ((x : String) → waiting x [] g.dependencies ≡ 0)
      → Distinct (ids_of ss)
      → All (λ s. is_some (lookup s.id g.counts) ≡ false) ss
      → Emptied ss g (empty_graph g ss)
  unfolding empty_graph occurs
  empty_graph-Emptied [] g t idle d new = record {
    tallied = t;
    idle = idle;
    fresh = tt;
    keys = λ x. refl;
    size = omega arith;
    others = λ x e. refl;
  }
  empty_graph-Emptied (s ∷ ss) g t idle d new =
      let free = none_of (lookup s.id g.dependencies) (t.listed s.id ∙ new.0) in
      let e =
        empty_graph-Emptied ss (blank s.id g) (blank-Tallied s.id g t idle new.0)
          (λ x. waiting-insert x s.id g.dependencies free ∙ idle x) d.1
          (still_new s.id g ss d.0 new.1) in
      record {
        tallied = e.tallied;
        idle = e.idle;
        fresh = (
          e.others s.id d.0
              ∙ (lookup-insert s.id s.id [] g.dependencies ∙ rw (str_eq_refl s.id) refl),
          e.fresh,
        );
        keys = λ x. ground (arith, e.keys x, lookup-insert s.id x 0 g.counts);
        size =
            omega
              (arith, e.size, length-insert s.id 0 g.counts (none_of (lookup s.id g.counts) new.0));
        others = λ x n.
            e.others x (ground (arith, n))
            ∙ (lookup-insert s.id x [] g.dependencies ∙ miss_of s.id x g ss n);
      }
