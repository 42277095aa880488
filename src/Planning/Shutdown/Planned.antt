-- ===== src/Planning/Shutdown/Planned.antt =====
-- src/application/dependency_control.rs: the order of `stable_shutdown_order` as a whole.
use aku_supervisor.Base.{
  ℕ, suc, ◌<◌, String, true, false, ◌||◌, some, is_some, List, [], ◌∷◌, ◌++◌, All, ok, length,
  str_eq_refl, ◌⊎◌, ◌≡◌, refl, sym, ap, ◌∙◌, arith,
}
use aku_supervisor.Base.Maps.{OrdMap, lookup}
use aku_supervisor.Base.Keys.{Distinct, occurs}
use aku_supervisor.Registry.Types.{ServiceSnapshot}
use aku_supervisor.Planning.Shutdown.{
  Graph, no_graph, empty_graph, positions_from, first_ready, sort_by_position, complete, shut_graph,
  plan_shutdown, stable_shutdown_order,
}
use aku_supervisor.Planning.Shutdown.Open.{occ, waiting}
use aku_supervisor.Planning.Shutdown.Rounds.{Counted, Kept, Behind, Ahead, sort-Kept}
use aku_supervisor.Planning.Shutdown.Loop.{shut-Ended}
use aku_supervisor.Planning.Shutdown.Setup.{ids_of, Tallied, some_of}
use aku_supervisor.Planning.Shutdown.Start.{Declared, note_services-Noted, empty_graph-Emptied}
use aku_supervisor.Planning.Shutdown.Counting.{occurs-occ, occ-Distinct, length-All}
use aku_supervisor.Planning.Shutdown.Ready.{first_ready-Kept}
use aku_supervisor.Planning.Shutdown.Ordered.{Behind-lookup, Descends, Entered, ordered_all}

all_occ : (P : String → Type 0) (xs : List String) → ((x : String) → 0 < occ x xs → P x) → All P xs
unfolding occ
all_occ P [] f = tt
all_occ P (x ∷ xs) f =
    (f x (ground (arith, str_eq_refl x)), all_occ P xs (λ y more. f y (ground (arith, more))))

no_graph-Tallied : Tallied no_graph
unfolding lookup
no_graph-Tallied = record {
  unique = tt;
  listed = λ x. refl;
  counted = λ x n e. absurd (cc e);
  known = λ x ds e. absurd (cc e);
}

none_waiting : (x : String) → waiting x [] no_graph.dependencies ≡ 0
unfolding waiting
none_waiting x = refl

blank_keys :
    (x : String) (ids : List String)
    → (occurs x ids || is_some (lookup x no_graph.counts)) ≡ occurs x ids
unfolding lookup
blank_keys x ids = ground arith

counted_ids :
    (c : OrdMap ℕ) (ids : List String) (rank : String → ℕ) (n : ℕ) (ds : List String)
    → ((x : String) → is_some (lookup x c) ≡ occurs x ids)
    → All (λ d. (occurs d ids ≡ true) × (rank d < n)) ds
    → All (Counted c) ds
counted_ids c ids rank n [] keys all = tt
counted_ids c ids rank n (d ∷ ds) keys all =
    (keys d ∙ all.0.0, counted_ids c ids rank n ds keys all.1)

module _ {J : Type 0} where
  -- Each service of the list comes after every service that declares a dependency on it.
  abbrev pub Served : List (ServiceSnapshot J) → List String → List String → Type 0
  Served ss seen [] = Unit
  Served ss seen (id ∷ rest) =
      All (λ s. (occ id s.depends_on ≡ 0) ⊎ (0 < occ s.id seen)) ss
      × Served ss (seen ++ (id ∷ [])) rest

  pub record IsShutdownOrder (ss : List (ServiceSnapshot J)) (order : List String) : Type 0 where
    pub distinct : Distinct order
    pub registered : All (λ id. occurs id (ids_of ss) ≡ true) order
    pub all_services : All (λ id. occurs id order ≡ true) (ids_of ss)
    pub served : Served ss [] order

  Behind-Served :
      (g : Graph) (seen : List String) (id : String) (ss : List (ServiceSnapshot J))
      → Behind g.dependencies seen id g.dependencies
      → All (Declared g) ss
      → All (λ s. (occ id s.depends_on ≡ 0) ⊎ (0 < occ s.id seen)) ss
  Behind-Served g seen id [] behind all = tt
  Behind-Served g seen id (s ∷ ss) behind all = (
    Behind-lookup g.dependencies seen id s.id s.depends_on g.dependencies behind all.0,
    Behind-Served g seen id ss behind all.1,
  )

  Ahead-Served :
      (g : Graph) (ss : List (ServiceSnapshot J)) (seen order : List String)
      → All (Declared g) ss
      → Ahead g.dependencies seen order
      → Served ss seen order
  Ahead-Served g ss seen [] all ahead = tt
  Ahead-Served g ss seen (id ∷ rest) all ahead = (
    Behind-Served g seen id ss ahead.0 all,
    Ahead-Served g ss (seen ++ (id ∷ [])) rest all ahead.1,
  )

  combined :
      (ss : List (ServiceSnapshot J)) (rank : String → ℕ) (g : Graph)
      (rest : List (ServiceSnapshot J))
      → All (Descends ss rank) rest
      → All (Declared g) rest
      → All (Entered ss rank g.dependencies) rest
  combined ss rank g [] deps all = tt
  combined ss rank g (s ∷ rest) deps all = ((deps.0, all.0), combined ss rank g rest deps.1 all.1)

  length-ids : (ss : List (ServiceSnapshot J)) → length (ids_of ss) ≡ length ss
  length-ids [] = refl
  length-ids (s ∷ ss) = ap suc (length-ids ss)

  none_new :
      (ss : List (ServiceSnapshot J)) → All (λ s. is_some (lookup s.id no_graph.counts) ≡ false) ss
  unfolding lookup
  none_new [] = tt
  none_new (s ∷ ss) = (refl, none_new ss)

  counted_deps :
      (ss : List (ServiceSnapshot J)) (rank : String → ℕ) (c : OrdMap ℕ)
      (rest : List (ServiceSnapshot J))
      → ((x : String) → is_some (lookup x c) ≡ occurs x (ids_of ss))
      → All (Descends ss rank) rest
      → All (λ s. All (Counted c) s.depends_on) rest
  counted_deps ss rank c [] keys deps = tt
  counted_deps ss rank c (s ∷ rest) keys deps = (
    counted_ids c (ids_of ss) rank (rank s.id) s.depends_on keys deps.0,
    counted_deps ss rank c rest keys deps.1,
  )

module _ {J : Type 0} (ss : List (ServiceSnapshot J)) (rank : String → ℕ) (g : Graph) where
  -- An end of the loop at which every registered service is in the order.
  closed_order :
      (order : List String) (counts : OrdMap ℕ)
      → Distinct (ids_of ss)
      → All (Descends ss rank) ss
      → All (Declared g) ss
      → Tallied g
      → ((x : String) → is_some (lookup x g.counts) ≡ occurs x (ids_of ss))
      → Ahead g.dependencies [] order
      → Kept g.dependencies order (record { counts = counts; ready = [] }) []
      → ((x : String) → is_some (lookup x counts) ≡ is_some (lookup x g.counts))
      → IsShutdownOrder ss order
  unfolding occ
  closed_order order counts distinct deps declared t keys ahead kept same =
      let offered : (x : String)
          → occurs x (ids_of ss) ≡ true
          → waiting x order g.dependencies ≡ 0
          → 0 < occ x order =
        λ x there idle.
          let (n, found) = some_of (lookup x counts) (same x ∙ (keys x ∙ there)) in
          let zero_left : n ≡ 0 = omega (arith, kept.counted x n found, idle) in
          omega (arith, kept.offered x (found ∙ ap some zero_left)) in
      let all_in =
        ordered_all ss rank g.dependencies order t.unique (combined ss rank g ss deps declared)
          (λ x. t.listed x ∙ keys x) offered in
      record {
        distinct = occ-Distinct order (λ x. omega (arith, kept.once x));
        registered =
            all_occ (λ id. occurs id (ids_of ss) ≡ true) order
              (λ x more.
                sym (keys x) ∙ (sym (same x) ∙ rw (kept.drained x (omega (arith, more))) refl));
        all_services =
            all_occ (λ id. occurs id order ≡ true) (ids_of ss)
              (λ x more.
                ground (arith, occurs-occ x (ids_of ss), occurs-occ x order, all_in x, more));
        served = Ahead-Served g ss [] order declared ahead;
      }

  complete_ok :
      (order : List String)
      → Distinct (ids_of ss)
      → IsShutdownOrder ss order
      → complete (length ss) order ≡ ok order
  complete_ok order distinct o = ground (
    arith,
    length-ids ss,
    length-All order (ids_of ss) o.distinct distinct o.registered,
    length-All (ids_of ss) order distinct o.distinct o.all_services,
  )

  shut_graph-IsShutdownOrder :
      Distinct (ids_of ss)
      → All (Descends ss rank) ss
      → All (Declared g) ss
      → Tallied g
      → ((x : String) → is_some (lookup x g.counts) ≡ occurs x (ids_of ss))
      → (order : List String) × (shut_graph ss g ≡ ok order) × IsShutdownOrder ss order
  unfolding occ
  shut_graph-IsShutdownOrder distinct deps declared t keys =
      let positions = positions_from 0 [] ss in
      let kept =
        sort-Kept g.dependencies positions []
          (record { counts = g.counts; ready = first_ready g.counts ss })
          (first_ready-Kept g.counts ss g.dependencies t distinct keys) in
      let e =
        shut-Ended positions g.counts g.dependencies t.unique t.listed t.known
          (suc (length g.counts)) [] [] (sort_by_position positions (first_ready g.counts ss))
          g.counts kept (λ x. refl) tt (λ x. refl) (omega arith) in
      let o = closed_order e.rest e.counts distinct deps declared t keys e.ahead e.kept e.same in
      (e.rest, rw e.result (complete_ok e.rest distinct o), o)

-- With snapshots of distinct ids whose dependencies are registered and of lower rank than the services
-- that declare them, the shutdown order is returned; it holds every service once and no other, each
-- after all services that declare a dependency on it.
pub stable_shutdown_order_total :
    {J : Type 0} (ss : List (ServiceSnapshot J)) (rank : String → ℕ)
    → Distinct (ids_of ss)
    → All (Descends ss rank) ss
    → (order : List String) × (stable_shutdown_order ss ≡ ok order) × IsShutdownOrder ss order
unfolding stable_shutdown_order plan_shutdown
stable_shutdown_order_total ss rank distinct deps =
    let e =
      empty_graph-Emptied ss no_graph no_graph-Tallied (λ x. none_waiting x) distinct
        (none_new ss) in
    let keys = λ (x : String). e.keys x ∙ blank_keys x (ids_of ss) in
    let (g, noted, n) =
      note_services-Noted ss (empty_graph no_graph ss) e.tallied distinct e.fresh
        (counted_deps ss rank (empty_graph no_graph ss).counts ss keys deps) in
    let (order, computed, o) =
      shut_graph-IsShutdownOrder ss rank g distinct deps n.declared n.tallied
        (λ x. n.keys x ∙ keys x) in
    (order, rw (noted, computed) refl, o)
