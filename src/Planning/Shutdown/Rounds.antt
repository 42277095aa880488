-- ===== src/Planning/Shutdown/Rounds.antt =====
-- src/application/dependency_control.rs: the rounds of `stable_shutdown_order`.
use aku_supervisor.Base.{
  ℕ, zero, suc, ◌+◌, ◌-◌, ◌≤◌, ◌<◌, String, true, Option, some, is_some, List, [], ◌∷◌, ◌++◌, ◌==◌,
  All, ok, if◌then◌else◌, str_eq, str_eq_iff, str_eq_refl, Bool-cases, Option-cases, inl, inr, ◌⊎◌,
  ◌≡◌, refl, subst, ◌∙◌, arith,
}
use aku_supervisor.Base.Maps.{OrdMap, lookup, update}
use aku_supervisor.Base.Keys.{Unique, lookup-update}
use aku_supervisor.Planning.Shutdown.{Round, lower_all, sort_by_position}
use aku_supervisor.Planning.Shutdown.Open.{
  occ, occ-append, occ-sort_by_position, waiting, waiting-take,
}

abbrev pub Counted : OrdMap ℕ → String → Type 0
Counted counts d = is_some (lookup d counts) ≡ true

module _ (D : OrdMap (List String)) where
  -- Between two steps: `closed` was ordered, and `rest` of the last one's dependencies are still to
  -- be lowered.
  pub record Kept (closed : List String) (r : Round) (rest : List String) : Type 0 where
    pub counted :
        (x : String) (n : ℕ) → lookup x r.counts ≡ some n → n ≡ waiting x closed D + occ x rest
    pub once : (x : String) → occ x r.ready + occ x closed ≤ 1
    pub drained : (x : String) → 0 < occ x r.ready + occ x closed → lookup x r.counts ≡ some 0
    pub offered : (x : String) → lookup x r.counts ≡ some 0 → 0 < occ x r.ready + occ x closed

  pub record Lowered (closed : List String) (r r' : Round) (rest : List String) : Type 0 where
    pub kept : Kept closed r' rest
    pub counts : (x : String) → is_some (lookup x r'.counts) ≡ is_some (lookup x r.counts)

  at_same :
      (d x : String) (m : OrdMap ℕ) (o : Option ℕ)
      → str_eq d x ≡ true
      → lookup d m ≡ o
      → lookup x m ≡ o
  at_same d x m o hit found = subst (λ (z : String). lookup z m ≡ o) ((str_eq_iff d x).0 hit) found

  lowered : String → ℕ → Round → Round
  lowered d n r = record {
    counts = update d (λ count. count - 1) r.counts;
    ready = if n == 0 then r.ready ++ (d ∷ []) else r.ready;
  }

  ready-occ :
      (x d : String) (n : ℕ) (r : Round)
      → occ x (lowered d n r).ready
        ≡ (if n == 0 then occ x r.ready + occ x (d ∷ []) else occ x r.ready)
  unfolding lowered
  ready-occ x d n r = ground (arith, occ-append x r.ready (d ∷ []))

  lowered-count :
      (x d : String) (n : ℕ) (r : Round)
      → lookup d r.counts ≡ some (suc n)
      → lookup x (lowered d n r).counts ≡ (if str_eq d x then some n else lookup x r.counts)
  unfolding lowered
  lowered-count x d n r found = elim (Bool-cases (str_eq d x)) [
    | inr miss ↦ rw (lookup-update d x (λ count. count - 1) r.counts, miss) refl
    | inl hit ↦
        let there = at_same d x r.counts (some (suc n)) hit found in
        let less : suc n - 1 ≡ n = omega arith in
        rw (lookup-update d x (λ count. count - 1) r.counts, hit, there, less) refl
  ]

  lower-Lowered :
      (closed : List String) (r : Round) (d : String) (rest : List String) (n : ℕ)
      → Kept closed r (d ∷ rest)
      → lookup d r.counts ≡ some (suc n)
      → Lowered closed r (lowered d n r) rest
  unfolding occ
  lower-Lowered closed r d rest n kept found = record {
    kept = record {
      counted = λ x k e. elim (Bool-cases (str_eq d x)) [
        | inl hit ↦
            let was = kept.counted x (suc n) (at_same d x r.counts (some (suc n)) hit found) in
            ground (arith, lowered-count x d n r found, hit, e, was)
        | inr miss ↦
            let was = kept.counted x k (ground (arith, lowered-count x d n r found, miss, e)) in
            ground (arith, miss, was)
      ];
      once = λ x.
          ground (arith, ready-occ x d n r, kept.once x, kept.drained x, str_eq_iff d x, found);
      drained = λ x h. ground (
        arith,
        lowered-count x d n r found,
        str_eq_iff d x,
        found,
        ready-occ x d n r,
        kept.drained x,
        h,
      );
      offered = λ x e. ground (
        arith,
        lowered-count x d n r found,
        str_eq_iff d x,
        found,
        ready-occ x d n r,
        kept.offered x,
        e,
      );
    };
    counts = λ x. ground (arith, lowered-count x d n r found, str_eq_iff d x, found);
  }

  pub transport-Counted :
      (c c' : OrdMap ℕ) (ds : List String)
      → ((x : String) → is_some (lookup x c') ≡ is_some (lookup x c))
      → All (Counted c) ds
      → All (Counted c') ds
  transport-Counted c c' [] same all = tt
  transport-Counted c c' (d ∷ ds) same all = (same d ∙ all.0, transport-Counted c c' ds same all.1)

  -- The loop over dependencies ends, and no count falls below 0.
  pub lower_all-Lowered :
      (closed ds : List String) (r : Round)
      → Kept closed r ds
      → All (Counted r.counts) ds
      → (r' : Round) × (lower_all ds r ≡ ok r') × Lowered closed r r' []
  unfolding lower_all lowered occ
  lower_all-Lowered closed [] r kept all = (r, refl, record { kept = kept; counts = λ x. refl })
  lower_all-Lowered closed (d ∷ ds) r kept all = elim (Option-cases (lookup d r.counts)) [
    | inl missing ↦ absurd (cc (missing, all.0))
    | inr (zero, found) ↦
        let was = kept.counted d 0 found in absurd (ground (arith, was, str_eq_refl d))
    | inr (suc n, found) ↦
        let step = lower-Lowered closed r d ds n kept found in
        let (r', rest, low) =
          lower_all-Lowered closed ds (lowered d n r) step.kept
            (transport-Counted r.counts (lowered d n r).counts ds step.counts all.1) in
        (r', rw found rest, record { kept = low.kept; counts = λ x. low.counts x ∙ step.counts x })
  ]

  -- Everything that declares a dependency on the service is among those seen.
  abbrev pub Behind : List String → String → OrdMap (List String) → Type 0
  Behind seen id [] = Unit
  Behind seen id ((s, ds) ∷ m) = ((occ id ds ≡ 0) ⊎ (0 < occ s seen)) × Behind seen id m

  pub waiting-Behind :
      (seen : List String) (id : String) (m : OrdMap (List String))
      → waiting id seen m ≡ 0
      → Behind seen id m
  unfolding waiting
  waiting-Behind seen id [] e = tt
  waiting-Behind seen id ((s, ds) ∷ m) e = (
    elim (Bool-cases (occ s seen == 0)) [
      | inl unseen ↦ inl (ground (arith, e, unseen))
      | inr seen_before ↦ inr (ground (arith, seen_before))
    ],
    waiting-Behind seen id m (omega (arith, e)),
  )

  -- Each service of a list stands behind all that declare a dependency on it.
  abbrev pub Ahead : List String → List String → Type 0
  Ahead seen [] = Unit
  Ahead seen (id ∷ rest) = Behind seen id D × Ahead (seen ++ (id ∷ [])) rest

  pub take-Kept :
      (ordered : List String) (id : String) (ready ds : List String) (c : OrdMap ℕ)
      → Unique D
      → Kept ordered (record { counts = c; ready = id ∷ ready }) []
      → lookup id D ≡ some ds
      → Kept (ordered ++ (id ∷ [])) (record { counts = c; ready = ready }) ds
  unfolding occ
  take-Kept ordered id ready ds c unique kept found =
      let new : occ id ordered ≡ 0 = ground (arith, kept.once id, str_eq_refl id) in
      record {
        counted = λ x n e.
            omega (arith, kept.counted x n e, waiting-take x id ordered ds D unique new found);
        once = λ x. ground (arith, occ-append x ordered (id ∷ []), kept.once x);
        drained = λ x h. kept.drained x (ground (arith, occ-append x ordered (id ∷ []), h));
        offered = λ x e. ground (arith, occ-append x ordered (id ∷ []), kept.offered x e);
      }

  pub sort-Kept :
      (positions : OrdMap ℕ) (closed : List String) (r : Round)
      → Kept closed r []
      → Kept closed (record { counts = r.counts; ready = sort_by_position positions r.ready }) []
  sort-Kept positions closed r kept = record {
    counted = kept.counted;
    once = λ x. rw (occ-sort_by_position positions x r.ready) (kept.once x);
    drained = λ x h. kept.drained x (rw (occ-sort_by_position positions x r.ready) at h);
    offered = λ x e. rw (occ-sort_by_position positions x r.ready) (kept.offered x e);
  }
