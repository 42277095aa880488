-- ===== src/Planning/Shutdown/Loop.antt =====
-- src/application/dependency_control.rs: the loop of `stable_shutdown_order` ends, and each service
-- is ordered behind those that depend on it.
use aku_supervisor.Base.{
  ℕ, zero, suc, ◌+◌, ◌<◌, String, true, false, Option, none, some, is_some, List, [], ◌∷◌, ◌++◌,
  All, Result, ok, length, str_eq_refl, ◌≡◌, refl, sym, ap, subst, ◌∙◌, arith,
}
use mathlib.Core.List.{append_assoc, append-nil}
use aku_supervisor.Base.Maps.{OrdMap, lookup}
use aku_supervisor.Base.Keys.{Unique}
use aku_supervisor.Planning.Sets.{contains}
use aku_supervisor.Planning.Fuel.{Chain, length-Chain}
use aku_supervisor.Planning.Shutdown.{ShutdownError, shut, sort_by_position}
use aku_supervisor.Planning.Shutdown.Open.{occ, occ-append, waiting}
use aku_supervisor.Planning.Shutdown.Rounds.{
  Counted, Kept, transport-Counted, lower_all-Lowered, Behind, waiting-Behind, Ahead, take-Kept,
  sort-Kept,
}

occ-contains : (x : String) (xs : List String) → occ x xs ≡ 0 → contains xs x ≡ false
unfolding occ contains
occ-contains x [] e = refl
occ-contains x (y ∷ ys) e = ground (arith, e, occ-contains x ys)

occ_head : (id : String) (ready : List String) → 0 < occ id (id ∷ ready)
unfolding occ
occ_head id ready = ground (arith, str_eq_refl id)

copied :
    (x id : String) (done ordered : List String)
    → occ x done ≡ occ x ordered
    → occ x (id ∷ done) ≡ occ x (ordered ++ (id ∷ []))
unfolding occ
copied x id done ordered e = ground (arith, e, occ-append x ordered (id ∷ []))

some_of : {A : Type 0} (o : Option A) → is_some o ≡ true → (a : A) × (o ≡ some a)
some_of (some a) e = (a, refl)
some_of none e = absurd (cc e)

module _ (positions M : OrdMap ℕ) (D : OrdMap (List String)) (unique : Unique D)
    (listed : (x : String) → is_some (lookup x D) ≡ is_some (lookup x M))
    (known : (x : String) (ds : List String) → lookup x D ≡ some ds → All (Counted M) ds) where
  -- How the loop ended: with the rest of the order, and nothing ready.
  pub record Ended (ordered : List String) (r : Result ShutdownError (List String)) : Type 0 where
    pub rest : List String
    pub result : r ≡ ok (ordered ++ rest)
    pub ahead : Ahead D ordered rest
    pub counts : OrdMap ℕ
    pub kept : Kept D (ordered ++ rest) (record { counts = counts; ready = [] }) []
    pub same : (x : String) → is_some (lookup x counts) ≡ is_some (lookup x M)

  nothing_waiting :
      (id : String) (ordered : List String)
      → 0 ≡ waiting id ordered D + occ id []
      → waiting id ordered D ≡ 0
  nothing_waiting id ordered e = omega (arith, e)

  longer :
      (ordered : List String) (id : String) (r : Result ShutdownError (List String))
      → Behind D ordered id D
      → Ended (ordered ++ (id ∷ [])) r
      → Ended ordered r
  longer ordered id r behind e = record {
    rest = id ∷ e.rest;
    result = e.result ∙ ap ok (append_assoc ordered (id ∷ []) e.rest);
    ahead = (behind, e.ahead);
    counts = e.counts;
    kept =
        subst (λ (xs : List String). Kept D xs (record { counts = e.counts; ready = [] }) [])
          (append_assoc ordered (id ∷ []) e.rest) e.kept;
    same = e.same;
  }

  pub shut-Ended :
      (fuel : ℕ) (ordered done ready : List String) (c : OrdMap ℕ)
      → Kept D ordered (record { counts = c; ready = ready }) []
      → ((x : String) → is_some (lookup x c) ≡ is_some (lookup x M))
      → Chain M done
      → ((x : String) → occ x done ≡ occ x ordered)
      → length M < fuel + length done
      → Ended ordered (shut fuel positions D ordered c ready)
  unfolding shut
  shut-Ended fuel ordered done [] c kept same chain copy enough = record {
    rest = [];
    result = ap ok (sym (append-nil ordered));
    ahead = tt;
    counts = c;
    kept = rw (append-nil ordered) kept;
    same = same;
  }
  shut-Ended zero ordered done (id ∷ ready) c kept same chain copy enough =
      absurd (omega (arith, length-Chain M done chain))
  shut-Ended (suc fuel) ordered done (id ∷ ready) c kept same chain copy enough =
      let first = occ_head id ready in
      let empty = kept.drained id (omega (arith, first)) in
      let new : occ id ordered ≡ 0 = omega (arith, first, kept.once id) in
      let here : is_some (lookup id M) ≡ true = sym (same id) ∙ rw empty refl in
      let (ds, found) = some_of (lookup id D) (listed id ∙ here) in
      let taken_kept = take-Kept D ordered id ready ds c unique kept found in
      let deps = transport-Counted D M c ds same (known id ds found) in
      let (r', computed, low) =
        lower_all-Lowered D (ordered ++ (id ∷ [])) ds (record { counts = c; ready = ready })
          taken_kept deps in
      let behind =
        waiting-Behind D ordered id D (nothing_waiting id ordered (kept.counted id 0 empty)) in
      rw (found, computed)
        (longer ordered id
          (shut fuel positions D (ordered ++ (id ∷ [])) r'.counts
            (sort_by_position positions r'.ready))
          behind
          (shut-Ended fuel (ordered ++ (id ∷ [])) (id ∷ done) (sort_by_position positions r'.ready)
            r'.counts (sort-Kept D positions (ordered ++ (id ∷ [])) r' low.kept)
            (λ x. low.counts x ∙ same x) (occ-contains id done (copy id ∙ new), here, chain)
            (λ x. copied x id done ordered (copy x)) (omega arith)))
