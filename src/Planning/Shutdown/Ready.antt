-- ===== src/Planning/Shutdown/Ready.antt =====
-- src/application/dependency_control.rs: the services that are ready when `stable_shutdown_order`
-- begins its loop.
use aku_supervisor.Base.{
  ℕ, String, true, Option, none, some, is_some, List, [], ◌∷◌, str_eq_iff, ◌≡◌, arith,
  if◌then◌else◌,
}
use aku_supervisor.Base.Maps.{OrdMap, lookup}
use aku_supervisor.Base.Keys.{Distinct, occurs}
use aku_supervisor.Registry.Types.{ServiceSnapshot}
use aku_supervisor.Planning.Shutdown.{first_ready, is_zero}
use aku_supervisor.Planning.Shutdown.Open.{occ}
use aku_supervisor.Planning.Shutdown.Rounds.{Kept}
use aku_supervisor.Planning.Shutdown.Setup.{ids_of, Tallied}
use aku_supervisor.Planning.Shutdown.Counting.{occurs-occ, Distinct-occ}

zero_count : (o : Option ℕ) → is_zero o ≡ true → o ≡ some 0
zero_count none e = absurd (cc e)
zero_count (some n) e = ground (arith, e)

module _ {J : Type 0} (counts : OrdMap ℕ) where
  occ-first_ready :
      (x : String) (ss : List (ServiceSnapshot J))
      → occ x (first_ready counts ss) ≡ (if is_zero (lookup x counts) then occ x (ids_of ss) else 0)
  unfolding occ first_ready
  occ-first_ready x [] = ground arith
  occ-first_ready x (s ∷ ss) = ground (arith, occ-first_ready x ss, str_eq_iff s.id x)

  pub first_ready-Kept :
      (ss : List (ServiceSnapshot J)) (dependencies : OrdMap (List String))
      → Tallied (record { counts = counts; dependencies = dependencies })
      → Distinct (ids_of ss)
      → ((x : String) → is_some (lookup x counts) ≡ occurs x (ids_of ss))
      → Kept dependencies [] (record { counts = counts; ready = first_ready counts ss }) []
  unfolding occ
  first_ready-Kept ss dependencies t d keys = record {
    counted = λ x n e. ground (arith, t.counted x n e);
    once = λ x. ground (arith, occ-first_ready x ss, Distinct-occ x (ids_of ss) d);
    drained = λ x h. zero_count (lookup x counts) (ground (arith, occ-first_ready x ss, h));
    offered = λ x e. ground (arith, occ-first_ready x ss, e, keys x, occurs-occ x (ids_of ss));
  }
