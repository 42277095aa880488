-- ===== src/Config/Ranks.antt =====
-- src/adapters/config.rs: the services that a search has done fall in ranks.
use aku_supervisor.Base.{
  ℕ, suc, ◌<◌, ◌≤◌, String, true, false, is_some, List, [], ◌∷◌, All, if◌then◌else◌, length, str_eq,
  str_eq_iff, str_eq_refl, Bool-cases, ◌⊎◌, inl, inr, ◌≡◌, subst, arith,
}
use aku_supervisor.Base.Maps.{OrdMap, lookup}
use aku_supervisor.Planning.Sets.{contains}
use aku_supervisor.Config.Types.{ServiceConfig}
use aku_supervisor.Config.Dependencies.{dependencies_of}
use aku_supervisor.Config.Search.{Settled, Layered}

-- The place of a service in a list, from its end; 0 outside.
unfoldable pub rank_of : List String → String → ℕ
rank_of [] x = 0
rank_of (y ∷ earlier) x = if str_eq y x then suc (length earlier) else rank_of earlier x

rank_of-bound : (done : List String) (x : String) → rank_of done x ≤ length done
unfolding rank_of
rank_of-bound [] x = omega arith
rank_of-bound (y ∷ earlier) x = ground (arith, rank_of-bound earlier x)

module _ {J : Type 0} (services : OrdMap (ServiceConfig J)) where
  abbrev pub Lower : List String → String → String → Type 0
  Lower done id d =
      (is_some (lookup d services) ≡ false)
      ⊎ (contains done d ≡ true) × (rank_of done d < rank_of done id)

  head-Lower :
      (y : String) (earlier ids : List String)
      → contains earlier y ≡ false
      → All (Settled services earlier) ids
      → All (Lower (y ∷ earlier) y) ids
  unfolding contains rank_of
  head-Lower y earlier [] new all = tt
  head-Lower y earlier (d ∷ ds) new all = (
    elim all.0 [
      | inl free ↦ inl free
      | inr c ↦ inr (
        ground (arith, c),
        ground (arith, str_eq_refl y, str_eq_iff y d, rank_of-bound earlier d, c, new),
      )
    ],
    head-Lower y earlier ds new all.1,
  )

  tail-Lower :
      (y id : String) (earlier ids : List String)
      → contains earlier y ≡ false
      → str_eq y id ≡ false
      → All (Lower earlier id) ids
      → All (Lower (y ∷ earlier) id) ids
  unfolding contains rank_of
  tail-Lower y id earlier [] new other all = tt
  tail-Lower y id earlier (d ∷ ds) new other all = (
    elim all.0 [
      | inl free ↦ inl free
      | inr (c, less) ↦ inr (ground (arith, c), ground (arith, other, str_eq_iff y d, less, c, new))
    ],
    tail-Lower y id earlier ds new other all.1,
  )

  pub Layered-Lower :
      (done : List String) (id : String)
      → Layered services done
      → contains done id ≡ true
      → All (Lower done id) (dependencies_of (lookup id services))
  unfolding contains
  Layered-Lower [] id layered c = absurd (cc c)
  Layered-Lower (y ∷ earlier) id layered c = elim (Bool-cases (str_eq y id)) [
    | inl hit ↦
        subst (λ (z : String). All (Lower (y ∷ earlier) z) (dependencies_of (lookup z services)))
          ((str_eq_iff y id).0 hit)
          (head-Lower y earlier (dependencies_of (lookup y services)) layered.0 layered.1)
    | inr other ↦
        tail-Lower y id earlier (dependencies_of (lookup id services)) layered.0 other
          (Layered-Lower earlier id layered.2 (ground (arith, c, other)))
  ]
