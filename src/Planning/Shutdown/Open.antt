-- ===== src/Planning/Shutdown/Open.antt =====
-- src/application/dependency_control.rs: how many dependents of a service are still open, and that
-- the counts of `stable_shutdown_order` are these numbers.
use aku_supervisor.Base.{
  ℕ, suc, ◌+◌, ◌<◌, String, none, some, List, [], ◌∷◌, ◌++◌, ◌==◌, if◌then◌else◌, str_eq,
  str_eq_iff, str_eq_refl, Bool-cases, inl, inr, ◌≡◌, refl, arith,
}
use aku_supervisor.Base.Maps.{OrdMap, lookup}
use aku_supervisor.Base.Keys.{Unique}
use aku_supervisor.Planning.Shutdown.{place, sort_by_position}

-- How often a text occurs.
unfoldable pub occ : String → List String → ℕ
occ x [] = 0
occ x (y ∷ ys) = if str_eq y x then suc (occ x ys) else occ x ys

pub occ-append : (x : String) (ys zs : List String) → occ x (ys ++ zs) ≡ occ x ys + occ x zs
unfolding occ
occ-append x [] zs = omega arith
occ-append x (y ∷ ys) zs = ground (arith, occ-append x ys zs)

occ-place :
    (positions : OrdMap ℕ) (x id : String) (ys : List String)
    → occ x (place positions id ys) ≡ occ x (id ∷ ys)
unfolding occ place
occ-place positions x id [] = refl
occ-place positions x id (y ∷ ys) = ground (arith, occ-place positions x id ys)

pub occ-sort_by_position :
    (positions : OrdMap ℕ) (x : String) (ys : List String)
    → occ x (sort_by_position positions ys) ≡ occ x ys
unfolding occ sort_by_position
occ-sort_by_position positions x [] = refl
occ-sort_by_position positions x (y ∷ ys) = ground (
  arith,
  occ-place positions x y (sort_by_position positions ys),
  occ-sort_by_position positions x ys,
)

-- The declarations of a dependency on `x` by services that are not in `closed`.
unfoldable pub waiting : String → List String → OrdMap (List String) → ℕ
waiting x closed [] = 0
waiting x closed ((s, ds) ∷ m) = (if occ s closed == 0 then occ x ds else 0) + waiting x closed m

-- Closing a service takes its declarations away.
waiting-closed :
    (x id : String) (closed : List String) (m : OrdMap (List String))
    → lookup id m ≡ none
    → waiting x (closed ++ (id ∷ [])) m ≡ waiting x closed m
unfolding waiting lookup occ
waiting-closed x id closed [] free = refl
waiting-closed x id closed ((s, ds) ∷ m) free = ground (
  arith,
  occ-append s closed (id ∷ []),
  str_eq_iff s id,
  str_eq_iff id s,
  waiting-closed x id closed m,
)

pub waiting-take :
    (x id : String) (closed ds : List String) (m : OrdMap (List String))
    → Unique m
    → occ id closed ≡ 0
    → lookup id m ≡ some ds
    → waiting x closed m ≡ waiting x (closed ++ (id ∷ [])) m + occ x ds
unfolding waiting lookup occ
waiting-take x id closed ds [] u new found = absurd (cc found)
waiting-take x id closed ds ((s, es) ∷ m) u new found = elim (Bool-cases (str_eq s id)) [
  | inl hit ↦ ground (
    arith,
    hit,
    found,
    new,
    (str_eq_iff s id).0 hit,
    occ-append s closed (id ∷ []),
    occ-append id closed (id ∷ []),
    str_eq_refl id,
    waiting-closed x id closed m,
    u.0,
  )
  | inr miss ↦ ground (
    arith,
    miss,
    waiting-take x id closed ds m u.1 new (rw miss at found),
    occ-append s closed (id ∷ []),
    str_eq_iff s id,
    str_eq_iff id s,
  )
]

-- When nothing open depends on a service, all that declare it are closed.
pub waiting-zero :
    (x s : String) (closed ds : List String) (m : OrdMap (List String))
    → waiting x closed m ≡ 0
    → lookup s m ≡ some ds
    → 0 < occ x ds
    → 0 < occ s closed
unfolding waiting lookup
waiting-zero x s closed ds [] e found more = absurd (cc found)
waiting-zero x s closed ds ((t, es) ∷ m) e found more = elim (Bool-cases (str_eq t s)) [
  | inl hit ↦ ground (arith, hit, found, e, more, (str_eq_iff t s).0 hit)
  | inr miss ↦ waiting-zero x s closed ds m (omega (arith, e)) (rw miss at found) more
]
