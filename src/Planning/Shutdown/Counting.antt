-- ===== src/Planning/Shutdown/Counting.antt =====
-- Lists without repetition, by how often a text occurs.
use aku_supervisor.Base.{
  ◌≤◌, String, true, false, not, List, [], ◌∷◌, ◌==◌, All, length, str_eq_iff, str_eq_refl, ◌≡◌,
  refl, arith,
}
use aku_supervisor.Base.Keys.{
  Distinct, occurs, without, occurs-without, without-Distinct, length-without,
}
use aku_supervisor.Planning.Shutdown.Open.{occ}

pub occurs-occ : (x : String) (xs : List String) → occurs x xs ≡ not (occ x xs == 0)
unfolding occurs occ
occurs-occ x [] = refl
occurs-occ x (y ∷ ys) = ground (arith, occurs-occ x ys)

pub occ-Distinct : (xs : List String) → ((x : String) → occ x xs ≤ 1) → Distinct xs
unfolding occ
occ-Distinct [] once = tt
occ-Distinct (y ∷ ys) once = (
  ground (arith, once y, str_eq_refl y, occurs-occ y ys),
  occ-Distinct ys (λ x. ground (arith, once x)),
)

pub Distinct-occ : (x : String) (xs : List String) → Distinct xs → occ x xs ≤ 1
unfolding occ
Distinct-occ x [] d = omega arith
Distinct-occ x (y ∷ ys) d =
    ground (arith, Distinct-occ x ys d.1, d.0, occurs-occ y ys, str_eq_iff y x)

stays :
    (i : String) (is ys : List String)
    → occurs i is ≡ false
    → All (λ x. occurs x ys ≡ true) is
    → All (λ x. occurs x (without i ys) ≡ true) is
unfolding occurs
stays i [] ys new all = tt
stays i (x ∷ xs) ys new all = (
  ground (arith, occurs-without x i ys, all.0, new, str_eq_iff i x, str_eq_iff x i),
  stays i xs ys (ground (arith, new)) all.1,
)

-- Distinct members of a list without repetition are no more than it has.
pub length-All :
    (xs ys : List String)
    → Distinct xs
    → Distinct ys
    → All (λ x. occurs x ys ≡ true) xs
    → length xs ≤ length ys
length-All [] ys d e all = omega arith
length-All (x ∷ xs) ys d e all = omega (
  arith,
  length-without x ys e all.0,
  length-All xs (without x ys) d.1 (without-Distinct x ys e) (stays x xs ys d.0 all.1),
)
