-- ===== src/Planning/Sets.antt =====
-- `BTreeSet<String>`, of which the planner uses only membership: a list with the newest member first.
use aku_supervisor.Base.{
  String, Bool, true, false, ◌||◌, List, [], ◌∷◌, if◌then◌else◌, str_eq, str_eq_iff, str_eq_refl,
  ◌≡◌, refl, arith,
}

unfoldable pub contains : List String → String → Bool
contains [] x = false
contains (y ∷ ys) x = str_eq y x || contains ys x

unfoldable pub remove : String → List String → List String
remove x [] = []
remove x (y ∷ ys) = let rest = remove x ys in if str_eq y x then rest else y ∷ rest

pub contains-remove :
    (x y : String) (ys : List String)
    → contains (remove x ys) y ≡ (if str_eq x y then false else contains ys y)
unfolding contains remove
contains-remove x y [] = ground arith
contains-remove x y (z ∷ ys) =
    ground (arith, contains-remove x y ys, str_eq_iff x y, str_eq_iff z x, str_eq_iff z y)

pub remove_absent : (x : String) (ys : List String) → contains ys x ≡ false → remove x ys ≡ ys
unfolding contains remove
remove_absent x [] h = refl
remove_absent x (y ∷ ys) h = ground (arith, remove_absent x ys)

pub remove_head : (x : String) (ys : List String) → contains ys x ≡ false → remove x (x ∷ ys) ≡ ys
unfolding contains remove
remove_head x ys h = rw (str_eq_refl x) (remove_absent x ys h)

pub contains-head : (x : String) (ys : List String) → contains (x ∷ ys) x ≡ true
unfolding contains
contains-head x ys = rw (str_eq_refl x)

pub contains-tail :
    (x y : String) (ys : List String) → contains ys y ≡ true → contains (x ∷ ys) y ≡ true
unfolding contains
contains-tail x y ys h = ground arith
