-- ===== src/Base/Keys.antt =====
-- Maps without a repeated key and lists of distinct texts, and how insertion, change and removal
-- keep them and count.
use mathlib.Core.Path.{◌≡◌, refl}
use mathlib.Core.Logic.{inl, inr}
use mathlib.Core.Bool.{Bool, true, false, ◌||◌}
use mathlib.Core.Option.{Option, none, some}
use mathlib.Core.List.{List, [], ◌∷◌, ◌++◌}
use Prim.Native.Nat.{suc}
use Prim.Native.String.{String}
use native.Mathlib.Omega.{arith}
use aku_supervisor.Base.Lists.{length}
use aku_supervisor.Base.Tests.{if◌then◌else◌, str_eq, str_lt, str_eq_iff, Bool-cases, is_some}
use aku_supervisor.Base.Maps.{OrdMap, lookup, insert, remove, update, lookup-insert, lookup-remove}

-- No key occurs twice.
abbrev pub Unique : {V : Type 0} → OrdMap V → Type 0
Unique [] = Unit
Unique ((k, v) ∷ m) = (lookup k m ≡ none) × Unique m

unfoldable pub occurs : String → List String → Bool
occurs k [] = false
occurs k (x ∷ xs) = str_eq x k || occurs k xs

-- No text occurs twice.
abbrev pub Distinct : List String → Type 0
Distinct [] = Unit
Distinct (x ∷ xs) = (occurs x xs ≡ false) × Distinct xs

unfoldable pub without : String → List String → List String
without k [] = []
without k (x ∷ xs) = let rest = without k xs in if str_eq x k then rest else x ∷ rest

module _ {V : Type 0} where
  pub insert-Unique :
      (k : String) (v : V) (m : OrdMap V) → lookup k m ≡ none → Unique m → Unique (insert k v m)
  unfolding insert lookup
  insert-Unique k v [] free u = (refl, tt)
  insert-Unique k v ((j, w) ∷ m) free u = elim (Bool-cases (str_eq j k)) [
    | inl hit ↦ absurd (cc (rw hit at free))
    | inr miss ↦ elim (Bool-cases (str_lt k j)) [
      | inl less ↦ rw (miss, less) (free, u)
      | inr more ↦
          let there = lookup-insert k j v m in
          let rest = insert-Unique k v m (rw miss at free) u.1 in
          rw (miss, more) (ground (arith, there, u.0, str_eq_iff k j, str_eq_iff j k), rest)
    ]
  ]

  pub length-insert :
      (k : String) (v : V) (m : OrdMap V)
      → lookup k m ≡ none
      → length (insert k v m) ≡ suc (length m)
  unfolding insert lookup
  length-insert k v [] free = refl
  length-insert k v ((j, w) ∷ m) free = ground (arith, length-insert k v m)

  pub remove-Unique : (k : String) (m : OrdMap V) → Unique m → Unique (remove k m)
  unfolding remove
  remove-Unique k [] u = tt
  remove-Unique k ((j, w) ∷ m) u =
      ground (arith, lookup-remove k j m, u.0, u.1, remove-Unique k m u.1)

  length-remove-none :
      (k : String) (m : OrdMap V) → lookup k m ≡ none → length (remove k m) ≡ length m
  unfolding remove lookup
  length-remove-none k [] free = refl
  length-remove-none k ((j, w) ∷ m) free = ground (arith, length-remove-none k m)

  pub length-remove :
      (k : String) (m : OrdMap V)
      → Unique m
      → is_some (lookup k m) ≡ true
      → suc (length (remove k m)) ≡ length m
  unfolding remove lookup
  length-remove k [] u there = absurd (cc there)
  length-remove k ((j, w) ∷ m) u there = elim (Bool-cases (str_eq j k)) [
    | inl hit ↦ ground (arith, hit, str_eq_iff j k, u.0, length-remove-none k m)
    | inr miss ↦ ground (arith, miss, length-remove k m u.1, there)
  ]

  abbrev pub changed : (V → V) → Option V → Option V
  changed f none = none
  changed f (some v) = some (f v)

  pub lookup-update :
      (k j : String) (f : V → V) (m : OrdMap V)
      → lookup j (update k f m) ≡ (if str_eq k j then changed f (lookup j m) else lookup j m)
  unfolding lookup update
  lookup-update k j f [] = ground arith
  lookup-update k j f ((i, w) ∷ m) =
      ground (arith, str_eq_iff k j, str_eq_iff i k, str_eq_iff i j, lookup-update k j f m)

  pub changed-is_some : (f : V → V) (o : Option V) → is_some (changed f o) ≡ is_some o
  changed-is_some f none = refl
  changed-is_some f (some v) = refl

  changed-some :
      (f : V → V) (o : Option V) (v : V) → changed f o ≡ some v → (w : V) × (o ≡ some w) × (v ≡ f w)
  changed-some f none v e = absurd (cc e)
  changed-some f (some w) v e = (w, refl, cc e)

  -- The value that an update left under a key, from the one that was there.
  pub update-some :
      (k j : String) (f : V → V) (m : OrdMap V) (v : V)
      → lookup j (update k f m) ≡ some v
      → (w : V) × (lookup j m ≡ some w) × (v ≡ (if str_eq k j then f w else w))
  update-some k j f m v e = elim (Bool-cases (str_eq k j)) [
    | inl hit ↦
        let (w, was, is) = changed-some f (lookup j m) v (ground (arith, lookup-update k j f m)) in
        (w, was, rw hit is)
    | inr miss ↦ (v, ground (arith, lookup-update k j f m), rw miss refl)
  ]

  pub length-update : (k : String) (f : V → V) (m : OrdMap V) → length (update k f m) ≡ length m
  unfolding update
  length-update k f [] = refl
  length-update k f ((i, w) ∷ m) = ground (arith, length-update k f m)

  pub update-Unique : (k : String) (f : V → V) (m : OrdMap V) → Unique m → Unique (update k f m)
  unfolding update
  update-Unique k f [] u = tt
  update-Unique k f ((i, w) ∷ m) u = elim (Bool-cases (str_eq i k)) [
    | inl hit ↦ rw hit u
    | inr miss ↦ rw miss (ground (arith, lookup-update k i f m, u.0), update-Unique k f m u.1)
  ]

pub occurs-append :
    (k j : String) (xs : List String) → occurs k (xs ++ (j ∷ [])) ≡ (str_eq j k || occurs k xs)
unfolding occurs
occurs-append k j [] = refl
occurs-append k j (x ∷ xs) = ground (arith, occurs-append k j xs)

pub append-Distinct :
    (j : String) (xs : List String) → occurs j xs ≡ false → Distinct xs → Distinct (xs ++ (j ∷ []))
unfolding occurs
append-Distinct j [] new d = (refl, tt)
append-Distinct j (x ∷ xs) new d =
    let seen = occurs-append x j xs in
    (
      ground (arith, seen, d.0, new, str_eq_iff j x, str_eq_iff x j),
      append-Distinct j xs (ground (arith, new)) d.1,
    )

pub occurs-without :
    (k j : String) (xs : List String)
    → occurs k (without j xs) ≡ (if str_eq j k then false else occurs k xs)
unfolding occurs without
occurs-without k j [] = ground arith
occurs-without k j (x ∷ xs) =
    ground (arith, str_eq_iff j k, str_eq_iff x j, str_eq_iff x k, occurs-without k j xs)

pub without-Distinct : (j : String) (xs : List String) → Distinct xs → Distinct (without j xs)
unfolding without
without-Distinct j [] d = tt
without-Distinct j (x ∷ xs) d = elim (Bool-cases (str_eq x j)) [
  | inl hit ↦ rw hit (without-Distinct j xs d.1)
  | inr miss ↦ rw miss (ground (arith, occurs-without x j xs, d.0), without-Distinct j xs d.1)
]

length-without-false :
    (j : String) (xs : List String) → occurs j xs ≡ false → length (without j xs) ≡ length xs
unfolding occurs without
length-without-false j [] new = refl
length-without-false j (x ∷ xs) new = ground (arith, length-without-false j xs)

pub length-without :
    (j : String) (xs : List String)
    → Distinct xs
    → occurs j xs ≡ true
    → suc (length (without j xs)) ≡ length xs
unfolding occurs without
length-without j [] d seen = absurd (cc seen)
length-without j (x ∷ xs) d seen = elim (Bool-cases (str_eq x j)) [
  | inl hit ↦ ground (arith, hit, str_eq_iff x j, d.0, length-without-false j xs)
  | inr miss ↦ ground (arith, miss, seen, length-without j xs d.1)
]
