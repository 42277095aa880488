-- ===== src/Planning/Shutdown/Ordered.antt =====
-- src/application/dependency_control.rs: what `stable_shutdown_order` returns for services whose
-- dependencies are registered and acyclic.
use aku_supervisor.Base.{
  some-injective, ℕ, zero, suc, ◌+◌, ◌≤◌, ◌<◌, String, true, some, is_some, List, [], ◌∷◌, All,
  str_eq, str_eq_refl, str_eq_iff, Bool-cases, inl, inr, ◌⊎◌, ◌≡◌, refl, sym, ap, subst, ◌∙◌, arith,
}
use aku_supervisor.Base.Maps.{OrdMap, lookup}
use aku_supervisor.Base.Keys.{Unique, occurs}
use aku_supervisor.Registry.Types.{ServiceSnapshot}
use aku_supervisor.Planning.Shutdown.Open.{occ, waiting}
use aku_supervisor.Planning.Shutdown.Rounds.{Behind}
use aku_supervisor.Planning.Shutdown.Setup.{ids_of}

-- No declaration is waiting when every service that declares a dependency is closed.
pub waiting_none :
    (x : String) (closed : List String) (m : OrdMap (List String))
    → Unique m
    → ((s : String) (ds : List String) → lookup s m ≡ some ds → 0 < occ x ds → 0 < occ s closed)
    → waiting x closed m ≡ 0
unfolding waiting lookup
waiting_none x closed [] u shut = refl
waiting_none x closed ((s, ds) ∷ m) u shut =
    let later : waiting x closed m ≡ 0 = waiting_none x closed m u.1 (λ t es found more.
      elim (Bool-cases (str_eq s t)) [
        | inl hit ↦
            let there : lookup s m ≡ some es = rw ((str_eq_iff s t).0 hit) found in
            absurd (cc (there, u.0))
        | inr miss ↦ shut t es (rw miss found) more
      ]) in
    let here = shut s ds (rw (str_eq_refl s) refl) in ground (arith, later, here)

-- What `Behind` says of one entry.
pub Behind-lookup :
    (D : OrdMap (List String)) (seen : List String) (id s : String) (ds : List String)
    (m : OrdMap (List String))
    → Behind D seen id m
    → lookup s m ≡ some ds
    → (occ id ds ≡ 0) ⊎ (0 < occ s seen)
unfolding lookup
Behind-lookup D seen id s ds [] behind found = absurd (cc found)
Behind-lookup D seen id s ds ((t, es) ∷ m) behind found = elim (Bool-cases (str_eq t s)) [
  | inl hit ↦
      let same : es ≡ ds = some-injective (rw hit at found) in
      let seen_too : (occ id ds ≡ 0) ⊎ (0 < occ t seen) =
        subst (λ (xs : List String). (occ id xs ≡ 0) ⊎ (0 < occ t seen)) same behind.0 in
      subst (λ (k : String). (occ id ds ≡ 0) ⊎ (0 < occ k seen)) ((str_eq_iff t s).0 hit) seen_too
  | inr miss ↦ Behind-lookup D seen id s ds m behind.1 (rw miss at found)
]

-- The entry of a name.
pub at_id :
    {J : Type 0} (P : ServiceSnapshot J → Type 0) (x : String) (ss : List (ServiceSnapshot J))
    → All P ss
    → occurs x (ids_of ss) ≡ true
    → (s : ServiceSnapshot J) × (s.id ≡ x) × P s
unfolding occurs
at_id P x [] all there = absurd (cc there)
at_id P x (s ∷ ss) all there = elim (Bool-cases (str_eq s.id x)) [
  | inl hit ↦ (s, (str_eq_iff s.id x).0 hit, all.0)
  | inr miss ↦ at_id P x ss all.1 (rw miss at there)
]

-- The member that a positive count finds.
pub at_occ : (P : String → Type 0) (x : String) (ds : List String) → All P ds → 0 < occ x ds → P x
unfolding occ
at_occ P x [] all more = absurd (omega (arith, more))
at_occ P x (d ∷ ds) all more = elim (Bool-cases (str_eq d x)) [
  | inl hit ↦ subst P ((str_eq_iff d x).0 hit) all.0
  | inr miss ↦ at_occ P x ds all.1 (rw miss at more)
]

module _ {J : Type 0} (ss : List (ServiceSnapshot J)) (rank : String → ℕ) where
  total : List (ServiceSnapshot J) → ℕ
  total [] = 0
  total (s ∷ rest) = rank s.id + total rest

  -- Every dependency of the service is registered and of lower rank.
  abbrev pub Descends : ServiceSnapshot J → Type 0
  Descends s = All (λ d. (occurs d (ids_of ss) ≡ true) × (rank d < rank s.id)) s.depends_on

  abbrev pub Entered : OrdMap (List String) → ServiceSnapshot J → Type 0
  Entered D s = Descends s × (lookup s.id D ≡ some s.depends_on)

  rank-total :
      (x : String) (rest : List (ServiceSnapshot J))
      → occurs x (ids_of rest) ≡ true
      → rank x ≤ total rest
  unfolding occurs total
  rank-total x [] there = absurd (cc there)
  rank-total x (s ∷ rest) there = elim (Bool-cases (str_eq s.id x)) [
    | inl hit ↦
        let same : rank s.id ≡ rank x = ap rank ((str_eq_iff s.id x).0 hit) in omega (arith, same)
    | inr miss ↦ omega (arith, rank-total x rest (rw miss at there))
  ]

  module _ (D : OrdMap (List String)) (order : List String) (unique : Unique D)
      (entered : All (Entered D) ss)
      (listed : (x : String) → is_some (lookup x D) ≡ occurs x (ids_of ss))
      (offered : (x : String)
        → occurs x (ids_of ss) ≡ true
        → waiting x order D ≡ 0
        → 0 < occ x order) where
    declares_lower :
        (x s : String) (ds : List String)
        → lookup s D ≡ some ds
        → 0 < occ x ds
        → (occurs s (ids_of ss) ≡ true) × (rank x < rank s)
    declares_lower x s ds found more =
        let there : occurs s (ids_of ss) ≡ true = sym (listed s) ∙ rw found refl in
        let (t, name, entry) = at_id (Entered D) s ss entered there in
        let same : t.depends_on ≡ ds =
          some-injective (sym entry.1 ∙ (ap (λ k. lookup k D) name ∙ found)) in
        let less =
          at_occ (λ d. (occurs d (ids_of ss) ≡ true) × (rank d < rank t.id)) x t.depends_on entry.0
            (rw same more) in
        let named : rank t.id ≡ rank s = ap rank name in (there, omega (arith, less.1, named))

    -- By induction on how far the rank is from the highest.
    ordered_from :
        (k : ℕ) (x : String)
        → occurs x (ids_of ss) ≡ true
        → suc (total ss) ≤ rank x + k
        → 0 < occ x order
    ordered_from zero x there far = absurd (omega (arith, far, rank-total x ss there))
    ordered_from (suc k) x there far = offered x there (
        waiting_none x order D unique (λ s ds found more.
          let (known, less) = declares_lower x s ds found more in
          ordered_from k s known (omega (arith, far, less))))

    pub ordered_all : (x : String) → occurs x (ids_of ss) ≡ true → 0 < occ x order
    ordered_all x there = ordered_from (suc (total ss)) x there (omega arith)
