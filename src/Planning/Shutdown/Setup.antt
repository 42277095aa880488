-- ===== src/Planning/Shutdown/Setup.antt =====
-- src/application/dependency_control.rs: the counts and the dependencies with which the loop of
-- `stable_shutdown_order` begins.
use aku_supervisor.Base.{
  some-injective, ℕ, ◌+◌, String, true, false, Option, none, some, is_some, List, [], ◌∷◌, ◌++◌,
  All, ok, str_eq, str_eq_refl, Bool-cases, inl, inr, ◌≡◌, refl, sym, ap, subst, ◌∙◌, arith,
}
use mathlib.Core.List.{append_assoc, append-nil}
use aku_supervisor.Base.Maps.{OrdMap, lookup, insert, update}
use aku_supervisor.Base.Keys.{Unique, update-Unique, lookup-update, changed-is_some, update-some}
use aku_supervisor.Registry.Types.{ServiceSnapshot}
use aku_supervisor.Planning.Shutdown.{Graph, note_all}
use aku_supervisor.Planning.Shutdown.Open.{occ, occ-append, waiting}
use aku_supervisor.Planning.Shutdown.Rounds.{Counted}

abbrev pub ids_of : {J : Type 0} → List (ServiceSnapshot J) → List String
ids_of [] = []
ids_of (s ∷ ss) = s.id ∷ ids_of ss

pub record Tallied (g : Graph) : Type 0 where
  pub unique : Unique g.dependencies
  pub listed : (x : String) → is_some (lookup x g.dependencies) ≡ is_some (lookup x g.counts)
  pub counted : (x : String) (n : ℕ) → lookup x g.counts ≡ some n → n ≡ waiting x [] g.dependencies
  pub known :
      (x : String) (ds : List String)
      → lookup x g.dependencies ≡ some ds
      → All (Counted g.counts) ds

pub waiting-insert :
    (x k : String) (m : OrdMap (List String))
    → lookup k m ≡ none
    → waiting x [] (insert k [] m) ≡ waiting x [] m
unfolding waiting insert lookup occ
waiting-insert x k [] free = omega arith
waiting-insert x k ((j, ds) ∷ m) free = ground (arith, waiting-insert x k m)

waiting-update :
    (x k d : String) (m : OrdMap (List String))
    → is_some (lookup k m) ≡ true
    → waiting x [] (update k (λ ds. ds ++ (d ∷ [])) m) ≡ waiting x [] m + occ x (d ∷ [])
unfolding waiting update lookup occ
waiting-update x k d [] there = absurd (cc there)
waiting-update x k d ((j, ds) ∷ m) there = elim (Bool-cases (str_eq j k)) [
  | inl hit ↦ rw hit (ground (arith, occ-append x ds (d ∷ [])))
  | inr miss ↦
      let later = waiting-update x k d m (rw miss at there) in rw miss (omega (arith, later))
]

pub All-grow :
    (c c' : OrdMap ℕ) (ds : List String)
    → ((x : String) → is_some (lookup x c) ≡ true → is_some (lookup x c') ≡ true)
    → All (Counted c) ds
    → All (Counted c') ds
All-grow c c' [] more all = tt
All-grow c c' (d ∷ ds) more all = (more d all.0, All-grow c c' ds more all.1)

All-append :
    (P : String → Type 0) (ds : List String) (d : String) → All P ds → P d → All P (ds ++ (d ∷ []))
All-append P [] d all p = (p, tt)
All-append P (x ∷ ds) d all p = (all.0, All-append P ds d all.1 p)

pub noted : String → String → Graph → Graph
noted id d g = record {
  counts = update d (λ n. n + 1) g.counts;
  dependencies = update id (λ ds. ds ++ (d ∷ [])) g.dependencies;
}

kept_keys :
    (d x : String) (g : Graph)
    → is_some (lookup x (update d (λ n. n + 1) g.counts)) ≡ is_some (lookup x g.counts)
kept_keys d x g = ground (
  arith,
  lookup-update d x (λ n. n + 1) g.counts,
  changed-is_some (λ n. n + 1) (lookup x g.counts),
)

noted-Tallied :
    (id d : String) (g : Graph)
    → Tallied g
    → is_some (lookup id g.dependencies) ≡ true
    → Counted g.counts d
    → Tallied (noted id d g)
unfolding noted occ
noted-Tallied id d g t there known = record {
  unique = update-Unique id (λ ds. ds ++ (d ∷ [])) g.dependencies t.unique;
  listed = λ x. ground (
    arith,
    kept_keys d x g,
    t.listed x,
    lookup-update id x (λ ds. ds ++ (d ∷ [])) g.dependencies,
    changed-is_some (λ ds. ds ++ (d ∷ [])) (lookup x g.dependencies),
  );
  counted = λ x n e.
      let (m, was, is) = update-some d x (λ n. n + 1) g.counts n e in
      ground (arith, is, t.counted x m was, waiting-update x id d g.dependencies there);
  known = λ x ds e.
      let (es, was, is) = update-some id x (λ ds. ds ++ (d ∷ [])) g.dependencies ds e in
      let grown =
        All-grow g.counts (update d (λ n. n + 1) g.counts) es (λ y c. kept_keys d y g ∙ c)
          (t.known x es was) in
      elim (Bool-cases (str_eq id x)) [
        | inl hit ↦ subst (All (Counted (update d (λ n. n + 1) g.counts))) (sym (rw hit at is)) (
            All-append (Counted (update d (λ n. n + 1) g.counts)) es d grown
              (kept_keys d d g ∙ known))
        | inr miss ↦
            subst (All (Counted (update d (λ n. n + 1) g.counts))) (sym (rw miss at is)) grown
      ];
}

pub some_of : {A : Type 0} (o : Option A) → is_some o ≡ true → (a : A) × (o ≡ some a)
some_of (some a) e = (a, refl)
some_of none e = absurd (cc e)

-- What noting declarations leaves.
pub record Grown (id : String) (ds : List String) (g g' : Graph) : Type 0 where
  pub tallied : Tallied g'
  pub keys : (x : String) → is_some (lookup x g'.counts) ≡ is_some (lookup x g.counts)
  pub mine :
      (es : List String)
      → lookup id g.dependencies ≡ some es
      → lookup id g'.dependencies ≡ some (es ++ ds)
  pub others :
      (x : String) → str_eq id x ≡ false → lookup x g'.dependencies ≡ lookup x g.dependencies

pub note_all-Grown :
    (id : String) (ds : List String) (g : Graph)
    → Tallied g
    → is_some (lookup id g.dependencies) ≡ true
    → All (Counted g.counts) ds
    → (g' : Graph) × (note_all id ds g ≡ ok g') × Grown id ds g g'
unfolding note_all noted
note_all-Grown id [] g t there all = (
  g,
  refl,
  record {
    tallied = t;
    keys = λ x. refl;
    mine = λ es e. e ∙ ap some (sym (append-nil es));
    others = λ x miss. refl;
  },
)
note_all-Grown id (d ∷ ds) g t there all =
    let (es, found) = some_of (lookup id g.dependencies) there in
    let (n, counted) = some_of (lookup d g.counts) all.0 in
    let step = lookup-update id id (λ xs. xs ++ (d ∷ [])) g.dependencies in
    let mine : lookup id (noted id d g).dependencies ≡ some (es ++ (d ∷ [])) =
      step ∙ rw (str_eq_refl id, found) refl in
    let (g', computed, grown) =
      note_all-Grown id ds (noted id d g) (noted-Tallied id d g t there all.0) (rw mine refl)
        (All-grow g.counts (noted id d g).counts ds (λ y c. kept_keys d y g ∙ c) all.1) in
    (
      g',
      rw (counted, found) computed,
      record {
        tallied = grown.tallied;
        keys = λ x. grown.keys x ∙ kept_keys d x g;
        mine = λ xs e.
            let same : es ≡ xs = some-injective (sym found ∙ e) in
            grown.mine (es ++ (d ∷ [])) mine
            ∙ ap some (append_assoc es (d ∷ []) ds)
            ∙ ap (λ (ys : List String). some (ys ++ (d ∷ ds))) same;
        others = λ x miss.
            grown.others x miss
            ∙ (lookup-update id x (λ xs. xs ++ (d ∷ [])) g.dependencies ∙ rw miss refl);
      },
    )
