-- ===== src/Planning/Shutdown/Blank.antt =====
-- src/application/dependency_control.rs: a service that is entered with no dependency yet.
use aku_supervisor.Base.{
  some-injective, String, false, Option, none, some, is_some, [], All, str_eq, Bool-cases, inl, inr,
  ◌≡◌, refl, subst, ◌∙◌, arith,
}
use aku_supervisor.Base.Maps.{lookup, insert, lookup-insert}
use aku_supervisor.Base.Keys.{insert-Unique}
use aku_supervisor.Planning.Shutdown.{Graph}
use aku_supervisor.Planning.Shutdown.Open.{waiting}
use aku_supervisor.Planning.Shutdown.Rounds.{Counted}
use aku_supervisor.Planning.Shutdown.Setup.{Tallied, waiting-insert, All-grow}

abbrev pub blank : String → Graph → Graph
blank id g = record { counts = insert id 0 g.counts; dependencies = insert id [] g.dependencies }

pub none_of : {A : Type 0} (o : Option A) → is_some o ≡ false → o ≡ none
none_of none e = refl
none_of (some a) e = absurd (cc e)

pub blank-Tallied :
    (id : String) (g : Graph)
    → Tallied g
    → ((x : String) → waiting x [] g.dependencies ≡ 0)
    → is_some (lookup id g.counts) ≡ false
    → Tallied (blank id g)
blank-Tallied id g t idle new =
    let free = none_of (lookup id g.dependencies) (t.listed id ∙ new) in
    record {
      unique = insert-Unique id [] g.dependencies free t.unique;
      listed = λ x.
          ground (
            arith,
            lookup-insert id x [] g.dependencies,
            lookup-insert id x 0 g.counts,
            t.listed x,
          );
      counted = λ x n e. ground (
        arith,
        lookup-insert id x 0 g.counts,
        e,
        t.counted x n,
        idle x,
        waiting-insert x id g.dependencies free,
      );
      known = λ x ds e. elim (Bool-cases (str_eq id x)) [
        | inl hit ↦
            let same : [] ≡ ds =
              some-injective (rw (lookup-insert id x [] g.dependencies, hit) at e) in
            subst (All (Counted (insert id 0 g.counts))) same tt
        | inr miss ↦
            All-grow g.counts (insert id 0 g.counts) ds
              (λ y c. ground (arith, lookup-insert id y 0 g.counts, c))
              (t.known x ds (rw (lookup-insert id x [] g.dependencies, miss) at e))
      ];
    }
