-- ===== src/Registry/Reading.antt =====
-- src/application/service_registry.rs: the snapshots and the preflight checks of the registry leave its
-- services as they are, as `DependencyAwareControl` relies on.
use aku_supervisor.Base.{
  ℕ, String, some, List, [], ◌∷◌, Result, ok, err, Bool-cases, Option-cases, Result-cases, str_eq,
  str_eq_iff, subst, inl, inr, ◌≡◌, refl, sym, ap, ◌∙◌,
}
use aku_supervisor.Base.Maps.{OrdMap, lookup, insert, lookup-insert}
use aku_supervisor.Ports.{Backend}
use aku_supervisor.Runtime.{RuntimeState, inspect_with}
use aku_supervisor.Planning.Untouched.{IsReadOnly}
use aku_supervisor.Registry.Api.{control}
use aku_supervisor.Registry.Dispatch.{
  Services, on_entry, preflight_launches, snapshot, each, snapshots, observed, visited,
}
use aku_supervisor.Registry.Entry.{Entry, Error}
use aku_supervisor.Registry.Operations.{preflight_entry}

module _ (B : Backend) where
  -- The same entry stands under every id; the machine may differ.
  abbrev pub Unchanged : Services B × B.World → Services B × B.World → Type 0
  Unchanged s s' =
      (s'.0.poisoned ≡ s.0.poisoned)
      × ((id : String) → lookup id s'.0.services ≡ lookup id s.0.services)

  Unchanged-again :
      (s s' s'' : Services B × B.World) → Unchanged s s' → Unchanged s' s'' → Unchanged s s''
  Unchanged-again s s' s'' u v = (v.0 ∙ u.0, λ id. v.1 id ∙ u.1 id)

  preflight_entry-keeps : (s : Entry B × B.World) → (preflight_entry B s).0.0 ≡ s.0
  unfolding preflight_entry
  preflight_entry-keeps s = refl

  inspect_keeps : (r : RuntimeState B.Process × B.World) → (inspect_with (observed B) r).0.0 ≡ r.0
  unfolding inspect_with
  inspect_keeps (r, w) = elim (Bool-cases r.lock_poisoned) [
    | inl bad ↦ simp bad refl
    | inr good ↦ elim (Option-cases r.process) [
      | inl idle ↦ simp (good, idle) refl
      | inr (p, owned) ↦ elim (Result-cases (B.owned_processes p w).1) [
        | inl (a, h) ↦ simp (good, owned, h) refl
        | inr (e, h) ↦ simp (good, owned, h) refl
      ]
    ]
  ]

  snapshot-keeps : (s : Entry B × B.World) → (snapshot B s).0.0 ≡ s.0
  unfolding snapshot
  snapshot-keeps s = elim (Bool-cases s.0.poisoned.mutation) [
    | inl bad ↦ simp bad refl
    | inr a ↦ elim (Bool-cases s.0.poisoned.control) [
      | inl bad ↦ simp (a, bad) refl
      | inr b ↦ elim (Bool-cases s.0.poisoned.health) [
        | inl bad ↦ simp (a, b, bad) refl
        | inr c ↦ elim (Bool-cases s.0.poisoned.supervision) [
          | inl bad ↦ simp (a, b, c, bad) refl
          | inr d ↦
              let kept = inspect_keeps (s.0.runtime, s.1) in
              elim (Result-cases (inspect_with (observed B) (s.0.runtime, s.1)).1) [
                | inl (seen, h) ↦ simp (a, b, c, d, h, kept) refl
                | inr (e, h) ↦ simp (a, b, c, d, h, kept) refl
              ]
        ]
      ]
    ]
  ]

  same_entry :
      (id other : String) (entry : Entry B) (m : OrdMap (Entry B))
      → lookup id m ≡ some entry
      → lookup other (insert id entry m) ≡ lookup other m
  same_entry id other entry m here = elim (Bool-cases (str_eq id other)) [
    | inl hit ↦
        rw (lookup-insert id other entry m, hit)
          (sym (subst (λ (k : String). lookup k m ≡ some entry) ((str_eq_iff id other).0 hit) here))
    | inr miss ↦ rw (lookup-insert id other entry m, miss) refl
  ]

  preflight_one-Unchanged :
      (id : String) (s : Services B × B.World) → Unchanged s (on_entry B id (preflight_entry B) s).0
  unfolding on_entry preflight_entry
  preflight_one-Unchanged id s = elim (Bool-cases s.0.poisoned) [
    | inl bad ↦ simp bad (refl, λ other. refl)
    | inr good ↦ elim (Option-cases (lookup id s.0.services)) [
      | inl missing ↦ simp (good, missing) (refl, λ other. refl)
      | inr (entry, here) ↦
          simp (good, here) (refl, λ other. same_entry id other entry s.0.services here)
    ]
  ]

  preflight_launches-Unchanged :
      (ids : List String) (s : Services B × B.World) → Unchanged s (preflight_launches B ids s).0
  unfolding preflight_launches
  preflight_launches-Unchanged [] s = (refl, λ id. refl)
  preflight_launches-Unchanged (id ∷ ids) s =
      let s' = (on_entry B id (preflight_entry B) s).0 in
      let one = preflight_one-Unchanged id s in
      elim (Result-cases (on_entry B id (preflight_entry B) s).1) [
        | inr (e, h) ↦ simp h one
        | inl (a, h) ↦ simp h (
            Unchanged-again s s' (preflight_launches B ids s').0 one
              (preflight_launches-Unchanged ids s'))
      ]

  visited_keeps :
      {A : Type 0} (id : String) (entry : Entry B) (rest : OrdMap (Entry B))
      (r : (Entry B × B.World) × Result (Error B) A)
      (visit : B.World → (OrdMap (Entry B) × B.World) × Result (Error B) (List A))
      → r.0.0 ≡ entry
      → ((w : B.World) → (visit w).0.0 ≡ rest)
      → (visited B id rest r visit).0.0 ≡ (id, entry) ∷ rest
  visited_keeps id entry rest (t, err e) visit kept others =
      ap (λ (x : Entry B). (id, x) ∷ rest) kept
  visited_keeps id entry rest (t, ok a) visit kept others = rw (kept, others t.1) refl

  each-snapshot : (m : OrdMap (Entry B)) (w : B.World) → (each B (snapshot B) m w).0.0 ≡ m
  unfolding each
  each-snapshot [] w = refl
  each-snapshot ((id, entry) ∷ rest) w =
      visited_keeps id entry rest (snapshot B (entry, w)) (each B (snapshot B) rest)
        (snapshot-keeps (entry, w)) (each-snapshot rest)

  snapshots-Unchanged : (s : Services B × B.World) → Unchanged s (snapshots B s).0
  unfolding snapshots
  snapshots-Unchanged s = elim (Bool-cases s.0.poisoned) [
    | inl bad ↦ simp bad (refl, λ other. refl)
    | inr good ↦ simp good (refl, λ other. ap (lookup other) (each-snapshot s.0.services s.1))
  ]

  -- The registry's control only reads in its snapshots and checks.
  pub control-IsReadOnly :
      (display : Error B → String) (fuel : ℕ) → IsReadOnly (control B display fuel) Unchanged
  control-IsReadOnly display fuel = record {
    same = λ s. (refl, λ id. refl);
    again = Unchanged-again;
    asking = snapshots-Unchanged;
    checking = preflight_launches-Unchanged;
  }
