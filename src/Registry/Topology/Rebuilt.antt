-- ===== src/Registry/Topology/Rebuilt.antt =====
-- src/application/service_registry.rs: what the loop of `reconcile_registrations` that fills the new map puts in it.
use aku_supervisor.Base.{
  String, Bool, Option, none, some, List, [], ◌∷◌, ok, if◌then◌else◌, str_eq, str_eq_iff, ◌≡◌, inl,
  inr, refl, ◌∙◌, subst, Bool-cases, Option-cases, ok-injective, arith,
}
use aku_supervisor.Base.Maps.{OrdMap, lookup, insert, lookup-insert, lookup-remove}
use aku_supervisor.Base.Keys.{Unique, insert-Unique}
use aku_supervisor.Registry.Types.{ServiceRegistration}
use aku_supervisor.Registry.Entry
use aku_supervisor.Registry.Entry.{ServiceEntry}
use aku_supervisor.Registry.Topology.{Registry, Rebuild, collect, place, rebuild, starting, rebuilt}

module _ {J : Type 0} where
  collect-Unique :
      (rs : List (ServiceRegistration J)) (m desired : OrdMap (ServiceRegistration J))
      → Unique m
      → collect rs m ≡ ok desired
      → Unique desired
  unfolding collect
  collect-Unique [] m desired u e =
      subst (λ (d : OrdMap (ServiceRegistration J)). Unique d) (ok-injective e) u
  collect-Unique (r ∷ rs) m desired u e = elim (Option-cases (lookup r.id m)) [
    | inl free ↦
        collect-Unique rs (insert r.id r m) desired (insert-Unique r.id r m free u) (rw free at e)
    | inr (other, taken) ↦ absurd (cc (rw taken at e))
  ]

module _ {J P : Type 0} (same : ServiceRegistration J → ServiceRegistration J → Bool) where
  -- The entry that a service has afterwards, from its registration and its entry before.
  abbrev pub target :
      Option (ServiceRegistration J) → Option (ServiceEntry J P) → Option (ServiceEntry J P)
  target none old = none
  target (some r) none = some (Entry.new r)
  target (some r) (some entry) =
      if same r entry.registration then some entry else some (Entry.new r)

  abbrev placed :
      Option (ServiceRegistration J)
      → (old next : Option (ServiceEntry J P)) → Option (ServiceEntry J P)
  placed none old next = next
  placed (some r) old next = target (some r) old

  place-next :
      (k id : String) (r : ServiceRegistration J) (o : Option (ServiceEntry J P)) (b : Rebuild J P)
      → lookup id (place same k r o b).next
        ≡ (if str_eq k id then target (some r) o else lookup id b.next)
  place-next k id r none b = lookup-insert k id (Entry.new r) b.next
  place-next k id r (some entry) b = elim (Bool-cases (same r entry.registration)) [
    | inl eq ↦ rw eq (lookup-insert k id entry b.next)
    | inr ne ↦ rw ne (lookup-insert k id (Entry.new r) b.next)
  ]

  place-current :
      (k id : String) (r : ServiceRegistration J) (o : Option (ServiceEntry J P)) (b : Rebuild J P)
      → lookup id (place same k r o b).current ≡ (if str_eq k id then none else lookup id b.current)
  place-current k id r none b = lookup-remove k id b.current
  place-current k id r (some entry) b = elim (Bool-cases (same r entry.registration)) [
    | inl eq ↦ rw eq (lookup-remove k id b.current)
    | inr ne ↦ rw ne (lookup-remove k id b.current)
  ]

  rebuild-lookup :
      (ds : OrdMap (ServiceRegistration J)) (b : Rebuild J P) (id : String)
      → Unique ds
      → lookup id (rebuild same ds b).next
        ≡ placed (lookup id ds) (lookup id b.current) (lookup id b.next)
  unfolding rebuild lookup
  rebuild-lookup [] b id u = refl
  rebuild-lookup ((k, r) ∷ rest) b id u =
      let step = place same k r (lookup k b.current) b in
      let later = rebuild-lookup rest step id u.1 in
      let next = place-next k id r (lookup k b.current) b in
      let current = place-current k id r (lookup k b.current) b in
      elim (Bool-cases (str_eq k id)) [
        | inl hit ↦ ground (arith, str_eq_iff k id, u.0, later, next, current)
        | inr miss ↦ ground (arith, later, next, current)
      ]

  placed-none :
      (d : Option (ServiceRegistration J)) (old : Option (ServiceEntry J P))
      → placed d old none ≡ target d old
  placed-none none old = refl
  placed-none (some r) old = refl

  pub rebuilt-target :
      (rs : List (ServiceRegistration J)) (desired : OrdMap (ServiceRegistration J))
      (registry : Registry J P) (id : String)
      → collect rs [] ≡ ok desired
      → lookup id (rebuilt same desired registry).0.services
        ≡ target (lookup id desired) (lookup id registry.services)
  unfolding lookup
  rebuilt-target rs desired registry id e =
      rebuild-lookup desired (starting same registry.services) id
        (collect-Unique rs [] desired tt e)
      ∙ placed-none (lookup id desired) (lookup id registry.services)
