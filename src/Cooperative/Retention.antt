-- ===== src/Cooperative/Retention.antt =====
-- src/application/cooperative_operations.rs: the invariant of the store, and that each section
-- keeps it.
use aku_supervisor.Base.{
  String, Bool, true, false, Option, none, some, is_some, List, [], ◌∷◌, ◌++◌, length, ◌≤◌, ◌≡◌,
  ◌⊎◌, inl, inr, refl, arith, Bool-cases, str_eq_iff, str_eq_refl, leb, length-append, ◌<◌,
}
use aku_supervisor.Base.Maps.{OrdMap, lookup, lookup-insert, lookup-remove, insert, remove}
use aku_supervisor.Base.Keys.{
  Unique, Distinct, occurs, insert-Unique, remove-Unique, length-insert, length-remove,
  occurs-append, append-Distinct,
}
use aku_supervisor.Cooperative.Types.{
  retained_operations, CooperativeOperationStatus, CooperativeOperationSnapshot, OperationState,
}
use aku_supervisor.Cooperative.Begin.{evict}
use aku_supervisor.Cooperative.Worker.{is_active}

abbrev pub is_running : CooperativeOperationStatus → Bool
is_running CooperativeOperationStatus.running = true
is_running CooperativeOperationStatus.completed = false
is_running CooperativeOperationStatus.failed = false

-- `order` lists the retained operations, once each.
pub record Ordered (operations : OrdMap CooperativeOperationSnapshot) (order : List String)
    : Type 0 where
  pub unique : Unique operations
  pub distinct : Distinct order
  pub same : (k : String) → is_some (lookup k operations) ≡ occurs k order
  pub count : length operations ≡ length order

-- The operations are kept under their own ids, and the running ones are the active one.
pub record Tracked (operations : OrdMap CooperativeOperationSnapshot) (active : Option String)
    : Type 0 where
  pub named :
      (k : String) (o : CooperativeOperationSnapshot)
      → lookup k operations ≡ some o
      → o.request_id ≡ k
  pub running :
      (k : String) (o : CooperativeOperationSnapshot)
      → lookup k operations ≡ some o
      → is_running o.status ≡ is_active k active
  pub present : (k : String) → active ≡ some k → is_some (lookup k operations) ≡ true

pub record Sound (s : OperationState) : Type 0 where
  pub ordered : Ordered s.operations s.order
  pub tracked : Tracked s.operations s.active_request_id
  pub bounded : length s.order ≤ retained_operations

pop-Ordered :
    (operations : OrdMap CooperativeOperationSnapshot) (oldest : String) (order : List String)
    → Ordered operations (oldest ∷ order)
    → Ordered (remove oldest operations) order
unfolding occurs
pop-Ordered operations oldest order o = record {
  unique = remove-Unique oldest operations o.unique;
  distinct = o.distinct.1;
  same = λ k.
      ground
        (arith, lookup-remove oldest k operations, o.same k, o.distinct.0, str_eq_iff oldest k);
  count = omega (
    arith,
    o.count,
    length-remove oldest operations o.unique (ground (arith, o.same oldest, str_eq_refl oldest)),
  );
}

evict_below :
    (operations : OrdMap CooperativeOperationSnapshot) (order : List String)
    → length operations < retained_operations
    → evict operations order ≡ some (operations, order)
unfolding evict
evict_below operations [] b = ground arith
evict_below operations (oldest ∷ order) b = ground arith

-- With the bound kept, an eviction ends and pops one operation at most.
pub evict-Ordered :
    (operations : OrdMap CooperativeOperationSnapshot) (order : List String)
    → Ordered operations order
    → length order ≤ retained_operations
    → (evict operations order ≡ some (operations, order)) × (length order < retained_operations)
      ⊎ (oldest : String) × (rest : List String) × Ordered (remove oldest operations) rest
        × (evict operations order ≡ some (remove oldest operations, rest))
        × (length rest < retained_operations)
unfolding evict
evict-Ordered operations [] o b =
    inl (evict_below operations [] (omega (arith, o.count)), omega arith)
evict-Ordered operations (oldest ∷ rest) o b =
    elim (Bool-cases (leb retained_operations (length operations))) [
      | inl full ↦
          let popped = pop-Ordered operations oldest rest o in
          inr (
            oldest,
            rest,
            popped,
            rw full (evict_below (remove oldest operations) rest (omega (arith, popped.count))),
            omega arith,
          )
      | inr room ↦ inl (rw room refl, ground (arith, room, o.count))
    ]

pub push-Ordered :
    (k : String) (v : CooperativeOperationSnapshot)
    (operations : OrdMap CooperativeOperationSnapshot) (order : List String)
    → lookup k operations ≡ none
    → Ordered operations order
    → Ordered (insert k v operations) (order ++ (k ∷ []))
push-Ordered k v operations order free o = record {
  unique = insert-Unique k v operations free o.unique;
  distinct = append-Distinct k order (ground (arith, o.same k)) o.distinct;
  same = λ j. ground (arith, lookup-insert k j v operations, occurs-append j k order, o.same j);
  count = omega (arith, length-insert k v operations free, o.count, length-append order (k ∷ []));
}

pub push-Tracked :
    (k : String) (v : CooperativeOperationSnapshot)
    (operations : OrdMap CooperativeOperationSnapshot)
    → v.request_id ≡ k
    → is_running v.status ≡ true
    → Tracked operations none
    → Tracked (insert k v operations) (some k)
push-Tracked k v operations id run t = record {
  named = λ j o e. ground (arith, lookup-insert k j v operations, str_eq_iff k j, t.named j o, e);
  running =
      λ j o e. ground (arith, lookup-insert k j v operations, str_eq_iff k j, t.running j o, e);
  present = λ j e. ground (arith, lookup-insert k j v operations, str_eq_iff k j, e);
}

pub remove-Tracked :
    (k : String) (operations : OrdMap CooperativeOperationSnapshot)
    → Tracked operations none
    → Tracked (remove k operations) none
remove-Tracked k operations t = record {
  named = λ j o e. ground (arith, lookup-remove k j operations, t.named j o, e);
  running = λ j o e. ground (arith, lookup-remove k j operations, t.running j o, e);
  present = λ j e. absurd (cc e);
}
