-- ===== src/Cooperative/Admission.antt =====
-- src/application/cooperative_operations.rs: the first section of `begin` in a sound store.
use aku_supervisor.Base.{
  String, Bool, true, false, Option, none, some, List, [], ◌∷◌, ◌++◌, length, ◌≡◌, ◌⊎◌, inl, inr,
  refl, subst, ap, ◌∙◌, if◌then◌else◌, arith, Bool-cases, Option-cases, str_eq_iff, length-append,
  err, ◌<◌,
}
use aku_supervisor.Base.Maps.{OrdMap, lookup, lookup-insert, lookup-remove, insert, remove}
use aku_supervisor.Domain.Actor.{Actor}
use aku_supervisor.Domain.Reason.{Reason}
use aku_supervisor.Cooperative.Types.{
  retained_operations, CooperativeOperationError, CooperativeOperationSnapshot, OperationState,
}
use aku_supervisor.Cooperative.Begin.{
  evict, accept, admitted, answered, begin_at, admit, inserted, insert_operation,
  accepted_operation, activated,
}
use aku_supervisor.Cooperative.Retention.{
  Ordered, Tracked, Sound, is_running, evict-Ordered, push-Ordered, push-Tracked, remove-Tracked,
}

-- What an insertion does in a sound store in which the operation is new and none is active.
pub record Inserted (v : CooperativeOperationSnapshot) (s : OperationState) : Type 0 where
  pub after : OperationState
  pub computed : insert_operation v (activated v.request_id s) ≡ some after
  pub sound : Sound after
  pub active : after.active_request_id ≡ some v.request_id
  pub same_lock : after.is_poisoned ≡ s.is_poisoned
  pub kept :
      (k : String) (o : CooperativeOperationSnapshot)
      → lookup k s.operations ≡ some o
      → (lookup k after.operations ≡ none) ⊎ (lookup k after.operations ≡ some o)

pushed-Inserted :
    (v : CooperativeOperationSnapshot) (s : OperationState)
    (operations : OrdMap CooperativeOperationSnapshot) (order : List String)
    → evict s.operations s.order ≡ some (operations, order)
    → is_running v.status ≡ true
    → lookup v.request_id operations ≡ none
    → Ordered operations order
    → Tracked operations none
    → length order < retained_operations
    → ((k : String) (o : CooperativeOperationSnapshot)
        → lookup k s.operations ≡ some o
        → (lookup k (insert v.request_id v operations) ≡ none)
          ⊎ (lookup k (insert v.request_id v operations) ≡ some o))
    → Inserted v s
pushed-Inserted v s operations order e run free o t room kept = record {
  after = record {
    operations = insert v.request_id v operations;
    order = order ++ (v.request_id ∷ []);
    active_request_id = some v.request_id;
    is_poisoned = s.is_poisoned;
  };
  computed = rw e refl;
  sound = record {
    ordered = push-Ordered v.request_id v operations order free o;
    tracked = push-Tracked v.request_id v operations refl run t;
    bounded = omega (arith, length-append order (v.request_id ∷ []));
  };
  active = refl;
  same_lock = refl;
  kept = kept;
}

pub insert_operation-Inserted :
    (v : CooperativeOperationSnapshot) (s : OperationState)
    → Sound s
    → s.active_request_id ≡ none
    → is_running v.status ≡ true
    → lookup v.request_id s.operations ≡ none
    → Inserted v s
insert_operation-Inserted v s sound idle run free =
    let t = subst (λ (a : Option String). Tracked s.operations a) idle sound.tracked in
    elim (evict-Ordered s.operations s.order sound.ordered sound.bounded) [
      | inl (e, room) ↦
          pushed-Inserted v s s.operations s.order e run free sound.ordered t room (λ k o was. inr (
            ground (
              arith,
              lookup-insert v.request_id k v s.operations,
              str_eq_iff v.request_id k,
              free,
              was,
            )))
      | inr (oldest, rest, o, e, room) ↦
          let gone = λ (j : String). lookup-remove oldest j s.operations in
          pushed-Inserted v s (remove oldest s.operations) rest e run
            (ground (arith, gone v.request_id, free)) o (remove-Tracked oldest s.operations t) room
            (λ k o was. ground (
              arith,
              lookup-insert v.request_id k v (remove oldest s.operations),
              str_eq_iff v.request_id k,
              gone k,
              free,
              was,
            ))
    ]

-- What the first section of `begin` did when it admitted a request.
pub record Admission (request_id : String) (s s' : OperationState) : Type 0 where
  pub unlocked : s.is_poisoned ≡ false
  pub free : lookup request_id s.operations ≡ none
  pub idle : s.active_request_id ≡ none
  pub sound : Sound s'
  pub active : s'.active_request_id ≡ some request_id
  pub usable : s'.is_poisoned ≡ false
  pub kept :
      (k : String) (o : CooperativeOperationSnapshot)
      → lookup k s.operations ≡ some o
      → (lookup k s'.operations ≡ none) ⊎ (lookup k s'.operations ≡ some o)

module _ (target : String) (actor : Actor) (reason : Reason) (request_id : String) where
  abbrev operation : CooperativeOperationSnapshot
  operation = accepted_operation target actor reason request_id

  -- A new request is admitted when no other is active: the eviction ends.
  pub accept-new :
      (s : OperationState)
      → Sound s
      → s.is_poisoned ≡ false
      → lookup request_id s.operations ≡ none
      → s.active_request_id ≡ none
      → (s' : OperationState) × (accept target actor reason request_id s ≡ admitted s')
        × Admission request_id s s'
  unfolding accept
  accept-new s sound fine free idle =
      let done = insert_operation-Inserted operation s sound idle refl free in
      (
        done.after,
        ap
              (λ (b : Bool).
                if b
                then answered (err CooperativeOperationError.poisoned)
                else begin_at target actor reason request_id (lookup request_id s.operations) s)
              fine
            ∙ ap
                (λ (o : Option CooperativeOperationSnapshot).
                  begin_at target actor reason request_id o s)
                free
            ∙ ap (λ (a : Option String). admit target actor reason request_id a s) idle
            ∙ ap inserted done.computed,
        record {
          unlocked = fine;
          free = free;
          idle = idle;
          sound = done.sound;
          active = done.active;
          usable = done.same_lock ∙ fine;
          kept = done.kept;
        },
      )

  pub accept-Admission :
      (s s' : OperationState)
      → Sound s
      → accept target actor reason request_id s ≡ admitted s'
      → Admission request_id s s'
  unfolding accept
  accept-Admission s s' sound e = elim (Bool-cases s.is_poisoned) [
    | inl broken ↦ absurd (cc (simp broken at e))
    | inr fine ↦ elim (Option-cases (lookup request_id s.operations)) [
      | inr (existing, there) ↦ absurd (cc (simp (fine, there) at e))
      | inl free ↦ elim (Option-cases s.active_request_id) [
        | inr (other, busy) ↦ absurd (cc (simp (fine, free, busy) at e))
        | inl idle ↦
            let (s'', computed, admission) = accept-new s sound fine free idle in
            let same : s'' ≡ s' = cc in
            subst (λ (x : OperationState). Admission request_id s x) same admission
      ]
    ]
  ]
