-- ===== src/Cooperative/Kept.antt =====
-- src/application/cooperative_operations.rs: each critical section keeps the invariant of the store.
use aku_supervisor.Base.{
  String, true, false, Option, none, some, is_some, List, ◌≡◌, inl, inr, refl, subst, arith,
  Bool-cases, str_eq_refl, Result, ok, err,
}
use aku_supervisor.Base.Maps.{OrdMap, lookup, lookup-remove, remove, update}
use aku_supervisor.Base.Keys.{
  occurs, without, remove-Unique, update-Unique, length-remove, length-update, length-without,
  lookup-update, changed-is_some, update-some, occurs-without, without-Distinct,
}
use aku_supervisor.Cooperative.Types.{
  CooperativeActionProgress, CooperativeActionOutcome, CooperativeActionError,
  CooperativeOperationSnapshot, OperationState,
}
use aku_supervisor.Cooperative.Begin.{abandon}
use aku_supervisor.Cooperative.Worker.{update_progress, finish, progressed, ended}
use aku_supervisor.Cooperative.Retention.{Ordered, Tracked, Sound, is_running}

taken-Ordered :
    (k : String) (operations : OrdMap CooperativeOperationSnapshot) (order : List String)
    → Ordered operations order
    → is_some (lookup k operations) ≡ true
    → Ordered (remove k operations) (without k order)
taken-Ordered k operations order o there = record {
  unique = remove-Unique k operations o.unique;
  distinct = without-Distinct k order o.distinct;
  same = λ j. ground (arith, lookup-remove k j operations, occurs-without j k order, o.same j);
  count = omega (
    arith,
    o.count,
    length-remove k operations o.unique there,
    length-without k order o.distinct (ground (arith, o.same k, there)),
  );
}

taken-Tracked :
    (k : String) (operations : OrdMap CooperativeOperationSnapshot)
    → Tracked operations (some k)
    → Tracked (remove k operations) none
taken-Tracked k operations t = record {
  named = λ j o e. ground (arith, lookup-remove k j operations, t.named j o, e);
  running = λ j o e. ground (arith, lookup-remove k j operations, t.running j o, e);
  present = λ j e. absurd (cc e);
}

pub abandon-Sound :
    (request_id error : String) (s : OperationState)
    → Sound s
    → s.active_request_id ≡ some request_id
    → Sound (abandon request_id error s).0
unfolding abandon
abandon-Sound request_id error s sound active = elim (Bool-cases s.is_poisoned) [
  | inl broken ↦ simp broken sound
  | inr fine ↦ simp fine (record {
    ordered = taken-Ordered request_id s.operations s.order sound.ordered there;
    tracked =
        taken-Tracked request_id s.operations
          (subst (λ (a : Option String). Tracked s.operations a) active sound.tracked);
    bounded =
        omega
          (arith, sound.bounded, length-without request_id s.order sound.ordered.distinct listed);
  })
]
  where
    there : is_some (lookup request_id s.operations) ≡ true
    there = sound.tracked.present request_id active

    listed : occurs request_id s.order ≡ true
    listed = ground (arith, sound.ordered.same request_id, there)

update-Ordered :
    (k : String) (f : CooperativeOperationSnapshot → CooperativeOperationSnapshot)
    (operations : OrdMap CooperativeOperationSnapshot) (order : List String)
    → Ordered operations order
    → Ordered (update k f operations) order
update-Ordered k f operations order o = record {
  unique = update-Unique k f operations o.unique;
  distinct = o.distinct;
  same = λ j.
      ground
        (arith, lookup-update k j f operations, changed-is_some f (lookup j operations), o.same j);
  count = omega (arith, length-update k f operations, o.count);
}

progressed-Tracked :
    (k : String) (change : CooperativeActionProgress)
    (operations : OrdMap CooperativeOperationSnapshot) (active : Option String)
    → Tracked operations active
    → Tracked (update k (progressed change) operations) active
progressed-Tracked k change operations active t = record {
  named = λ j o e.
      let (w, was, is) = update-some k j (progressed change) operations o e in
      ground (arith, is, t.named j w was);
  running = λ j o e.
      let (w, was, is) = update-some k j (progressed change) operations o e in
      ground (arith, is, t.running j w was);
  present = λ j e. ground (
    arith,
    lookup-update k j (progressed change) operations,
    changed-is_some (progressed change) (lookup j operations),
    t.present j e,
  );
}

pub update_progress-Sound :
    (request_id : String) (change : CooperativeActionProgress) (s : OperationState)
    → Sound s
    → Sound (update_progress request_id change s)
unfolding update_progress
update_progress-Sound request_id change s sound = elim (Bool-cases s.is_poisoned) [
  | inl broken ↦ simp broken sound
  | inr fine ↦ simp fine (record {
    ordered = update-Ordered request_id (progressed change) s.operations s.order sound.ordered;
    tracked = progressed-Tracked request_id change s.operations s.active_request_id sound.tracked;
    bounded = sound.bounded;
  })
]

ended-request_id :
    (result : Result CooperativeActionError CooperativeActionOutcome)
    (o : CooperativeOperationSnapshot)
    → (ended result o).request_id ≡ o.request_id
ended-request_id (ok outcome) o = refl
ended-request_id (err error) o = refl

ended-status :
    (result : Result CooperativeActionError CooperativeActionOutcome)
    (o : CooperativeOperationSnapshot)
    → is_running (ended result o).status ≡ false
ended-status (ok outcome) o = refl
ended-status (err error) o = refl

ended-Tracked :
    (k : String) (result : Result CooperativeActionError CooperativeActionOutcome)
    (operations : OrdMap CooperativeOperationSnapshot)
    → Tracked operations (some k)
    → Tracked (update k (ended result) operations) none
ended-Tracked k result operations t = record {
  named = λ j o e.
      let (w, was, is) = update-some k j (ended result) operations o e in
      ground (arith, is, t.named j w was, ended-request_id result w);
  running = λ j o e.
      let (w, was, is) = update-some k j (ended result) operations o e in
      ground (arith, is, t.running j w was, ended-status result w);
  present = λ j e. absurd (cc e);
}

-- A worker's last section, run for the active request.
pub finish-Sound :
    (request_id : String) (result : Result CooperativeActionError CooperativeActionOutcome)
    (s : OperationState)
    → Sound s
    → s.active_request_id ≡ some request_id
    → Sound (finish request_id result s)
unfolding finish
finish-Sound request_id result s sound active = elim (Bool-cases s.is_poisoned) [
  | inl broken ↦ simp broken sound
  | inr fine ↦
      simp (fine, sound.tracked.present request_id active, active, str_eq_refl request_id)
        (record {
          ordered = update-Ordered request_id (ended result) s.operations s.order sound.ordered;
          tracked =
              ended-Tracked request_id result s.operations
                (subst (λ (a : Option String). Tracked s.operations a) active sound.tracked);
          bounded = sound.bounded;
        })
]
