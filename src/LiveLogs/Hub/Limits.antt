-- ===== src/LiveLogs/Hub/Limits.antt =====
-- src/adapters/service_logs.rs: the limit on the subscribers of a service.
use aku_supervisor.Base.{
  ℕ, suc, ◌≤◌, String, Option, none, some, List, [], ◌∷◌, length, leb, ◌==◌, str_eq_refl,
  Bool-cases, inl, inr, ◌≡◌, arith,
}
use aku_supervisor.Base.Maps.{lookup, lookup-insert}
use aku_supervisor.LiveLogs.Events.{LiveLogSelection, LiveLogCursor}
use aku_supervisor.LiveLogs.Subscribers.{Subscriber, LiveServiceState}
use aku_supervisor.LiveLogs.Hub.{
  LiveLogState, max_subscribers, put, new_subscriber, subscribe, next_number,
}

length-put :
    (id : ℕ) (s : Subscriber) (xs : List (ℕ × Subscriber)) → length (put id s xs) ≤ suc (length xs)
unfolding put
length-put id s [] = omega arith
length-put id s ((j, t) ∷ rest) = elim (Bool-cases (j == id)) [
  | inl hit ↦ rw hit (omega arith)
  | inr miss ↦ rw miss (omega (arith, length-put id s rest))
]

-- The service is there and within the limit.
abbrev pub Limited : Option LiveServiceState → Type 0
Limited none = ⊥
Limited (some service) = length service.subscribers ≤ max_subscribers

-- A service with at most eight subscribers has at most eight after a subscription, whether that is
-- granted or refused.
pub subscribe-Limited :
    (now : ℕ) (reset_text : List ℕ) (instance_id id : String) (selection : LiveLogSelection)
    (tail : ℕ) (cursor : Option LiveLogCursor) (state : LiveLogState) (service : LiveServiceState)
    → lookup id state.services ≡ some service
    → length service.subscribers ≤ max_subscribers
    → Limited
        (lookup id (subscribe now reset_text instance_id id selection tail cursor state).0.services)
unfolding subscribe
subscribe-Limited now reset_text instance_id id selection tail cursor state service here few =
    elim (Bool-cases state.poisoned) [
      | inl bad ↦ simp (bad, here) few
      | inr good ↦ elim (Bool-cases (leb max_subscribers (length service.subscribers))) [
        | inl many ↦ simp (good, here, many) few
        | inr room ↦
            let added =
              put (next_number state.next_subscriber_id) (new_subscriber selection)
                service.subscribers in
            let size =
              length-put (next_number state.next_subscriber_id) (new_subscriber selection)
                service.subscribers in
            simp (good, here, room, lookup-insert, str_eq_refl) (ground (arith, size))
      ]
    ]
