-- ===== src/LiveLogs/Hub/Resumed.antt =====
-- src/adapters/service_logs.rs: what a subscriber that comes back with a cursor is given.
use aku_supervisor.Base.{
  ℕ, ◌<◌, String, true, false, Option, none, some, List, [], ◌∷◌, ok, length, leb, ltb, str_eq_refl,
  sym, subst, Bool-cases, inl, inr, ◌⊎◌, ◌↔◌, ◌≡◌, refl, arith,
}
use aku_supervisor.Base.Maps.{lookup}
use aku_supervisor.LiveLogs.Events.{
  LogStream, LiveLogEvent, LiveLogSelection, LiveLogCursor, selects,
}
use aku_supervisor.LiveLogs.Subscribers.{LiveServiceState}
use aku_supervisor.LiveLogs.Hub.{
  LiveLogState, max_subscribers, next_number, newer, wanted, replay, subscribe,
}
use aku_supervisor.LiveLogs.Hub.Numbered.{Numbered, Numbered-lower}

-- The event is in the list.
abbrev pub Among : LiveLogEvent → List LiveLogEvent → Type 0
Among e [] = ⊥
Among e (x ∷ xs) = (x ≡ e) ⊎ Among e xs

-- A selection takes the stream of its own name, or both.
pub data Shows : LiveLogSelection → LogStream → Type 0 where
  each : {stream : LogStream} → Shows LiveLogSelection.both stream
  output : Shows LiveLogSelection.stdout LogStream.stdout
  errors : Shows LiveLogSelection.stderr LogStream.stderr

-- The event is of a selected stream and has a number above the cursor's.
abbrev pub Missed : LiveLogSelection → ℕ → LiveLogEvent → Type 0
Missed selection cursor e =
    ((stream : LogStream) × (e.stream ≡ some stream) × Shows selection stream)
    × ((n : ℕ) × (e.sequence ≡ some n) × (cursor < n))

selects-Shows :
    (selection : LiveLogSelection) (stream : Option LogStream)
    → selects selection stream ≡ true
    → (s : LogStream) × (stream ≡ some s) × Shows selection s
selects-Shows selection none e = absurd (cc e)
selects-Shows LiveLogSelection.both (some s) e = (s, refl, each)
selects-Shows LiveLogSelection.stdout (some LogStream.stdout) e = (LogStream.stdout, refl, output)
selects-Shows LiveLogSelection.stdout (some LogStream.stderr) e = absurd (cc e)
selects-Shows LiveLogSelection.stderr (some LogStream.stdout) e = absurd (cc e)
selects-Shows LiveLogSelection.stderr (some LogStream.stderr) e = (LogStream.stderr, refl, errors)

Shows-selects :
    (selection : LiveLogSelection) (s : LogStream)
    → Shows selection s
    → selects selection (some s) ≡ true
Shows-selects _ _ each = refl
Shows-selects _ _ output = refl
Shows-selects _ _ errors = refl

newer_number :
    (cursor : ℕ) (o : Option ℕ) → newer o cursor ≡ true → (n : ℕ) × (o ≡ some n) × (cursor < n)
newer_number cursor none e = absurd (cc e)
newer_number cursor (some n) e = (n, refl, ground (arith, e))

wanted-Missed :
    (selection : LiveLogSelection) (cursor : ℕ) (e : LiveLogEvent)
    → wanted selection (some cursor) e ≡ true
    → Missed selection cursor e
wanted-Missed selection cursor e w = (
  selects-Shows selection e.stream (ground (arith, w)),
  newer_number cursor e.sequence (ground (arith, w)),
)

Missed-wanted :
    (selection : LiveLogSelection) (cursor : ℕ) (e : LiveLogEvent)
    → Missed selection cursor e
    → wanted selection (some cursor) e ≡ true
Missed-wanted selection cursor e ((s, there, shown), (n, numbered, less)) =
    let taken = Shows-selects selection s shown in
    let later : ltb cursor n ≡ true = ground (arith, less) in
    rw (there, numbered, taken, later) refl

replay-Among :
    (selection : LiveLogSelection) (cursor : ℕ) (e : LiveLogEvent) (es : List LiveLogEvent)
    → Among e (replay selection (some cursor) es)
    → Among e es × Missed selection cursor e
unfolding replay
replay-Among selection cursor e [] a = absurd a
replay-Among selection cursor e (x ∷ xs) a = elim (Bool-cases (wanted selection (some cursor) x)) [
  | inr miss ↦
      let (there, missed) = replay-Among selection cursor e xs (rw miss at a) in (inr there, missed)
  | inl hit ↦
      let here : (x ≡ e) ⊎ Among e (replay selection (some cursor) xs) = rw hit at a in
      elim here [
        | inl same ↦ (
          inl same,
          subst (λ (y : LiveLogEvent). Missed selection cursor y) same
              (wanted-Missed selection cursor x hit),
        )
        | inr later ↦
            let (there, missed) = replay-Among selection cursor e xs later in (inr there, missed)
      ]
]

Among-replay :
    (selection : LiveLogSelection) (cursor : ℕ) (e : LiveLogEvent) (es : List LiveLogEvent)
    → Missed selection cursor e
    → Among e es
    → Among e (replay selection (some cursor) es)
unfolding replay
Among-replay selection cursor e [] missed a = absurd a
Among-replay selection cursor e (x ∷ xs) missed (inl same) =
    let hit : wanted selection (some cursor) x ≡ true =
      subst (λ (y : LiveLogEvent). wanted selection (some cursor) y ≡ true) (sym same)
        (Missed-wanted selection cursor e missed) in
    rw hit (inl same)
Among-replay selection cursor e (x ∷ xs) missed (inr there) =
    elim (Bool-cases (wanted selection (some cursor) x)) [
      | inr miss ↦ rw miss (Among-replay selection cursor e xs missed there)
      | inl hit ↦ rw hit (inr (Among-replay selection cursor e xs missed there))
    ]

replay-Numbered :
    (selection : LiveLogSelection) (cursor : Option ℕ) (low high : ℕ) (es : List LiveLogEvent)
    → Numbered low high es
    → Numbered low high (replay selection cursor es)
unfolding replay
replay-Numbered selection cursor low high [] h = h
replay-Numbered selection cursor low high (e ∷ es) (n, q, less, more) =
    let rest = replay-Numbered selection cursor n high es more in
    elim (Bool-cases (wanted selection cursor e)) [
      | inl hit ↦ rw hit (n, q, less, rest)
      | inr miss ↦
          rw miss
            (Numbered-lower low n high (replay selection cursor es) (omega (arith, less)) rest)
    ]

-- When a service has room for a subscriber, and its ring's events are numbered in ascending order up to
-- the hub's last number, a subscription with a cursor of this hub is granted whatever its tail, and its
-- initial events are, in ascending order of their numbers, exactly the events of the ring that are of a
-- selected stream and have a number above the cursor's.
pub subscribe-Missed :
    (now : ℕ) (reset_text : List ℕ) (id : String) (selection : LiveLogSelection) (tail : ℕ)
    (cursor : LiveLogCursor) (state : LiveLogState) (service : LiveServiceState)
    → state.poisoned ≡ false
    → lookup id state.services ≡ some service
    → length service.subscribers < max_subscribers
    → Numbered 0 state.next_sequence service.ring.events
    → (number : ℕ) × (initial : List LiveLogEvent) × ((subscribe now reset_text
          cursor.hub_instance_id id selection tail
          (some cursor)
          state).1
        ≡ ok (number, initial))
      × Numbered 0 state.next_sequence initial
      × ((e : LiveLogEvent)
          → Among e initial ↔ (Among e service.ring.events × Missed selection cursor.sequence e))
unfolding subscribe
subscribe-Missed now reset_text id selection tail cursor state service good here room numbered =
    let few : leb max_subscribers (length service.subscribers) ≡ false = ground (arith, room) in
    (
      next_number state.next_subscriber_id,
      replay selection (some cursor.sequence) service.ring.events,
      simp (good, here, few, str_eq_refl) refl,
      replay-Numbered selection (some cursor.sequence) 0 state.next_sequence service.ring.events
          numbered,
      λ e. (
        replay-Among selection cursor.sequence e service.ring.events,
        λ (there, missed).
            Among-replay selection cursor.sequence e service.ring.events missed there,
      ),
    )
