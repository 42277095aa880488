-- ===== src/LiveLogs/Subscribers.antt =====
-- src/adapters/service_logs.rs: `publish_event`, the bounded queue of each subscriber and its count of the
-- events that it missed. The channel is `mpsc::sync_channel` of the standard library: `try_send` reports a
-- receiver that is gone, a queue that is full, or puts the event at the end.
use aku_supervisor.Base.{
  ℕ, ◌+◌, ◌≤◌, ◌<◌, min, Bool, true, Option, none, some, List, [], ◌∷◌, ◌++◌, length, length-append,
  leb, ltb, if◌then◌else◌, ◌≡◌, ap, ◌∙◌, inl, inr, refl, Bool-cases, arith,
}
use aku_supervisor.LiveLogs.Events.{LiveLogEvent, LiveLogSelection, selects, gap_event}
use aku_supervisor.LiveLogs.Ring.{Ring, push_ring}

abbrev pub queue_limit : ℕ
queue_limit = 256

abbrev pub u64_max : ℕ
u64_max = 18446744073709551615

pub record Subscriber : Type 0 where
  pub selection : LiveLogSelection
  pub queue : List LiveLogEvent
  pub connected : Bool
  pub dropped : ℕ  -- u64

pub data Sent : Type 0 where
  delivered : Subscriber → Sent
  full disconnected : Sent

unfoldable pub try_send : Subscriber → LiveLogEvent → Sent
try_send s event =
    if s.connected
    then (if leb queue_limit (length s.queue)
        then Sent.full
        else Sent.delivered (record s { queue = s.queue ++ (event ∷ []) }))
    else Sent.disconnected

-- `dropped.saturating_add(1)`
abbrev pub count_dropped : Subscriber → Subscriber
count_dropped s = record s { dropped = min (s.dropped + 1) u64_max }

-- The answer to sending the event itself; `none` is a subscriber that is removed.
abbrev pub after_event : Subscriber → Sent → Option Subscriber
after_event s (Sent.delivered t) = some t
after_event s Sent.full = some (count_dropped s)
after_event s Sent.disconnected = none

unfoldable pub send_event : Subscriber → LiveLogEvent → Option Subscriber
unfolding try_send
send_event s event = after_event s (try_send s event)

-- The answer to sending the gap.
abbrev pub after_gap : LiveLogEvent → Subscriber → Sent → Option Subscriber
after_gap event s (Sent.delivered t) = send_event (record t { dropped = 0 }) event
after_gap event s Sent.full = some (count_dropped s)
after_gap event s Sent.disconnected = none

-- One round of the loop over the subscribers. `now` is the clock's time.
unfoldable pub offer : (now : ℕ) → LiveLogEvent → Subscriber → Option Subscriber
offer now event s =
    if selects s.selection event.stream
    then (if ltb 0 s.dropped
        then after_gap event s (try_send s (gap_event now event s.dropped))
        else send_event s event)
    else some s

abbrev pub keep : ℕ → Option Subscriber → List (ℕ × Subscriber) → List (ℕ × Subscriber)
keep id none rest = rest
keep id (some s) rest = (id, s) ∷ rest

unfoldable pub offer_all : (now : ℕ) → LiveLogEvent → List (ℕ × Subscriber) → List (ℕ × Subscriber)
offer_all now event [] = []
offer_all now event ((id, s) ∷ rest) = keep id (offer now event s) (offer_all now event rest)

pub record LiveServiceState : Type 0 where
  pub ring : Ring
  pub stdout_partial : List ℕ
  pub stderr_partial : List ℕ
  pub subscribers : List (ℕ × Subscriber)

unfoldable pub publish_event : (now : ℕ) → LiveServiceState → LiveLogEvent → LiveServiceState
publish_event now service event = record service {
  ring = push_ring service.ring event;
  subscribers = offer_all now event service.subscribers;
}

-- How many lines an entry of the queue stands for: a gap stands for those it reports.
abbrev pub stands_for : Option ℕ → ℕ
stands_for none = 1
stands_for (some lost) = lost

unfoldable pub reported : List LiveLogEvent → ℕ
reported [] = 0
reported (e ∷ es) = stands_for e.dropped + reported es

-- The lines that a subscriber was given, was told that it missed, or will be told that it missed.
abbrev pub accounted : Subscriber → ℕ
accounted s = reported s.queue + s.dropped

reported-append :
    (es : List LiveLogEvent) (e : LiveLogEvent)
    → reported (es ++ (e ∷ [])) ≡ reported es + stands_for e.dropped
unfolding reported
reported-append [] e = omega arith
reported-append (x ∷ es) e = omega (arith, reported-append es e)

-- A subscriber that is still there, has a bounded queue, and accounts for one line more.
abbrev pub Took : Subscriber → Option Subscriber → Type 0
Took s none = ⊥
Took s (some t) =
    (accounted t ≡ accounted s + 1) × (length t.queue ≤ queue_limit) × (t.connected ≡ true)

Took-same :
    (s t : Subscriber) (o : Option Subscriber) → accounted s ≡ accounted t → Took s o → Took t o
Took-same s t none e h = h
Took-same s t (some u) e h = (h.0 ∙ ap (λ n. n + 1) e, h.1, h.2)

send_event-Took :
    (s : Subscriber) (event : LiveLogEvent)
    → s.connected ≡ true
    → length s.queue ≤ queue_limit
    → s.dropped < u64_max
    → event.dropped ≡ none
    → Took s (send_event s event)
unfolding send_event try_send
send_event-Took s event up bound small plain =
    elim (Bool-cases (leb queue_limit (length s.queue))) [
      | inl over ↦ rw (up, over) (omega (arith, small), bound, refl)
      | inr free ↦
          let more =
            reported-append s.queue event ∙ ap (λ d. reported s.queue + stands_for d) plain in
          let size = length-append s.queue (event ∷ []) in
          rw (up, free) (omega (arith, more), ground (arith, size), refl)
    ]

-- No line is lost in silence: when a line that a connected subscriber selects is published, the
-- subscriber stays, its queue keeps within 256 entries, and the lines in the queue, those that the gaps
-- in it report and those counted for the next gap are one more than before. The queue must keep
-- within its bound before, and the lines missed so far be fewer than a `u64` counts.
pub offer-Took :
    (now : ℕ) (event : LiveLogEvent) (s : Subscriber)
    → selects s.selection event.stream ≡ true
    → event.dropped ≡ none
    → s.connected ≡ true
    → length s.queue ≤ queue_limit
    → s.dropped < u64_max
    → Took s (offer now event s)
unfolding offer try_send
offer-Took now event s chosen plain up bound small = elim (Bool-cases (ltb 0 s.dropped)) [
  | inr fresh ↦ rw (chosen, fresh) (send_event-Took s event up bound small plain)
  | inl lost ↦ elim (Bool-cases (leb queue_limit (length s.queue))) [
    | inl over ↦ rw (chosen, lost, up, over) (omega (arith, small), bound, refl)
    | inr free ↦
        let gap = gap_event now event s.dropped in
        let size = length-append s.queue (gap ∷ []) in
        let told = record s { queue = s.queue ++ (gap ∷ []); connected = true; dropped = 0 } in
        let took = send_event-Took told event refl (ground (arith, size)) (omega arith) plain in
        let same : accounted told ≡ accounted s = omega (arith, reported-append s.queue gap) in
        simp (chosen, lost, up, free) (Took-same told s _ same took)
  ]
]
