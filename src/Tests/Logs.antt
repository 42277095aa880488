-- ===== src/Tests/Logs.antt =====
-- The theorems on the output of services.
use aku_supervisor.Base.{
  false, str_eq, ◌+◌, some, none, ℕ, true, [], ◌∷◌, ◌++◌, List, ◌≡◌, ◌↔◌, refl, arith, ok,
}
use aku_supervisor.Base.Maps.{lookup}
use aku_supervisor.LiveLogs.Cuts.{Cut, pieces-Cut}
use aku_supervisor.LiveLogs.Events.{
  LogStream, LiveLogEvent, LiveLogSelection, LiveLogCursor, line_event,
}
use aku_supervisor.LiveLogs.Lines.{pieces}
use aku_supervisor.LiveLogs.Ring.{Ring, IsBounded, Needed, push_ring, push_ring-IsBounded, total}
use aku_supervisor.LiveLogs.Hub.Limits.{Limited, subscribe-Limited}
use aku_supervisor.LiveLogs.Hub.{LiveLogState, subscribe, publish_lines}
use aku_supervisor.LiveLogs.Hub.Numbered.{Numbered, publish_lines-Numbered}
use aku_supervisor.LiveLogs.Hub.Resumed.{Among, Missed, subscribe-Missed}
use aku_supervisor.LiveLogs.Subscribers.{LiveServiceState, Subscriber, Took, offer, offer-Took}

abbrev bytes : List ℕ
bytes = 97 ∷ 13 ∷ 10 ∷ 98 ∷ []

pieces-Cut_example : Cut bytes (pieces 4 bytes)
pieces-Cut_example = pieces-Cut 4 bytes (omega arith)

abbrev line : ℕ → LiveLogEvent
line n = line_event 1000 "hub" "api" LogStream.stdout n (97 ∷ 98 ∷ [])

abbrev ring : Ring
ring = record { events = line 1 ∷ []; ring_bytes = 2 }

push_ring-IsBounded_example :
    IsBounded (push_ring ring (line 2))
    × ((front : List LiveLogEvent) × (ring.events ++ (line 2 ∷ [])
          ≡ front ++ (push_ring ring (line 2)).events)
        × Needed front (push_ring ring (line 2)).events)
unfolding total
push_ring-IsBounded_example =
    push_ring-IsBounded ring (line 2)
      (record { exact = refl; lines = omega arith; bytes = omega arith }) (omega arith)

abbrev reader : Subscriber
reader = record {
  selection = LiveLogSelection.stdout;
  queue = line 1 ∷ [];
  connected = true;
  dropped = 3;
}

offer-Took_example : Took reader (offer 1000 (line 5) reader)
offer-Took_example = offer-Took 1000 (line 5) reader refl refl refl (omega arith) (omega arith)

abbrev service : LiveServiceState
service = record {
  ring = ring;
  stdout_partial = [];
  stderr_partial = [];
  subscribers = (1, reader) ∷ [];
}

abbrev clock : ℕ → ℕ
clock n = 1000 + n

abbrev two_lines : ℕ × LiveServiceState
two_lines = publish_lines clock "hub" "api" LogStream.stdout ((97 ∷ []) ∷ (98 ∷ []) ∷ []) 1 service

publish_lines-Numbered_example :
    (two_lines.0 ≡ 1 + 2) × Numbered 0 two_lines.0 two_lines.1.ring.events
publish_lines-Numbered_example =
    publish_lines-Numbered clock "hub" "api" LogStream.stdout ((97 ∷ []) ∷ (98 ∷ []) ∷ []) 1 service
      (omega arith) (1, refl, omega arith, omega arith)

abbrev hub : LiveLogState
hub = record {
  next_sequence = 1;
  next_subscriber_id = 1;
  services = ("api", service) ∷ [];
  poisoned = false;
}

subscribe-Limited_example :
    Limited
      (lookup "api" (subscribe 1000 [] "hub" "api" LiveLogSelection.both 100 none hub).0.services)
unfolding lookup str_eq
subscribe-Limited_example =
    subscribe-Limited 1000 [] "hub" "api" LiveLogSelection.both 100 none hub service refl
      (omega arith)

abbrev busy : LiveServiceState
busy = record service { ring = record { events = line 1 ∷ line 2 ∷ line 4 ∷ []; ring_bytes = 6 } }

abbrev busy_hub : LiveLogState
busy_hub = record hub { next_sequence = 4; services = ("api", busy) ∷ [] }

abbrev last_seen : LiveLogCursor
last_seen = record { hub_instance_id = "hub"; sequence = 1 }

subscribe-Missed_example :
    (number : ℕ) × (initial : List LiveLogEvent) × ((subscribe 1000 [] "hub" "api"
        LiveLogSelection.stdout 0
        (some last_seen)
        busy_hub).1
      ≡ ok (number, initial))
    × Numbered 0 4 initial
    × ((e : LiveLogEvent)
        → Among e initial ↔ (Among e busy.ring.events × Missed LiveLogSelection.stdout 1 e))
unfolding lookup str_eq
subscribe-Missed_example =
    subscribe-Missed 1000 [] "api" LiveLogSelection.stdout 0 last_seen busy_hub busy refl refl
      (omega arith)
      (1, refl, omega arith, (2, refl, omega arith, (4, refl, omega arith, omega arith)))
