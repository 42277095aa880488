-- ===== src/LiveLogs/Hub.antt =====
-- src/adapters/service_logs.rs: the state of `LiveLogHub` behind its mutex. `lossy` is
-- `String::from_utf8_lossy`; `clock n` is the time that the code reads for the event with number `n`.
pub mod Numbered
pub mod Limits
pub mod Resumed
use aku_supervisor.Base.{
  ℕ, ◌+◌, ◌-◌, min, String, Bool, true, false, not, ◌&&◌, ◌||◌, Option, none, some, List, [], ◌∷◌,
  ◌++◌, Result, ok, err, length, drop, ltb, leb, ◌==◌, if◌then◌else◌, str_eq,
}
use aku_supervisor.Base.Maps.{OrdMap, lookup, insert}
use aku_supervisor.LiveLogs.Events.{
  LogStream, LiveLogSelection, LiveLogCursor, LiveLogEvent, selects, line_event, hub_reset_event,
}
use aku_supervisor.LiveLogs.Lines.{take_complete_lines}
use aku_supervisor.LiveLogs.Ring.{Ring}
use aku_supervisor.LiveLogs.Subscribers.{Subscriber, LiveServiceState, publish_event, u64_max}

pub record LiveLogState : Type 0 where
  pub next_sequence : ℕ
  pub next_subscriber_id : ℕ
  pub services : OrdMap LiveServiceState
  pub poisoned : Bool  -- the mutex's flag

-- Paths are texts, and an `io::Error` is the text that it prints.
pub data ServiceLogError : Type 0 where
  service_not_found : String → ServiceLogError
  too_many_subscribers : String → ServiceLogError
  lock_poisoned : ServiceLogError
  read : (path source : String) → ServiceLogError
  oversized : (path : String) (bytes : ℕ) → ServiceLogError

abbrev pub max_subscribers : ℕ
max_subscribers = 8

-- `saturating_add(1)` of a `u64`: the next sequence number and the next subscriber's id.
abbrev pub next_number : ℕ → ℕ
next_number n = min (n + 1) u64_max

abbrev pub partial_of : LogStream → LiveServiceState → List ℕ
partial_of LogStream.stdout service = service.stdout_partial
partial_of LogStream.stderr service = service.stderr_partial

abbrev pub set_partial : LogStream → List ℕ → LiveServiceState → LiveServiceState
set_partial LogStream.stdout bytes service = record service { stdout_partial = bytes }
set_partial LogStream.stderr bytes service = record service { stderr_partial = bytes }

module _ (clock : ℕ → ℕ) (instance_id : String) where
  -- The loop over the lines: the last number given out, and the service.
  unfoldable pub publish_lines :
      String → LogStream → List (List ℕ) → ℕ → LiveServiceState → ℕ × LiveServiceState
  publish_lines id stream [] n service = (n, service)
  publish_lines id stream (text ∷ rest) n service =
      let m = next_number n in
      publish_lines id stream rest m
        (publish_event (clock m) service (line_event (clock m) instance_id id stream m text))

  -- What `publish` and `close_stream` do with the service.
  abbrev pub emit :
      String → LogStream → List (List ℕ) × List ℕ → ℕ → LiveServiceState → ℕ × LiveServiceState
  emit id stream cut n service = publish_lines id stream cut.0 n (set_partial stream cut.1 service)

abbrev pub put_back : String → LiveLogState → ℕ × LiveServiceState → LiveLogState
put_back id state r = record state { next_sequence = r.0; services = insert id r.1 state.services }

module _ (lossy : List ℕ → List ℕ) (clock : ℕ → ℕ) (instance_id : String) where
  abbrev pub published :
      String → LogStream → List ℕ → Bool → LiveLogState → Option LiveServiceState → LiveLogState
  published id stream bytes close state none = state
  published id stream bytes close state (some service) = put_back id state (
      emit clock instance_id id stream
        (take_complete_lines lossy (partial_of stream service ++ bytes) close) state.next_sequence
        service)

  unfoldable pub publish : String → LogStream → List ℕ → LiveLogState → LiveLogState
  publish id stream bytes state =
      if state.poisoned
      then state
      else published id stream bytes false state (lookup id state.services)

  unfoldable pub close_stream : String → LogStream → LiveLogState → LiveLogState
  close_stream id stream state =
      if state.poisoned then state else published id stream [] true state (lookup id state.services)

abbrev pub newer : Option ℕ → ℕ → Bool
newer none sequence = false
newer (some n) sequence = ltb sequence n

-- The cursor, where it belongs to this hub.
abbrev pub own_cursor : String → Option LiveLogCursor → Option ℕ
own_cursor instance_id none = none
own_cursor instance_id (some cursor) =
    if str_eq cursor.hub_instance_id instance_id then some cursor.sequence else none

abbrev pub wanted : LiveLogSelection → Option ℕ → LiveLogEvent → Bool
wanted selection none event = selects selection event.stream
wanted selection (some sequence) event =
    selects selection event.stream && newer event.sequence sequence

unfoldable pub replay : LiveLogSelection → Option ℕ → List LiveLogEvent → List LiveLogEvent
replay selection cursor [] = []
replay selection cursor (e ∷ es) =
    let rest = replay selection cursor es in if wanted selection cursor e then e ∷ rest else rest

-- `initial.drain(..initial.len() - tail)`, where there is no cursor of this hub.
abbrev pub last_events : ℕ → Option ℕ → List LiveLogEvent → List LiveLogEvent
last_events tail (some sequence) events = events
last_events tail none events = drop (length events - tail) events

-- The id is the largest so far, or the last one again when the count of ids is used up.
unfoldable pub put : ℕ → Subscriber → List (ℕ × Subscriber) → List (ℕ × Subscriber)
put id s [] = (id, s) ∷ []
put id s ((j, t) ∷ rest) =
    let more = put id s rest in if j == id then (id, s) ∷ rest else (j, t) ∷ more

abbrev pub new_subscriber : LiveLogSelection → Subscriber
new_subscriber selection = record {
  selection = selection;
  queue = [];
  connected = true;
  dropped = 0;
}

module _ (now : ℕ) (reset_text : List ℕ) (instance_id : String) where
  abbrev pub with_reset :
      String → ℕ → Option ℕ → Option LiveLogCursor → List LiveLogEvent → List LiveLogEvent
  with_reset id high none (some cursor) events =
      hub_reset_event now reset_text instance_id cursor.hub_instance_id id high ∷ events
  with_reset id high _ _ events = events

  abbrev pub initial :
      String
      → LiveLogSelection
      → ℕ
      → Option LiveLogCursor
      → ℕ
      → List LiveLogEvent
      → List LiveLogEvent
  initial id selection tail cursor high events =
      let own = own_cursor instance_id cursor in
      with_reset id high own cursor (last_events tail own (replay selection own events))

  -- The answer is the subscriber's id and the initial events.
  abbrev pub subscribed :
      String
      → LiveLogSelection
      → ℕ
      → Option LiveLogCursor
      → LiveLogState
      → Option LiveServiceState
      → LiveLogState × Result ServiceLogError (ℕ × List LiveLogEvent)
  subscribed id selection tail cursor state none = (state, err (service_not_found id))
  subscribed id selection tail cursor state (some service) =
      if leb max_subscribers (length service.subscribers)
      then (state, err (too_many_subscribers id))
      else (
        record state {
          services =
              insert id
                (record service {
                  subscribers =
                      put state.next_subscriber_id (new_subscriber selection) service.subscribers;
                })
                state.services;
        },
        ok (
          state.next_subscriber_id,
          initial id selection tail cursor state.next_sequence service.ring.events,
        ),
      )

  unfoldable pub subscribe :
      String
      → LiveLogSelection
      → ℕ
      → Option LiveLogCursor
      → LiveLogState
      → LiveLogState × Result ServiceLogError (ℕ × List LiveLogEvent)
  subscribe id selection tail cursor state =
      if state.poisoned
      then (state, err lock_poisoned)
      else subscribed id selection tail cursor
          (record state { next_subscriber_id = next_number state.next_subscriber_id })
          (lookup id state.services)

unfoldable pub without : ℕ → List (ℕ × Subscriber) → List (ℕ × Subscriber)
without id [] = []
without id ((j, t) ∷ rest) = let more = without id rest in if j == id then more else (j, t) ∷ more

abbrev pub left : String → ℕ → LiveLogState → Option LiveServiceState → LiveLogState
left service_id id state none = state
left service_id id state (some service) = record state {
  services =
      insert service_id (record service { subscribers = without id service.subscribers })
        state.services;
}

unfoldable pub unsubscribe : String → ℕ → LiveLogState → LiveLogState
unsubscribe service_id id state =
    if state.poisoned then state else left service_id id state (lookup service_id state.services)
