-- ===== src/LiveLogs/Hub/Numbered.antt =====
-- src/adapters/service_logs.rs: the numbers of the events in a service's ring.
use aku_supervisor.Base.{
  ℕ, ◌+◌, ◌-◌, ◌≤◌, ◌<◌, min, String, some, List, [], ◌∷◌, ◌++◌, length, ap, subst, sym, Bool-cases,
  inl, inr, ◌≡◌, arith,
}
use aku_supervisor.LiveLogs.Events.{LogStream, LiveLogEvent, text_len, line_event}
use aku_supervisor.LiveLogs.Ring.{over, evict, push_ring}
use aku_supervisor.LiveLogs.Subscribers.{LiveServiceState, publish_event, u64_max}
use aku_supervisor.LiveLogs.Hub.{next_number, publish_lines}

-- The events have numbers that ascend, above `low` and up to `high`.
abbrev pub Numbered : ℕ → ℕ → List LiveLogEvent → Type 0
Numbered low high [] = low ≤ high
Numbered low high (e ∷ es) = (n : ℕ) × (e.sequence ≡ some n) × (low < n) × Numbered n high es

pub Numbered-lower :
    (low n high : ℕ) (es : List LiveLogEvent) → low ≤ n → Numbered n high es → Numbered low high es
Numbered-lower low n high [] h k = omega (arith, k)
Numbered-lower low n high (e ∷ es) h (m, q, less, more) = (m, q, omega (arith, less), more)

Numbered-append :
    (low high : ℕ) (es : List LiveLogEvent) (e : LiveLogEvent)
    → e.sequence ≡ some (high + 1)
    → Numbered low high es
    → Numbered low (high + 1) (es ++ (e ∷ []))
Numbered-append low high [] e q k = (high + 1, q, omega (arith, k), omega arith)
Numbered-append low high (x ∷ es) e q (m, r, less, more) =
    (m, r, less, Numbered-append m high es e q more)

evict-Numbered :
    (low high : ℕ) (es : List LiveLogEvent) (bytes : ℕ)
    → Numbered low high es
    → Numbered low high (evict es bytes).events
unfolding evict
evict-Numbered low high [] bytes h = h
evict-Numbered low high (e ∷ es) bytes (m, q, less, more) =
    elim (Bool-cases (over (e ∷ es) bytes)) [
      | inr o ↦ rw o (m, q, less, more)
      | inl o ↦ rw o (
          Numbered-lower low m high (evict es (bytes - text_len e.text)).events
            (omega (arith, less)) (evict-Numbered m high es (bytes - text_len e.text) more))
    ]

-- Published lines keep the ring's events numbered in ascending order up to the last number given out,
-- which has grown by one for each line, while the numbers fit in a `u64`.
pub publish_lines-Numbered :
    (clock : ℕ → ℕ) (instance_id id : String) (stream : LogStream) (lines : List (List ℕ)) (n : ℕ)
    (service : LiveServiceState)
    → n + length lines ≤ u64_max
    → Numbered 0 n service.ring.events
    → let r = publish_lines clock instance_id id stream lines n service in
      (r.0 ≡ n + length lines) × Numbered 0 r.0 r.1.ring.events
unfolding publish_lines publish_event push_ring
publish_lines-Numbered clock instance_id id stream [] n service fits h = (omega arith, h)
publish_lines-Numbered clock instance_id id stream (text ∷ rest) n service fits h =
    let m = next_number n in
    let next : m ≡ n + 1 = omega (arith, fits) in
    let event = line_event (clock m) instance_id id stream m text in
    let bytes = min (service.ring.ring_bytes + text_len event.text) u64_max in
    let longer : Numbered 0 m (service.ring.events ++ (event ∷ [])) =
      subst (λ (k : ℕ). Numbered 0 k (service.ring.events ++ (event ∷ []))) (sym next)
        (Numbered-append 0 n service.ring.events event (ap some next) h) in
    let (count, numbered) =
      publish_lines-Numbered clock instance_id id stream rest m
        (publish_event (clock m) service event) (omega (arith, fits, next))
        (evict-Numbered 0 m (service.ring.events ++ (event ∷ [])) bytes longer) in
    (omega (arith, count, next), numbered)
