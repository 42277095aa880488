-- ===== src/LiveLogs/Ring.antt =====
-- src/adapters/service_logs.rs: `push_ring`, the bounded ring of recent events, oldest first.
use aku_supervisor.Base.{
  ℕ, ◌+◌, ◌-◌, ◌≤◌, min, Bool, true, ◌||◌, List, [], ◌∷◌, ◌++◌, length, ltb, if◌then◌else◌, ◌≡◌,
  inl, inr, refl, ap, Bool-cases, arith,
}
use aku_supervisor.LiveLogs.Events.{LiveLogEvent, text_len}

abbrev pub ring_lines : ℕ
ring_lines = 1000

abbrev pub ring_limit : ℕ
ring_limit = 1048576

abbrev pub usize_max : ℕ
usize_max = 18446744073709551615

pub record Ring : Type 0 where
  pub events : List LiveLogEvent
  pub ring_bytes : ℕ

abbrev pub over : List LiveLogEvent → ℕ → Bool
over events bytes = ltb ring_lines (length events) || ltb ring_limit bytes

-- The `while` loop: it ends at the latest when the ring is empty.
unfoldable pub evict : List LiveLogEvent → ℕ → Ring
evict [] bytes = record { events = []; ring_bytes = bytes }
evict (e ∷ es) bytes =
    let rest = evict es (bytes - text_len e.text) in
    if over (e ∷ es) bytes then rest else record { events = e ∷ es; ring_bytes = bytes }

-- `saturating_add` on `usize`.
unfoldable pub push_ring : Ring → LiveLogEvent → Ring
unfolding evict
push_ring ring event =
    evict (ring.events ++ (event ∷ [])) (min (ring.ring_bytes + text_len event.text) usize_max)

-- The bytes of the texts of some events.
unfoldable pub total : List LiveLogEvent → ℕ
total [] = 0
total (e ∷ es) = text_len e.text + total es

-- The count of bytes is exact, and both limits are kept.
pub record IsBounded (ring : Ring) : Type 0 where
  pub exact : ring.ring_bytes ≡ total ring.events
  pub lines : length ring.events ≤ ring_lines
  pub bytes : ring.ring_bytes ≤ ring_limit

evict-IsBounded :
    (es : List LiveLogEvent) (bytes : ℕ) → bytes ≡ total es → IsBounded (evict es bytes)
unfolding evict total
evict-IsBounded [] bytes h = record { exact = h; lines = omega arith; bytes = omega arith }
evict-IsBounded (e ∷ es) bytes h = elim (Bool-cases (over (e ∷ es) bytes)) [
  | inl o ↦ rw o (evict-IsBounded es (bytes - text_len e.text) (omega arith))
  | inr o ↦ rw o (record { exact = h; lines = ground arith; bytes = ground arith })
]

total-append :
    (es : List LiveLogEvent) (e : LiveLogEvent)
    → total (es ++ (e ∷ [])) ≡ total es + text_len e.text
unfolding total
total-append [] e = omega arith
total-append (x ∷ es) e = omega (arith, total-append es e)

-- Each event of `front` had to go: with what followed it, it was over a limit.
abbrev pub Needed : List LiveLogEvent → List LiveLogEvent → Type 0
Needed [] kept = Unit
Needed (e ∷ front) kept =
    (over (e ∷ (front ++ kept)) (total (e ∷ (front ++ kept))) ≡ true) × Needed front kept

evict-Needed :
    (es : List LiveLogEvent) (bytes : ℕ)
    → bytes ≡ total es
    → (front : List LiveLogEvent) × (es ≡ front ++ (evict es bytes).events)
      × Needed front (evict es bytes).events
unfolding evict total
evict-Needed [] bytes h = ([], refl, tt)
evict-Needed (e ∷ es) bytes h = elim (Bool-cases (over (e ∷ es) bytes)) [
  | inr o ↦ rw o ([], refl, tt)
  | inl o ↦
      let (front, split, needed) = evict-Needed es (bytes - text_len e.text) (omega arith) in
      rw o (e ∷ front, ap (◌∷◌ e) split, (rw (← split, ← h) o, needed))
]

-- After an event has been pushed on a bounded ring, the ring is bounded; and what it holds is the end of
-- the old events with the new one, of which no more was evicted in front than the limits demand. The
-- bytes must not pass what a `usize` holds.
pub push_ring-IsBounded :
    (ring : Ring) (event : LiveLogEvent)
    → IsBounded ring
    → text_len event.text + ring_limit ≤ usize_max
    → IsBounded (push_ring ring event)
      × ((front : List LiveLogEvent) × (ring.events ++ (event ∷ [])
            ≡ front ++ (push_ring ring event).events)
          × Needed front (push_ring ring event).events)
unfolding push_ring
push_ring-IsBounded ring event b fits =
    let es = ring.events ++ (event ∷ []) in
    let bytes = min (ring.ring_bytes + text_len event.text) usize_max in
    let exact : bytes ≡ total es =
      omega (arith, b.exact, b.bytes, total-append ring.events event) in
    (evict-IsBounded es bytes exact, evict-Needed es bytes exact)
