-- ===== src/Playback/Cadence.antt =====
-- How often latency is acknowledged.
use llrdc_casting.Playback.{LatencyAckCadence, should_emit, ◌∷◌, Option, some, leb}
use llrdc_casting.Prelude.{
  ℕ, List, ◌<◌, if◌then◌else◌, [], ◌+◌, ◌≤◌, none, Bool-cases, ◌-◌, inl, arith, inr,
}

-- The times, among those of a run of submissions, at which an acknowledgement is sent.
pub emitted : List ℕ → LatencyAckCadence → List ℕ
emitted [] c = []
emitted (t ∷ ts) c =
    let rest = emitted ts (should_emit t c).1 in if (should_emit t c).0 then t ∷ rest else rest

-- Each time comes at least `gap` after the one before it, and so does the first after `last`.
abbrev pub SpacedFrom : ℕ → Option ℕ → List ℕ → Type 0
SpacedFrom gap last [] = Unit
SpacedFrom gap none (t ∷ ts) = SpacedFrom gap (some t) ts
SpacedFrom gap (some last) (t ∷ ts) = (last + gap ≤ t) × SpacedFrom gap (some t) ts

spaced :
    (interval : ℕ) (last : Option ℕ) (ts : List ℕ)
    → 0 < interval
    → SpacedFrom interval last (emitted ts (record { last_sent_at = last; interval = interval }))
unfolding emitted should_emit
spaced interval last [] positive = tt
spaced interval none (t ∷ ts) positive = spaced interval (some t) ts positive
spaced interval (some last) (t ∷ ts) positive = elim (Bool-cases (leb interval (t - last))) [
  | inl due ↦ rw due (ground (arith, due), spaced interval (some t) ts positive)
  | inr early ↦ rw early (spaced interval (some last) ts positive)
]

-- Whatever the times of the submissions, two acknowledgements in a row are at least an interval
-- apart, if the interval is positive.
pub emitted-SpacedFrom :
    (ts : List ℕ) (c : LatencyAckCadence)
    → 0 < c.interval
    → SpacedFrom c.interval c.last_sent_at (emitted ts c)
emitted-SpacedFrom ts c positive = spaced c.interval c.last_sent_at ts positive
