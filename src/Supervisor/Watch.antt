-- ===== src/Supervisor/Watch.antt =====
-- Watching the receiver: which polls end it. The change of its settings.
use llrdc_casting.Supervisor.Types.{requests_stop}
use llrdc_casting.Supervisor.{
  tick, try_spawn, apply_settings, Effect, can_spawn, after_validation, watch_child, persisted,
  handle_reply, ReceiverSettings, Spawned, Inner, terminates, Loop, ConfigError, running, err,
  no_snapshot, ok, startup_deadline, settings_eq, started, validate, heartbeat_deadline, Result,
  unreadable, Snapshot, snapshot_reply, snapshot_entries, PairingSnapshot, logs, event_entry,
  persists_excerpt, SessionRecord,
}
use llrdc_casting.Supervisor.{EventRecord, event_entry, snapshot_entries}
use llrdc_casting.Prelude.{
  ℕ, List, Bool, false, arith, ◌∷◌, true, ◌≡◌, String, [], ◌⊎◌, ltb, none, is_some, ◌-◌, ◌||◌, ◌&&◌,
  Bool-cases, not, inl, inr, and-left, refl, and-right, map, ◌∙◌, ◌++◌, if◌then◌else◌, ◌*◌, ap, ap₂,
}

-- Whether the effects end the child.
abbrev pub ends_child : List Effect → Bool
ends_child [] = false
ends_child (terminates reason ∷ effects) = true
ends_child (_ ∷ effects) = ends_child effects

-- Polls of a receiver that runs and answers each of them, with what they write to the state.
abbrev pub AnsweredPoll : Type 0
AnsweredPoll = ℕ × Bool × Snapshot × PairingSnapshot

unfoldable pub answered_polls : List AnsweredPoll → Loop → Loop × List Effect
answered_polls [] l = (l, [])
answered_polls ((now, ready, management, pairing) ∷ polls) l =
    let polled = tick now (started none) running (snapshot_reply ready management pairing) l in
    let rest = answered_polls polls polled.0 in (rest.0, polled.1 ++ rest.1)

-- The time of the last answer, where `before` is that of the one before these polls.
unfoldable pub last_answer : ℕ → List AnsweredPoll → ℕ
last_answer before [] = before
last_answer before ((now, ready, management, pairing) ∷ polls) = last_answer now polls

-- What a run of answered polls leaves of a running receiver.
record Polled (polls : List AnsweredPoll) (l l' : Loop) : Type 0 where
  child : l'.child ≡ true
  startup_at : l'.startup_at ≡ l.startup_at
  last_heartbeat : l'.last_heartbeat ≡ last_answer l.last_heartbeat polls

record EndsNone (effects : List Effect) : Type 0 where
  none_ends : ends_child effects ≡ false

append-EndsNone : (xs ys : List Effect) → EndsNone xs → EndsNone ys → EndsNone (xs ++ ys)
append-EndsNone xs ys h k = record { none_ends = go xs h.none_ends }
  where
    go : (es : List Effect) → ends_child es ≡ false → ends_child (es ++ ys) ≡ false
    go [] e = k.none_ends
    go (terminates reason ∷ es) e = cc e
    go (logs level kind generation ∷ es) e = go es e
    go (persists_excerpt ring ∷ es) e = go es e
    go (requests_stop ∷ es) e = go es e

-- Entries of the log.
map-EndsNone {ℓ} :
    {A : Type ℓ} (level kind : A → String) (generation : ℕ) (xs : List A)
    → EndsNone (map (λ x. logs (level x) (kind x) generation) xs)
map-EndsNone level kind generation xs = record { none_ends = go xs }
  where
    go : (ys : List _) → ends_child (map (λ x. logs (level x) (kind x) generation) ys) ≡ false
    go [] = refl
    go (y ∷ ys) = go ys

if-EndsNone :
    (b : Bool) (level kind : String) (generation : ℕ)
    → EndsNone (if b then logs level kind generation ∷ [] else [])
if-EndsNone true level kind generation = record { none_ends = refl }
if-EndsNone false level kind generation = record { none_ends = refl }

snapshot_entries-EndsNone :
    (ready : Bool) (management : Snapshot) (pairing : PairingSnapshot) (inner : Inner)
    → EndsNone (snapshot_entries ready management pairing inner)
unfolding snapshot_entries event_entry
snapshot_entries-EndsNone ready management pairing inner =
    let generation = inner.receiver_generation in
    append-EndsNone _ _
      (append-EndsNone _ _
        (append-EndsNone _ _
          (map-EndsNone {A = EventRecord} (λ e. e.level) (λ e. e.kind) generation _)
          (if-EndsNone _ _ _ _))
        (map-EndsNone {A = SessionRecord} (λ s. "info") (λ s. "stream_summary") generation _))
      (if-EndsNone _ _ _ _)

poll-Polled :
    (now : ℕ) (ready : Bool) (management : Snapshot) (pairing : PairingSnapshot) (l : Loop)
    → l.child ≡ true
    → Polled
        ((now, ready, management, pairing) ∷ [])
        l
        (tick now (started none) running (snapshot_reply ready management pairing) l).0
unfolding tick try_spawn can_spawn watch_child handle_reply last_answer
poll-Polled now ready management pairing l runs = record {
  child = rw runs refl;
  startup_at = rw runs refl;
  last_heartbeat = rw runs refl;
}

poll-ends_child :
    (now : ℕ) (ready : Bool) (management : Snapshot) (pairing : PairingSnapshot) (l : Loop)
    → l.child ≡ true
    → ends_child (tick now (started none) running (snapshot_reply ready management pairing) l).1
      ≡ false
unfolding tick try_spawn can_spawn watch_child handle_reply
poll-ends_child now ready management pairing l runs =
    rw runs ((snapshot_entries-EndsNone ready management pairing l.inner).none_ends)

answered_polls-Polled :
    (polls : List AnsweredPoll) (l : Loop)
    → l.child ≡ true
    → Polled polls l (answered_polls polls l).0 × EndsNone (answered_polls polls l).1
unfolding answered_polls last_answer
answered_polls-Polled [] l runs =
    (record { child = runs; startup_at = refl; last_heartbeat = refl }, record { none_ends = refl })
answered_polls-Polled ((now, ready, management, pairing) ∷ polls) l runs =
    let one = poll-Polled now ready management pairing l runs in
    let first = poll-ends_child now ready management pairing l runs in
    let (rest, quiet) = answered_polls-Polled polls _ one.child in
    (
      record {
        child = rest.child;
        startup_at = rest.startup_at ∙ one.startup_at;
        last_heartbeat = rest.last_heartbeat ∙ ap (λ t. last_answer t polls) one.last_heartbeat;
      },
      append-EndsNone _ _ (record { none_ends = first }) quiet,
    )

missed_poll :
    (now : ℕ) (outcome : Spawned) (l : Loop)
    → l.child ≡ true
    → ends_child (tick now outcome running no_snapshot l).1 ≡ (
        ltb (30 * 1000000000) (now - l.startup_at)
        || ltb (10 * 1000000000) (now - l.last_heartbeat))
unfolding tick try_spawn can_spawn watch_child handle_reply
missed_poll now outcome l runs = elim (Bool-cases (ltb startup_deadline (now - l.startup_at))) [
  | inl late ↦ rw (runs, late) refl
  | inr early ↦ elim (Bool-cases (ltb heartbeat_deadline (now - l.last_heartbeat))) [
    | inl silent ↦ rw (runs, early, silent) refl
    | inr heard ↦ rw (runs, early, heard) refl
  ]
]

-- However often a receiver that runs has answered, its answers never end it; and the first poll
-- that brings no snapshot while it still runs ends it exactly when more than thirty seconds have
-- passed since its start or more than ten since the last answer on record. So after its first
-- thirty seconds one missed poll is enough, however recent its last answer was and whether it was
-- ready or not.
pub tick-ends_child :
    (polls : List AnsweredPoll) (now : ℕ) (outcome : Spawned) (l : Loop)
    → l.child ≡ true
    → (ends_child (answered_polls polls l).1 ≡ false)
      × (ends_child (tick now outcome running no_snapshot (answered_polls polls l).0).1 ≡ (
          ltb (30 * 1000000000) (now - l.startup_at)
          || ltb (10 * 1000000000) (now - last_answer l.last_heartbeat polls)))
tick-ends_child polls now outcome l runs =
    let (after, quiet) = answered_polls-Polled polls l runs in
    (
      quiet.none_ends,
      missed_poll now outcome (answered_polls polls l).0 after.child
          ∙ ap₂ (λ a b. ltb (30 * 1000000000) (now - a) || ltb (10 * 1000000000) (now - b))
              after.startup_at after.last_heartbeat,
    )

-- New settings are refused, already in force, or written: a refusal leaves the state as it was,
-- settings in force change nothing, and settings written pass validation and clear the error.
pub apply_settings-branches :
    (persist : Bool) (updated : ReceiverSettings) (inner : Inner)
    → ((e : ConfigError) × (apply_settings persist updated inner ≡ (err e, inner)))
      ⊎ (((apply_settings persist updated inner ≡ (ok false, inner))
            × (settings_eq updated inner.settings ≡ true)
            × (is_some inner.configuration_error ≡ false))
          ⊎ ((apply_settings persist updated inner
                ≡ (ok true, record inner { settings = updated; configuration_error = none }))
              × (validate updated ≡ ok tt)
              × (persist ≡ true)))
unfolding apply_settings after_validation persisted
apply_settings-branches persist updated inner = go (validate updated) refl persist refl
  where
    go :
        (r : Result (Unit {0}) ConfigError)
        → validate updated ≡ r
        → (b : Bool) → persist ≡ b
        → ((e : ConfigError) × (after_validation r b updated inner ≡ (err e, inner)))
          ⊎ (((after_validation r b updated inner ≡ (ok false, inner))
                × (settings_eq updated inner.settings ≡ true)
                × (is_some inner.configuration_error ≡ false))
              ⊎ ((after_validation r b updated inner
                    ≡ (ok true, record inner { settings = updated; configuration_error = none }))
                  × (r ≡ ok tt)
                  × (b ≡ true)))
    go (err e) checked b written = inl (e, refl)
    go (ok tt) checked b written =
        elim (Bool-cases
          (settings_eq updated inner.settings && not (is_some inner.configuration_error))) [
            | inl same ↦ inr (inl (rw same refl, and-left _ _ same, unset _ (and-right _ _ same)))
            | inr changed ↦ elim (Bool-cases b) [
              | inl good ↦ inr (inr (rw (changed, good) refl, refl, good))
              | inr bad ↦ inl (unreadable, rw (changed, bad) refl)
            ]
          ]
      where
        unset : (c : Bool) → not c ≡ true → c ≡ false
        unset c h = ground arith
