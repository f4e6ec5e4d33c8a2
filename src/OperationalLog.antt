-- ===== src/OperationalLog.antt =====
-- The operational event journal (src/operational_log.rs): the recent events, the aggregation of
-- repeated failures, and the lines that wait for the disk. Messages and lines are lists of code
-- points. The rotation of the segments and the archive are input and output.
pub mod Redact
pub mod Recent
pub mod Floods
mod Tests
use llrdc_casting.OperationalLog.Redact.{redact}
use llrdc_casting.Prelude.Bytes.{bytes_eq}
use llrdc_casting.Prelude.Text.{codes, decimal, str_eq}
use llrdc_casting.Prelude.{
  ℕ, String, List, Option, Bool, leb, if◌then◌else◌, true, keep_last, ◌∷◌, ◌++◌, map, retain, ◌||◌,
  min, some, ◌&&◌, length, false, not, [], ◌-◌, ltb, ◌+◌, find, take, ◌==◌, ◌^◌, update_first,
  remove_first, none,
}

abbrev pub recent_limit : ℕ
recent_limit = 2000

-- Milliseconds.
abbrev pub aggregate_window : ℕ
aggregate_window = 60000

pub record OperationalEvent : Type 0 where
  pub timestamp_unix_ms : ℕ
  pub severity : String
  pub category : String
  pub message : List ℕ
  pub receiver_generation : ℕ

-- A key with the start of its window and how often it came.
pub record Aggregate : Type 0 where
  pub key : List ℕ
  pub started : ℕ
  pub count : ℕ

-- `journal` holds the lines that the disk has taken.
pub record Log : Type 0 where
  pub recent : List OperationalEvent
  pub healthy : Bool
  pub pending_since_sync : Bool
  pub aggregates : List Aggregate
  pub pending : List (List ℕ)
  pub journal : List (List ℕ)

-- The answers of the disk during a call: whether the journal is rotated and opened, how many lines
-- it takes before it fails, and whether the last of it reaches the disk.
pub record Disk : Type 0 where
  pub opens : Bool
  pub accepts : ℕ
  pub flushes : Bool

-- The lines leave the buffer when the writing starts, and those that are not written are gone.
write_pending : Disk → Log → Bool × Log
write_pending disk log = (
  leb (length log.pending) disk.accepts && disk.flushes,
  record log { journal = log.journal ++ take disk.accepts log.pending; pending = [] },
)

unfoldable pub flush_pending : Disk → Log → Bool × Log
unfolding write_pending
flush_pending disk log =
    if length log.pending == 0
    then (true, log)
    else if disk.opens
    then write_pending disk log
    else (false, log)

unfoldable pub flush : Disk → Log → Log
unfolding flush_pending
flush disk log =
    let (ok, after) = flush_pending disk log in
    if ok then after else record after { healthy = false }

-- `synced` tells whether the journal is synchronised.
unfoldable pub sync : Disk → Bool → Log → Log
unfolding flush_pending
sync disk synced log =
    let (ok, after) = flush_pending disk log in
    if not ok
    then record after { healthy = false }
    else if not after.pending_since_sync
    then after
    else if synced
    then record after { pending_since_sync = false; healthy = true }
    else record after { healthy = false }

-- `encode` is the JSON form of an event, with its line feed.
module _ (encode : OperationalEvent → List ℕ) where
  -- A line that is written at once, after those that wait.
  write_critical : Disk → Bool → List ℕ → Log → Bool × Log
  unfolding flush_pending
  write_critical disk taken line log =
      let (ok, after) = flush_pending disk log in
      if ok && disk.opens && taken
      then (true, record after { journal = after.journal ++ (line ∷ []) })
      else (false, after)

  write_line : Disk → Bool → Bool → List ℕ → Log → Bool × Log
  unfolding write_critical
  write_line disk taken true line log = write_critical disk taken line log
  write_line disk taken false line log =
      (true, record log { pending = log.pending ++ (line ∷ []); pending_since_sync = true })

  -- `taken` tells whether the disk takes a critical line.
  unfoldable pub append_event : Disk → Bool → Bool → OperationalEvent → Log → Log
  unfolding write_line
  append_event disk taken critical e log =
      let (ok, after) = write_line disk taken critical (encode e) log in
      record after { healthy = ok; recent = keep_last recent_limit (after.recent ++ (e ∷ [])) }

  unfoldable pub append_all : Disk → Bool → Bool → List OperationalEvent → Log → Log
  unfolding append_event
  append_all disk taken critical [] log = log
  append_all disk taken critical (e ∷ es) log =
      append_all disk taken critical es (append_event disk taken critical e log)

  abbrev is_expired : ℕ → Aggregate → Bool
  is_expired now a = leb aggregate_window (now - a.started)

  summary : ℕ → ℕ → Aggregate → OperationalEvent
  summary now generation a = record {
    timestamp_unix_ms = now;
    severity = "warn";
    category = "failure_aggregate";
    message =
        a.key
        ++ codes " count="
        ++ codes (decimal a.count)
        ++ codes " window_started="
        ++ codes (decimal a.started);
    receiver_generation = generation;
  }

  -- The summaries of the windows that have ended with more than one failure.
  unfoldable pub summaries : ℕ → ℕ → List Aggregate → List OperationalEvent
  unfolding summary
  summaries now generation ws =
      map (summary now generation) (retain (λ a. is_expired now a && ltb 1 a.count) ws)

  unfoldable pub live_aggregates : ℕ → List Aggregate → List Aggregate
  live_aggregates now ws = retain (λ a. not (is_expired now a)) ws

  starts_with : List ℕ → List ℕ → Bool
  starts_with [] text = true
  starts_with (p ∷ ps) [] = false
  starts_with (p ∷ ps) (c ∷ cs) = p == c && starts_with ps cs

  unfoldable pub is_aggregated : String → String → Bool
  unfolding starts_with
  is_aggregated severity category =
      str_eq category "security_rejected"
      || str_eq category "pairing_rejected"
      || str_eq category "cloud_token_rejected"
      || (starts_with (codes "cloud") (codes category) && not (str_eq severity "info"))

  unfoldable pub key_of : OperationalEvent → List ℕ
  key_of e = codes e.category ++ codes " " ++ e.message

  abbrev has_key : List ℕ → Aggregate → Bool
  has_key key a = bytes_eq a.key key

  -- The count of a u32 stops at its largest value.
  abbrev counted : Aggregate → Aggregate
  counted a = record a { count = min (a.count + 1) (2 ^ 32 - 1) }

  -- What an event adds to the journal, and the windows after it.
  aggregate_event :
      OperationalEvent → List Aggregate → Option Aggregate → List OperationalEvent × List Aggregate
  unfolding key_of
  aggregate_event e ws (some a) =
      if ltb (e.timestamp_unix_ms - a.started) aggregate_window
      then ([], update_first (has_key (key_of e)) counted ws)
      else (
        e ∷ [],
        record { key = key_of e; started = e.timestamp_unix_ms; count = 1 }
            ∷ remove_first (has_key (key_of e)) ws,
      )
  aggregate_event e ws none =
      (e ∷ [], record { key = key_of e; started = e.timestamp_unix_ms; count = 1 } ∷ ws)

  unfoldable pub admitted :
      OperationalEvent → List Aggregate → List OperationalEvent × List Aggregate
  unfolding aggregate_event is_aggregated
  admitted e ws =
      if is_aggregated e.severity e.category
      then aggregate_event e ws (find (has_key (key_of e)) ws)
      else (e ∷ [], ws)

  -- What an event writes: summaries, and the event unless it is counted only. An event that is
  -- counted only writes its summaries as events that are not critical.
  unfoldable pub event_of :
      (secrets : List (List ℕ)) (now : ℕ) (severity category : String) (message : List ℕ)
      (generation : ℕ)
      → OperationalEvent
  event_of secrets now severity category message generation = record {
    timestamp_unix_ms = now;
    severity = severity;
    category = category;
    message = redact secrets message;
    receiver_generation = generation;
  }

  pub is_silent : List OperationalEvent → Bool
  is_silent [] = true
  is_silent (e ∷ es) = false

  unfoldable pub record_event : Disk → Bool → Bool → OperationalEvent → Log → Log
  unfolding admitted summaries live_aggregates is_silent append_all
  record_event disk taken critical e log =
      let now = e.timestamp_unix_ms in
      let (own, windows) = admitted e (live_aggregates now log.aggregates) in
      append_all disk taken (critical && not (is_silent own))
        (summaries now e.receiver_generation log.aggregates ++ own)
        (record log { aggregates = windows })

-- The last events, oldest first.
unfoldable pub recent_events : ℕ → Log → List OperationalEvent
recent_events lines log = keep_last (min lines recent_limit) log.recent
