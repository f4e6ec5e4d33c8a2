-- ===== src/Supervisor.antt =====
-- The supervisor of the receiver process (src/supervisor.rs): the state behind its handle, the
-- branches of its loop as functions on that state, and the effects they ask for. What the system
-- calls return (spawning, waiting, the receiver's replies, the clock) are arguments. The texts of
-- log entries are left out, but for the reasons that the state keeps. Times are in nanoseconds.
pub mod Types
pub mod Ring
pub mod Retries
pub mod Watch
pub mod Generations
mod Tests
pub use Types.*
use llrdc_casting.Pairing.{PairingSnapshot}
use llrdc_casting.Prelude.Text.{str_eq, concat}
use llrdc_casting.Config.{ConfigError, ReceiverSettings, validate, unreadable, settings_eq}
use llrdc_casting.Prelude.Result.{Result, ok, err}
use llrdc_casting.Prelude.{
  ℕ, ◌*◌, String, Option, Bool, ◌+◌, if◌then◌else◌, List, some, ◌-◌, is_some_and, ◌%◌, leb, min,
  none, ◌∷◌, is_none_or, not, true, [], any, ltb, false, ◌++◌, ◌/◌, is_some, ◌^◌, ◌==◌, keep_last,
  ◌&&◌, length, map, retain, drop, ◌||◌,
}
use llrdc_casting.Management.Types.{Snapshot, EventRecord, SessionRecord}

map_option {ℓ κ} : {A : Type ℓ} {B : Type κ} → (A → B) → Option A → Option B
map_option f none = none
map_option f (some a) = some (f a)

watchdog : ℕ → Bool → Inner → WatchdogSnapshot
unfolding map_option
watchdog now logging inner = record {
  manager_uptime_sec = (now - inner.manager_started) / seconds 1;
  receiver_state = inner.receiver_state;
  receiver_generation = inner.receiver_generation;
  receiver_pid = inner.receiver_pid;
  receiver_uptime_sec = map_option (λ started. (now - started) / seconds 1) inner.receiver_started;
  restart_count = inner.restart_count;
  consecutive_failures = inner.consecutive_failures;
  next_retry_sec = map_option (λ deadline. (deadline - now) / seconds 1) inner.next_retry;
  last_failure = inner.last_failure;
  logging_healthy = logging;
  configuration_error = inner.configuration_error;
}

unfoldable pub is_ready : Inner → Bool
is_ready inner = str_eq inner.receiver_state "ready"

unfoldable pub is_streaming : Inner → Bool
is_streaming inner = is_some_and inner.management (λ (m : Snapshot). is_some m.active_stream)

-- `restart`: the generation that the requested restart will have.
unfoldable pub restart_target : Inner → ℕ
restart_target inner = (inner.receiver_generation + 1) % 2 ^ 64

-- `persist` is whether writing the document succeeds.
unfoldable pub persisted : Bool → ReceiverSettings → Inner → Result Bool ConfigError × Inner
persisted false updated inner = (err unreadable, inner)
persisted true updated inner =
    (ok true, record inner { settings = updated; configuration_error = none })

unfoldable pub after_validation :
    Result (Unit {0}) ConfigError
    → Bool
    → ReceiverSettings
    → Inner
    → Result Bool ConfigError × Inner
unfolding persisted
after_validation (err e) persist updated inner = (err e, inner)
after_validation (ok u) persist updated inner =
    if settings_eq updated inner.settings && not (is_some inner.configuration_error)
    then (ok false, inner)
    else persisted persist updated inner

unfoldable pub apply_settings : Bool → ReceiverSettings → Inner → Result Bool ConfigError × Inner
unfolding after_validation
apply_settings persist updated inner = after_validation (validate updated) persist updated inner

abbrev failed_option : {A E : Type 0} → Result A E → Option E
failed_option (ok a) = none
failed_option (err e) = some e

settings_or : Result ReceiverSettings ConfigError → ReceiverSettings → ReceiverSettings
settings_or (ok s) fallback = s
settings_or (err e) fallback = fallback

-- `start`, with the result of loading the settings and the environment's settings.
unfoldable pub initial :
    ℕ → Result ReceiverSettings ConfigError → ReceiverSettings → Snapshot → Loop
unfolding settings_or
initial now loaded fallback management = record {
  inner = record {
    manager_started = now;
    receiver_started = none;
    receiver_state = if is_some (failed_option loaded) then "configuration_error" else "starting";
    receiver_generation = 0;
    receiver_pid = none;
    restart_count = 0;
    consecutive_failures = 0;
    next_retry = none;
    last_failure = none;
    configuration_error = failed_option loaded;
    settings = settings_or loaded fallback;
    management = some management;
    pairing = record {
      code = none;
      local_status = "UNAVAILABLE";
      cloud_status = "UNAVAILABLE";
      cloud_ip = none;
    };
    ring = [];
    seen_events = 0;
    seen_sessions = [];
  };
  child = false;
  startup_at = now;
  last_heartbeat = now;
}

pub backoff : ℕ → ℕ
backoff attempt = seconds (
    if leb attempt 1
    then 1
    else if attempt == 2
    then 2
    else if attempt == 3
    then 4
    else if attempt == 4
    then 8
    else if attempt == 5
    then 16
    else 30)

schedule_failure : ℕ → String → Inner → Inner × List Effect
unfolding backoff
schedule_failure now reason inner =
    let failures = min (inner.consecutive_failures + 1) (2 ^ 32 - 1) in
    (
      record inner {
        receiver_pid = none;
        receiver_started = none;
        receiver_state = "backoff";
        consecutive_failures = failures;
        restart_count = (inner.restart_count + 1) % 2 ^ 64;
        next_retry = some (now + backoff failures);
        last_failure = some reason;
      },
      persists_excerpt inner.ring ∷ logs "error" "receiver_failure" inner.receiver_generation ∷ [],
    )

schedule_requested_restart : ℕ → Inner → Inner × List Effect
schedule_requested_restart now inner = (
  record inner {
    receiver_pid = none;
    receiver_started = none;
    receiver_state = "restarting";
    restart_count = (inner.restart_count + 1) % 2 ^ 64;
    next_retry = some now;
  },
  logs "info" "receiver_restart_requested" inner.receiver_generation ∷ [],
)

-- A spawn gives the child's process id, if it is still known, or an error.
spawn_receiver : ℕ → Option ℕ → Inner → Inner × List Effect
spawn_receiver now pid inner =
    let generation = (inner.receiver_generation + 1) % 2 ^ 64 in
    (
      record inner {
        receiver_generation = generation;
        receiver_pid = pid;
        receiver_started = some now;
        seen_events = 0;
        seen_sessions = [];
        receiver_state = "starting";
        next_retry = none;
      },
      logs "info" "receiver_start" generation ∷ [],
    )

pub push_bytes : List ℕ → List ℕ → List ℕ
push_bytes [] ring = ring
push_bytes (byte ∷ bytes) ring = push_bytes bytes (keep_last ring_bytes (ring ++ (byte ∷ [])))

-- The reader of the child's output, one line without its end.
unfoldable pub output_line : List ℕ → Inner → Inner
unfolding push_bytes
output_line line inner = record inner { ring = push_bytes (line ++ (10 ∷ [])) inner.ring }

pub data Wait : Type 0 where
  exited : String → Wait
  wait_failed : String → Wait
  running : Wait

pub data Reply : Type 0 where
  snapshot_reply : Bool → Snapshot → PairingSnapshot → Reply
  no_snapshot : Reply

pub data Spawned : Type 0 where
  started : Option ℕ → Spawned
  spawn_failed : String → Spawned

retry_ready : ℕ → Inner → Bool
retry_ready now inner = is_none_or inner.next_retry (λ deadline. leb deadline now)

can_spawn : ℕ → Loop → Bool
unfolding retry_ready
can_spawn now l =
    not l.child && not (is_some l.inner.configuration_error) && retry_ready now l.inner

pub after_spawn : ℕ → Spawned → Loop → Loop × List Effect
unfolding spawn_receiver schedule_failure
after_spawn now (started pid) l =
    let (inner, effects) = spawn_receiver now pid l.inner in
    (record { inner = inner; child = true; startup_at = now; last_heartbeat = now }, effects)
after_spawn now (spawn_failed error) l =
    let (inner, effects) = schedule_failure now (concat "startup failure: " error) l.inner in
    (record l { inner = inner }, effects)

unfoldable pub try_spawn : ℕ → Spawned → Loop → Loop × List Effect
unfolding can_spawn after_spawn
try_spawn now outcome l = if can_spawn now l then after_spawn now outcome l else (l, [])

option_text_eq : Option String → Option String → Bool
option_text_eq none none = true
option_text_eq (some a) (some b) = str_eq a b
option_text_eq _ _ = false

contains : ℕ → List ℕ → Bool
contains n = any (λ m. m == n)

event_entry : ℕ → EventRecord → Effect
event_entry generation e = logs e.level e.kind generation

-- What a snapshot writes to the state.
adopt_snapshot : ℕ → Bool → Snapshot → PairingSnapshot → Inner → Inner
adopt_snapshot now ready management pairing inner =
    let stable = is_some_and inner.receiver_started (λ started. leb (started + stable_reset) now) in
    record inner {
      seen_events = length management.events;
      seen_sessions = map (λ (s : SessionRecord). s.id) management.history ++ inner.seen_sessions;
      management = some management;
      pairing = pairing;
      receiver_state = if ready then "ready" else inner.receiver_state;
      consecutive_failures = if stable then 0 else inner.consecutive_failures;
    }

-- The entries that a snapshot adds to the log: its new events, a change of the cloud's state, its
-- new sessions, and the receiver's being ready for the first time.
snapshot_entries : Bool → Snapshot → PairingSnapshot → Inner → List Effect
unfolding is_ready contains option_text_eq event_entry
snapshot_entries ready management pairing inner =
    let seen = if ltb (length management.events) inner.seen_events then 0 else inner.seen_events in
    let generation = inner.receiver_generation in
    let sessions =
      retain (λ (s : SessionRecord). not (contains s.id inner.seen_sessions)) management.history in
    map (event_entry generation) (drop seen management.events)
    ++ (if not (str_eq inner.pairing.cloud_status pairing.cloud_status)
          || not (option_text_eq inner.pairing.cloud_ip pairing.cloud_ip)
        then logs "info" "cloud_registration" generation ∷ []
        else [])
    ++ map (λ (s : SessionRecord). logs "info" "stream_summary" generation) sessions
    ++ (if ready && not (is_ready inner) then logs "info" "receiver_ready" generation ∷ [] else [])

unfoldable pub handle_reply : ℕ → Reply → Loop → Loop × List Effect
unfolding adopt_snapshot snapshot_entries
handle_reply now (snapshot_reply ready management pairing) l = (
  record l { inner = adopt_snapshot now ready management pairing l.inner; last_heartbeat = now },
  snapshot_entries ready management pairing l.inner,
)
handle_reply now no_snapshot l =
    if ltb startup_deadline (now - l.startup_at)
    then (
      l,
      logs "error" "receiver_startup_timeout" l.inner.receiver_generation
          ∷ terminates "startup_timeout"
          ∷ [],
    )
    else if ltb heartbeat_deadline (now - l.last_heartbeat)
    then (
      l,
      logs "error" "receiver_unresponsive" l.inner.receiver_generation
          ∷ terminates "heartbeat_loss"
          ∷ [],
    )
    else (l, [])

pub lose_child : ℕ → String → Loop → Loop × List Effect
unfolding schedule_failure
lose_child now reason l =
    let (inner, effects) = schedule_failure now reason l.inner in
    (record l { inner = inner; child = false }, effects)

pub watch_child : ℕ → Wait → Reply → Loop → Loop × List Effect
unfolding lose_child
watch_child now (exited reason) reply l = lose_child now reason l
watch_child now (wait_failed error) reply l = lose_child now (concat "wait failure: " error) l
watch_child now running reply l = handle_reply now reply l

-- One tick: a spawn when there is no child and one may be started, then a look at the child.
unfoldable pub tick : ℕ → Spawned → Wait → Reply → Loop → Loop × List Effect
unfolding watch_child
tick now outcome wait reply l =
    let (spawned, first) = try_spawn now outcome l in
    let (watched, second) = watch_child now wait reply spawned in
    if spawned.child then (watched, first ++ second) else (spawned, first)

pub data SupervisorCommand : Type 0 where
  restart : String → SupervisorCommand
  stop_sharing : SupervisorCommand

-- One command. A restart waits for the end of the child before it is scheduled.
unfoldable pub command : ℕ → SupervisorCommand → Loop → Loop × List Effect
unfolding schedule_requested_restart
command now (restart reason) l =
    let (inner, effects) = schedule_requested_restart now l.inner in
    (
      record l { inner = inner; child = false },
      (if l.child then terminates reason ∷ [] else []) ++ effects,
    )
command now stop_sharing l =
    (l, requests_stop ∷ logs "info" "administrative_stop" l.inner.receiver_generation ∷ [])
