-- ===== src/Supervisor/Types.antt =====
-- The data of the supervisor (src/supervisor.rs): its deadlines, the state behind its handle, the
-- variables of its loop, and the effects that a branch asks for.
use llrdc_casting.Pairing.{PairingSnapshot}
use llrdc_casting.Config.{ConfigError, ReceiverSettings}
use llrdc_casting.Prelude.{ℕ, ◌*◌, String, Option, Bool, List}
use llrdc_casting.Management.Types.{Snapshot}

abbrev pub seconds : ℕ → ℕ
seconds n = n * 1000000000

abbrev pub startup_deadline : ℕ
startup_deadline = seconds 30

abbrev pub heartbeat_deadline : ℕ
heartbeat_deadline = seconds 10

abbrev pub stable_reset : ℕ
stable_reset = seconds 300

abbrev pub ring_bytes : ℕ
ring_bytes = 256 * 1024

pub record WatchdogSnapshot : Type 0 where
  pub manager_uptime_sec : ℕ
  pub receiver_state : String
  pub receiver_generation : ℕ
  pub receiver_pid : Option ℕ
  pub receiver_uptime_sec : Option ℕ
  pub restart_count : ℕ
  pub consecutive_failures : ℕ
  pub next_retry_sec : Option ℕ
  pub last_failure : Option String
  pub logging_healthy : Bool
  pub configuration_error : Option ConfigError

pub record Inner : Type 0 where
  pub manager_started : ℕ
  pub receiver_started : Option ℕ
  pub receiver_state : String
  pub receiver_generation : ℕ
  pub receiver_pid : Option ℕ
  pub restart_count : ℕ
  pub consecutive_failures : ℕ
  pub next_retry : Option ℕ
  pub last_failure : Option String
  pub configuration_error : Option ConfigError
  pub settings : ReceiverSettings
  pub management : Option Snapshot
  pub pairing : PairingSnapshot
  pub ring : List ℕ
  pub seen_events : ℕ
  pub seen_sessions : List ℕ

-- The loop's own variables beside the handle's state: whether a child runs, when the child was
-- started, and when it last answered.
pub record Loop : Type 0 where
  pub inner : Inner
  pub child : Bool
  pub startup_at : ℕ
  pub last_heartbeat : ℕ

-- What a branch asks of the world: an entry of the log with its severity, category and
-- generation, a saved excerpt of the output, a request to the receiver, the end of the child.
pub data Effect : Type 0 where
  logs : String → String → ℕ → Effect
  persists_excerpt : List ℕ → Effect
  terminates : String → Effect
  requests_stop : Effect
