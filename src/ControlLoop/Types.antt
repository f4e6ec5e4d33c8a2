-- ===== src/ControlLoop/Types.antt =====
-- The state of the control loop (src/main.rs). Bitrates are bit patterns of `f32`.
use llrdc_casting.Control.{TelemetryMessage}
use llrdc_casting.Management.Types.{Inner}
use llrdc_casting.Playback.{LatencyAckCadence, PlaybackEngine}
use llrdc_casting.Reassembly.Types.{Decoder, VideoFrame}
use llrdc_casting.Prelude.{ℕ, String, List, Option, Bool, false}

abbrev pub default_active_fps : ℕ
default_active_fps = 30

abbrev pub default_active_resolution : String
default_active_resolution = "1920x1080"

-- DEFAULT_ACTIVE_BITRATE_MBPS, 10.0.
abbrev pub default_active_bitrate_mbps : ℕ
default_active_bitrate_mbps = 1092616192

abbrev pub default_active_latency_mode : String
default_active_latency_mode = "ULL"

abbrev pub default_idle_resolution : String
default_idle_resolution = "0x0"

-- What the loop has read of the display and of the environment before it starts.
pub record Screen : Type 0 where
  pub resolution : String
  pub vrefresh : ℕ
  pub edid_name : String
  pub edid_type : String
  pub edid_max_res : String
  pub edid_max_fps : ℕ
  pub panel_resolution : String
  pub connector_id : String
  pub plane : String
  pub render_rect : Option String
  pub idle_dashboard_codec : String
  pub idle_timeout_sec : ℕ
  pub sender_liveness_timeout : ℕ

-- `frames` are the frames that wait in the channel, oldest first.
pub record Receiver : Type 0 where
  pub management : Inner
  pub decoder : Decoder
  pub engine : PlaybackEngine
  pub frames : List VideoFrame
  pub streaming_active : Bool
  pub active_fps : ℕ
  pub active_res : String
  pub active_bitrate_mbps : ℕ
  pub active_latency_mode : String
  pub active_capture_resolution : String
  pub active_encoded_resolution : String
  pub active_aspect_mode : String
  pub active_content_rect : String
  pub cadence : LatencyAckCadence
  pub sent : ℕ
  pub media_stall_reported : Bool

-- What a branch leaves: the state, what it broadcasts, and whether the program ends.
pub record Handled : Type 0 where
  pub receiver : Receiver
  pub telemetry : List TelemetryMessage
  pub exits : Bool

abbrev pub goes_on : Receiver → List TelemetryMessage → Handled
goes_on r telemetry = record { receiver = r; telemetry = telemetry; exits = false }
