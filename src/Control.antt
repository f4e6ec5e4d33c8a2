-- ===== src/Control.antt =====
-- The messages of the control channel (src/control.rs): the commands of the clients, and the
-- telemetry that is broadcast to them. Their JSON form is serde's.
use llrdc_casting.Management.Types.{EstimatedLatencySnapshot}
use llrdc_casting.Prelude.{ℕ, Option, String}

pub record StartRequest : Type 0 where
  pub codec : Option String
  pub resolution : Option String
  pub fps : Option ℕ
  pub bitrate_mbps : Option ℕ
  pub latency_mode : Option String
  pub aspect_mode : Option String
  pub source_width : Option ℕ
  pub source_height : Option ℕ
  pub encoded_width : Option ℕ
  pub encoded_height : Option ℕ
  pub content_rect : Option String
  pub signal_content_rect : Option String
  pub panel_content_rect : Option String
  pub signal_width : Option ℕ
  pub signal_height : Option ℕ
  pub panel_width : Option ℕ
  pub panel_height : Option ℕ
  pub connection_id : Option String
  pub device_id : Option String

pub record Hello : Type 0 where
  pub device_id : String
  pub user_agent : String
  pub platform : String
  pub language : String
  pub page_session_id : String
  pub connection_id : Option String
  pub remote_ip : Option String

-- A latency report has the fields of the snapshot that it becomes.
pub data ControlCommand : Type 0 where
  start : StartRequest → ControlCommand
  stop admin_stop restart_receiver : ControlCommand
  shutdown : String → ControlCommand
  client_hello : Hello → ControlCommand
  ping : Option ℕ → Option ℕ → ControlCommand
  clock_sync : ℕ → ℕ → ControlCommand
  get_status : ControlCommand
  client_diagnostic : String → String → ControlCommand
  latency_report : EstimatedLatencySnapshot → ControlCommand

pub record Pong : Type 0 where
  pub id : Option ℕ
  pub server_receive_ms : Option ℕ
  pub server_send_ms : Option ℕ

-- A frame that the playback process has taken, with the time that it waited.
pub record PlaybackSubmission : Type 0 where
  pub seq : ℕ
  pub capture_time_ms : ℕ
  pub encode_duration_ms : ℕ
  pub send_start_time_ms : ℕ
  pub receiver_complete_time_ms : ℕ
  pub receiver_queue_ms : ℕ

pub record StatusMessage : Type 0 where
  pub state : String
  pub resolution : String
  pub fps : ℕ
  pub display_resolution : String
  pub display_fps : ℕ
  pub bitrate_mbps : ℕ
  pub latency_mode : String
  pub edid_name : String
  pub edid_type : String
  pub edid_max_res : String
  pub edid_max_fps : ℕ
  pub display_max_fps : ℕ
  pub capture_resolution : String
  pub encoded_resolution : String
  pub aspect_mode : String
  pub content_rect : String
  pub signal_resolution : String
  pub panel_resolution : String

pub data TelemetryMessage : Type 0 where
  pong : Pong → TelemetryMessage
  latency_sample : PlaybackSubmission → TelemetryMessage
  status : StatusMessage → TelemetryMessage
  event_message : String → String → TelemetryMessage
