-- ===== src/Management/Types.antt =====
-- The data of the management state (src/management.rs). Floats are bit patterns of `f64`, and of
-- `f32` where the source says so. Instants are in nanoseconds.
use llrdc_casting.Prelude.{ℕ, String, Option, Bool, List}

abbrev pub max_events : ℕ
max_events = 2000

abbrev pub max_history : ℕ
max_history = 10000

abbrev pub max_samples : ℕ
max_samples = 300

-- ESTIMATED_LATENCY_MAX_MS, 30000.0.
abbrev pub estimated_latency_max_ms : ℕ
estimated_latency_max_ms = 4673975551164153856

-- CLOCK_DRIFT_MS_PER_MS, 0.00005.
abbrev pub clock_drift_ms_per_ms : ℕ
clock_drift_ms_per_ms = 4542503522391573293

pub record ClockSyncState : Type 0 where
  pub offset_ms : ℕ
  pub uncertainty_ms : ℕ
  pub received_at : ℕ

pub record ClientMetadata : Type 0 where
  pub device_id : String
  pub user_agent : String
  pub platform : String
  pub language : String
  pub page_session_id : String
  pub remote_ip : String
  pub connection_id : String

pub record ConnectionRecord : Type 0 where
  pub connection_id : String
  pub remote_ip : String
  pub device_id : String
  pub user_agent : String
  pub platform : String
  pub language : String
  pub page_session_id : String
  pub connected : Bool
  pub connected_at_sec : ℕ
  pub last_seen_at_sec : ℕ
  pub sharing : Bool

pub record StreamConfigSnapshot : Type 0 where
  pub codec : String
  pub resolution : String
  pub fps : ℕ
  pub bitrate_mbps : ℕ
  pub latency_mode : String
  pub aspect_mode : String
  pub capture_resolution : String
  pub encoded_resolution : String

pub record MetricSample : Type 0 where
  pub elapsed_sec : ℕ
  pub bitrate_mbps : ℕ
  pub fps : ℕ

pub record LatencyMetricSample : Type 0 where
  pub elapsed_sec : ℕ
  pub total_ms : ℕ
  pub encode_ms : ℕ
  pub sender_queue_ms : ℕ
  pub delivery_ms : ℕ
  pub receiver_queue_ms : ℕ
  pub decode_display_ms : ℕ

pub record SessionRecord : Type 0 where
  pub id : ℕ
  pub sender : Option ClientMetadata
  pub config : StreamConfigSnapshot
  pub started_at_sec : ℕ
  pub ended_at_sec : Option ℕ
  pub duration_sec : ℕ
  pub frames : ℕ
  pub bytes : ℕ
  pub average_bitrate_mbps : ℕ
  pub peak_bitrate_mbps : ℕ
  pub sequence_gaps : ℕ
  pub latency_p50_ms : ℕ
  pub latency_p95_ms : ℕ
  pub latency_max_ms : ℕ
  pub end_reason : Option String

pub record EventRecord : Type 0 where
  pub elapsed_sec : ℕ
  pub level : String
  pub kind : String
  pub message : String

pub record HealthSnapshot : Type 0 where
  pub display_resolution : String
  pub display_fps : ℕ
  pub panel_resolution : String
  pub edid_name : String
  pub edid_type : String
  pub pairing_status : String
  pub cloud_status : String
  pub playback_state : String
  pub reassembly_in_flight : ℕ
  pub dropped_access_units : ℕ
  pub ignored_media_packets : ℕ
  pub load_1m : Option ℕ
  pub load_5m : Option ℕ
  pub load_15m : Option ℕ
  pub memory_available_mib : Option ℕ
  pub memory_total_mib : Option ℕ
  pub soc_temperature_c : Option ℕ

pub record EstimatedLatencySnapshot : Type 0 where
  pub seq : ℕ
  pub total_ms : ℕ
  pub encode_ms : ℕ
  pub sender_queue_ms : ℕ
  pub delivery_ms : ℕ
  pub receiver_queue_ms : ℕ
  pub transport_queue_ms : ℕ
  pub decode_display_ms : ℕ
  pub access_unit_bytes : ℕ
  pub media_write_blocked_ms : ℕ
  pub clock_uncertainty_ms : ℕ
  pub clock_sync_age_ms : ℕ
  pub configured_bitrate_mbps : ℕ
  pub adaptive_bitrate_mbps : ℕ
  pub dropped_input_frames : ℕ
  pub effective_fps : ℕ

pub record ActiveStreamSnapshot : Type 0 where
  pub id : ℕ
  pub sender : Option ClientMetadata
  pub config : StreamConfigSnapshot
  pub started_at_sec : ℕ
  pub duration_sec : ℕ
  pub frames : ℕ
  pub bytes : ℕ
  pub measured_bitrate_mbps : ℕ
  pub measured_fps : ℕ
  pub average_bitrate_mbps : ℕ
  pub peak_bitrate_mbps : ℕ
  pub sequence_gaps : ℕ
  pub server_latency_ms : ℕ
  pub estimated_latency : Option EstimatedLatencySnapshot
  pub estimated_latency_age_ms : Option ℕ
  pub samples : List MetricSample
  pub latency_samples : List LatencyMetricSample

pub record Snapshot : Type 0 where
  pub server_uptime_sec : ℕ
  pub state : String
  pub active_stream : Option ActiveStreamSnapshot
  pub connections : List ConnectionRecord
  pub history : List SessionRecord
  pub events : List EventRecord
  pub health : HealthSnapshot

pub record ActiveStream : Type 0 where
  pub id : ℕ
  pub sender : Option ClientMetadata
  pub config : StreamConfigSnapshot
  pub started_at : ℕ
  pub frames : ℕ
  pub bytes : ℕ
  pub last_seq : Option ℕ
  pub sequence_gaps : ℕ
  pub latency_total_ms : ℕ
  pub latency_count : ℕ
  pub peak_bitrate_mbps : ℕ
  pub recent_bytes : List (ℕ × ℕ)
  pub recent_frames : List ℕ
  pub samples : List MetricSample
  pub last_sample_at : ℕ
  pub sample_bytes : ℕ
  pub sample_frames : ℕ
  pub latency_window : List (ℕ × ℕ)
  pub latency_samples : List ℕ
  pub last_latency_evaluation : ℕ
  pub high_latency : Bool
  pub healthy_latency_windows : ℕ
  pub estimated_latency : Option (ℕ × EstimatedLatencySnapshot)
  pub estimated_latency_samples : List LatencyMetricSample

pub record Inner : Type 0 where
  pub started : ℕ
  pub next_session : ℕ
  pub stream : Option ActiveStream
  pub history : List SessionRecord
  pub events : List EventRecord
  pub connections : List (String × ConnectionRecord)
  pub clock_syncs : List (String × ClockSyncState)
  pub health : HealthSnapshot

-- The literals 8.0, 1000000.0, 0.50 and 0.95.
abbrev pub eight : ℕ
eight = 4620693217682128896

abbrev pub million : ℕ
million = 4696837146684686336

abbrev pub half : ℕ
half = 4602678819172646912

abbrev pub p95_quantile : ℕ
p95_quantile = 4606732058837280358
