-- ===== src/Reassembly/Types.antt =====
-- The data of v4l2_decoder.rs, and the limits of config.rs that it uses.
use llrdc_casting.Prelude.{ℕ, ◌+◌, ◌-◌, ◌*◌, ◌/◌, Bool, true, false, Option, none, List, []}

abbrev pub max_access_unit_bytes : ℕ
max_access_unit_bytes = 8 * 1024 * 1024

abbrev pub chunk_bytes : ℕ
chunk_bytes = 1350

-- The quotient rounded up, 6214.
abbrev pub max_chunks : ℕ
max_chunks = (max_access_unit_bytes + chunk_bytes - 1) / chunk_bytes

abbrev pub max_in_flight : ℕ
max_in_flight = 32

-- 50 ms.
abbrev pub assembly_ttl : ℕ
assembly_ttl = 50 * 1000000

-- The codec names "hevc" and "h264"; a frame may also carry the name "stop".
pub data Codec : Type 0 where
  hevc h264 : Codec

abbrev pub codec_eq : Codec → Codec → Bool
codec_eq hevc hevc = true
codec_eq h264 h264 = true
codec_eq _ _ = false

abbrev pub max_width : Codec → ℕ
max_width h264 = 1920
max_width hevc = 3840

-- 1080 lines are coded as 1088, the next multiple of 16.
abbrev pub max_height : Codec → ℕ
max_height h264 = (1080 + 16 - 1) / 16 * 16
max_height hevc = 2160

-- `codec` is `none` for the frame named "stop".
pub record VideoFrame : Type 0 where
  pub seq : ℕ
  pub width : ℕ
  pub height : ℕ
  pub codec : Option Codec
  pub access_unit : List ℕ
  pub first_packet_at : ℕ
  pub capture_time_ms : Option ℕ
  pub encode_duration_ms : Option ℕ
  pub send_start_time_ms : Option ℕ
  pub receiver_complete_time_ms : Option ℕ

pub record Assembly : Type 0 where
  pub seq : ℕ
  pub total_chunks : ℕ
  pub width : ℕ
  pub height : ℕ
  pub codec : Codec
  pub chunks : List (Option (List ℕ))
  pub received : ℕ
  pub first_packet_at : ℕ
  pub capture_time_ms : Option ℕ
  pub encode_duration_ms : Option ℕ
  pub send_start_time_ms : Option ℕ

-- The statics: the last completed sequence number, the counters and the assemblies.
pub record Decoder : Type 0 where
  pub last_completed_seq : ℕ
  pub stats_chunks : ℕ
  pub stats_completed : ℕ
  pub dropped_timeout : ℕ
  pub dropped_evicted : ℕ
  pub ignored_packets : ℕ
  pub assemblies : List Assembly

abbrev pub initial : Decoder
initial = record {
  last_completed_seq = 0;
  stats_chunks = 0;
  stats_completed = 0;
  dropped_timeout = 0;
  dropped_evicted = 0;
  ignored_packets = 0;
  assemblies = [];
}

-- What a packet's header says, with its payload.
pub record Header : Type 0 where
  pub codec : Codec
  pub seq : ℕ
  pub chunk_index : ℕ
  pub total_chunks : ℕ
  pub width : ℕ
  pub height : ℕ
  pub capture_time_ms : Option ℕ
  pub encode_duration_ms : Option ℕ
  pub send_start_time_ms : Option ℕ
  pub payload : List ℕ

abbrev pub stop_frame : ℕ → VideoFrame
stop_frame now = record {
  seq = 0;
  width = 0;
  height = 0;
  codec = none;
  access_unit = [];
  first_packet_at = now;
  capture_time_ms = none;
  encode_duration_ms = none;
  send_start_time_ms = none;
  receiver_complete_time_ms = none;
}
