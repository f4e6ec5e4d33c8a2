-- ===== src/Reassembly/Header.antt =====
-- The packet header: codec tag, sequence number, chunk index and count, dimensions, timing fields.
pub mod Laws
use llrdc_casting.Prelude.{
  ℕ, Bool, not, ◌&&◌, ◌||◌, Option, none, some, List, length, drop, take, ltb, leb, ◌==◌,
  if◌then◌else◌, is_some_and,
}
use llrdc_casting.Prelude.Bytes.{bytes_eq, slice, from_be_bytes}
use llrdc_casting.Prelude.Float.{f64_is_positive, f32_is_finite}
use llrdc_casting.Reassembly.Tag
use llrdc_casting.Reassembly.Types.{
  Codec, hevc, h264, max_width, max_height, max_chunks, max_access_unit_bytes, Header,
}

abbrev pub legacy_packet_header_bytes : ℕ
legacy_packet_header_bytes = 16

abbrev pub timed_v1_packet_header_bytes : ℕ
timed_v1_packet_header_bytes = 28

abbrev pub packet_header_bytes : ℕ
packet_header_bytes = 36

unfoldable pub is_stop : List ℕ → Bool
is_stop packet = leb 4 (length packet) && bytes_eq (take 4 packet) Tag.stop

unfoldable pub codec_of : List ℕ → Option Codec
codec_of tag =
    if bytes_eq tag Tag.h265
      || bytes_eq tag Tag.legacy_h265
      || bytes_eq tag Tag.timed_h265
      || bytes_eq tag Tag.sync_timed_h265
    then some hevc
    else if bytes_eq tag Tag.h264
        || bytes_eq tag Tag.legacy_h264
        || bytes_eq tag Tag.timed_h264
        || bytes_eq tag Tag.sync_timed_h264
    then some h264
    else none

pub is_timed_v1 : List ℕ → Bool
is_timed_v1 tag = bytes_eq tag Tag.timed_h264 || bytes_eq tag Tag.timed_h265

pub is_synchronized : List ℕ → Bool
is_synchronized tag = bytes_eq tag Tag.sync_timed_h264 || bytes_eq tag Tag.sync_timed_h265

unfoldable pub sequence_of : List ℕ → ℕ
sequence_of packet = from_be_bytes (slice 4 4 packet)

pub record Timing : Type 0 where
  pub header_len : ℕ
  pub capture_time_ms : Option ℕ
  pub encode_duration_ms : Option ℕ
  pub send_start_time_ms : Option ℕ

-- `(0.0..=30_000.0).contains(&value)`: minus zero, or the bits of 0.0 up to those of 30000.0.
pub is_pipeline_duration : ℕ → Bool
is_pipeline_duration bits = f32_is_finite bits && (leb bits 0x46EA6000 || bits == 0x80000000)

-- The timing fields, `none` where the packet is to be ignored.
pub parse_timing : List ℕ → List ℕ → Option Timing
unfolding is_timed_v1 is_synchronized is_pipeline_duration
parse_timing tag packet =
    if is_timed_v1 tag || is_synchronized tag
    then (let synchronized = is_synchronized tag in
        let header_len =
          if synchronized then packet_header_bytes else timed_v1_packet_header_bytes in
        let capture = from_be_bytes (slice 16 8 packet) in
        let encode = from_be_bytes (slice 24 4 packet) in
        let send_start = if synchronized then some (from_be_bytes (slice 28 8 packet)) else none in
        if leb (length packet) header_len
        then none
        else if not (f64_is_positive capture && is_pipeline_duration encode)
            || is_some_and send_start (λ value. not (f64_is_positive value))
        then none
        else some (record {
          header_len = header_len;
          capture_time_ms = some capture;
          encode_duration_ms = some encode;
          send_start_time_ms = send_start;
        }))
    else some (record {
      header_len = legacy_packet_header_bytes;
      capture_time_ms = none;
      encode_duration_ms = none;
      send_start_time_ms = none;
    })

-- The chunk, size and payload limits.
pub is_acceptable : Header → Bool
is_acceptable h =
    not (h.total_chunks == 0)
    && leb h.total_chunks max_chunks
    && ltb h.chunk_index h.total_chunks
    && not (h.width == 0)
    && not (h.height == 0)
    && leb h.width (max_width h.codec)
    && leb h.height (max_height h.codec)
    && leb (length h.payload) max_access_unit_bytes

check_header : Header → Option Header
unfolding is_acceptable
check_header h = if is_acceptable h then some h else none

abbrev pub header_of : Codec → List ℕ → Timing → Header
header_of codec packet timing = record {
  codec = codec;
  seq = sequence_of packet;
  chunk_index = from_be_bytes (slice 8 2 packet);
  total_chunks = from_be_bytes (slice 10 2 packet);
  width = from_be_bytes (slice 12 2 packet);
  height = from_be_bytes (slice 14 2 packet);
  capture_time_ms = timing.capture_time_ms;
  encode_duration_ms = timing.encode_duration_ms;
  send_start_time_ms = timing.send_start_time_ms;
  payload = drop timing.header_len packet;
}

with_timing : Codec → List ℕ → Option Timing → Option Header
unfolding check_header
with_timing codec packet none = none
with_timing codec packet (some timing) = check_header (header_of codec packet timing)

-- From the chunk index to the payload's size: none of these checks changes the decoder.
unfoldable pub parse_header : Codec → List ℕ → Option Header
unfolding with_timing parse_timing is_acceptable
parse_header codec packet = with_timing codec packet (parse_timing (take 4 packet) packet)
