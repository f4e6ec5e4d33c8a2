-- ===== src/Playback.antt =====
-- Playback (src/playback.rs): the acknowledgements of latency, the names of codecs, the arguments of
-- the GStreamer pipeline, and the switch from one configuration to another. The process itself is
-- the answer `starts` to a spawn, and whether it still runs.
pub mod Cadence
pub mod Switching
mod Tests
use llrdc_casting.Prelude.Slices.{contains}
use llrdc_casting.Control.{PlaybackSubmission}
use llrdc_casting.Prelude.Float.{FloatOps, f64_max}
use llrdc_casting.Prelude.Ascii.{to_ascii_lowercase}
use llrdc_casting.Prelude.Bytes.{bytes_eq}
use llrdc_casting.Prelude.Text.{codes, texts, decimal, str_eq}
use llrdc_casting.Prelude.{
  ℕ, String, List, Option, none, Bool, if◌then◌else◌, ◌∷◌, ◌++◌, some, is_none_or, true, ◌||◌, [],
  ◌&&◌, false, leb, ◌==◌, ◌-◌,
}

pub record PlaybackTiming : Type 0 where
  pub seq : ℕ
  pub capture_time_ms : ℕ
  pub encode_duration_ms : ℕ
  pub send_start_time_ms : ℕ
  pub receiver_complete_time_ms : ℕ

pub record PlaybackBuffer : Type 0 where
  pub bytes : List ℕ
  pub timing : Option PlaybackTiming

receiver_queue_ms : FloatOps → ℕ → ℕ → ℕ
receiver_queue_ms ops receiver_complete_time_ms flush_time_ms =
    f64_max (ops.sub flush_time_ms receiver_complete_time_ms) 0

-- What the writer reports of a buffer, once the pipe has taken it at the time `flushed`.
pub submission_of : FloatOps → ℕ → PlaybackBuffer → Option PlaybackSubmission
unfolding receiver_queue_ms
submission_of ops flushed buffer = elim buffer.timing [
  | none ↦ none
  | some t ↦ some (record {
    seq = t.seq;
    capture_time_ms = t.capture_time_ms;
    encode_duration_ms = t.encode_duration_ms;
    send_start_time_ms = t.send_start_time_ms;
    receiver_complete_time_ms = t.receiver_complete_time_ms;
    receiver_queue_ms = receiver_queue_ms ops t.receiver_complete_time_ms flushed;
  })
]

pub record LatencyAckCadence : Type 0 where
  pub last_sent_at : Option ℕ
  pub interval : ℕ

-- A second, in nanoseconds.
abbrev pub default_cadence : LatencyAckCadence
default_cadence = record { last_sent_at = none; interval = 1000000000 }

-- `duration_since` stops at zero.
unfoldable pub should_emit : ℕ → LatencyAckCadence → Bool × LatencyAckCadence
should_emit now cadence =
    if is_none_or cadence.last_sent_at (λ last. leb cadence.interval (now - last))
    then (true, record cadence { last_sent_at = some now })
    else (false, cadence)

unfoldable pub reset : LatencyAckCadence → LatencyAckCadence
reset cadence = record cadence { last_sent_at = none }

-- No letter beyond ASCII has one of the letters of these names as its lower case.
unfoldable pub normalize_codec : String → String
normalize_codec codec =
    let lower = to_ascii_lowercase (codes codec) in
    if bytes_eq lower (codes "raw")
      || bytes_eq lower (codes "bgra")
      || bytes_eq lower (codes "dashboard")
    then "raw"
    else if contains (codes "264") lower
    then "h264"
    else "h265"

abbrev block_size : String
block_size = "blocksize=65536"

-- The parser, the caps of the bitstream, and the decoder.
elements_of : String → String × String × String
elements_of norm =
    if◌then◌else◌ {A = String × String × String} (str_eq norm "h264")
      ("h264parse", "video/x-h264", "v4l2slh264dec") ("h265parse", "video/x-h265", "v4l2slh265dec")

encoded_pipeline_args : String → List String
unfolding elements_of
encoded_pipeline_args norm =
    let (parser, bitstream_caps, decoder) = elements_of norm in
    "fdsrc"
    ∷ "fd=0"
    ∷ "do-timestamp=true"
    ∷ block_size
    ∷ "!"
    ∷ parser
    ∷ "config-interval=-1"
    ∷ "!"
    ∷ "capssetter"
    ∷ texts ("caps=" ∷ bitstream_caps ∷ ",pixel-aspect-ratio=(fraction)15/16" ∷ [])
    ∷ "replace=false"
    ∷ "!"
    ∷ decoder
    ∷ "!"
    ∷ []

raw_pipeline_args : ℕ → ℕ → List String
raw_pipeline_args width height =
    "fdsrc"
    ∷ "fd=0"
    ∷ "do-timestamp=true"
    ∷ block_size
    ∷ "!"
    ∷ "rawvideoparse"
    ∷ "format=bgra"
    ∷ texts ("width=" ∷ decimal width ∷ [])
    ∷ texts ("height=" ∷ decimal height ∷ [])
    ∷ "framerate=1/1"
    ∷ "!"
    ∷ []

append_kms_sink_args : List String → String → String → Option String → List String
append_kms_sink_args args connector plane render_rect =
    args
    ++ ("kmssink"
        ∷ "driver-name=rockchip"
        ∷ texts ("connector-id=" ∷ connector ∷ [])
        ∷ texts ("plane-id=" ∷ plane ∷ [])
        ∷ elim render_rect [ none ↦ [] | some rect ↦ texts ("render-rectangle=" ∷ rect ∷ []) ∷ [] ])

-- The arguments of gst-launch-1.0.
gst_args : String → String → String → Option String → ℕ → ℕ → List String
unfolding encoded_pipeline_args raw_pipeline_args append_kms_sink_args
gst_args plane norm connector render_rect width height =
    append_kms_sink_args
      ("-q"
        ∷ (if str_eq norm "raw"
            then raw_pipeline_args width height
            else encoded_pipeline_args norm))
      connector plane render_rect
    ++ ("force-modesetting=false" ∷ "can-scale=true" ∷ "sync=false" ∷ "async=false"
        ∷ "skip-vsync=true" ∷ "max-lateness=0" ∷ [])

-- RAW_QUEUE_CAPACITY and ENCODED_QUEUE_CAPACITY.
queue_capacity : String → ℕ
queue_capacity norm = if str_eq norm "raw" then 2 else 1

-- The process is `running` from its spawn until it is killed; `args` are those of its spawn.
pub record PlaybackEngine : Type 0 where
  pub running : Bool
  pub args : List String
  pub capacity : ℕ
  pub current_codec : String
  pub width : ℕ
  pub height : ℕ
  pub render_rect : Option String
  pub aspect_mode : String

rect_eq : Option String → Option String → Bool
rect_eq none none = true
rect_eq (some a) (some b) = str_eq a b
rect_eq _ _ = false

unfoldable pub is_configured : String → Option String → String → PlaybackEngine → Bool
unfolding rect_eq normalize_codec
is_configured codec render_rect aspect_mode engine =
    str_eq engine.current_codec (normalize_codec codec)
    && rect_eq engine.render_rect render_rect
    && str_eq engine.aspect_mode aspect_mode

replace : Option PlaybackEngine → PlaybackEngine → Bool × PlaybackEngine
replace none engine = (false, record engine { running = false })
replace (some new_engine) engine = (true, new_engine)

-- `plane` is the environment's DRM_PLANE_ID.
module _ (plane : String) (starts : Bool) where
  unfoldable pub start_persistent_playback :
      String → String → Option String → String → ℕ → ℕ → Option PlaybackEngine
  unfolding gst_args queue_capacity normalize_codec
  start_persistent_playback codec connector render_rect aspect_mode width height =
      let norm = normalize_codec codec in
      if starts
      then some (record {
        running = true;
        args = gst_args plane norm connector render_rect width height;
        capacity = queue_capacity norm;
        current_codec = norm;
        width = width;
        height = height;
        render_rect = render_rect;
        aspect_mode = aspect_mode;
      })
      else none

  -- The answer, and the engine: its process is killed before another is started.
  unfoldable pub ensure_configuration :
      String → String → Option String → String → PlaybackEngine → Bool × PlaybackEngine
  unfolding is_configured replace start_persistent_playback
  ensure_configuration target_codec connector render_rect aspect_mode engine =
      if is_configured target_codec render_rect aspect_mode engine
      then (true, engine)
      else replace
          (start_persistent_playback (normalize_codec target_codec) connector render_rect
            aspect_mode engine.width engine.height)
          engine
