-- ===== src/ControlLoop/Frames.antt =====
-- Frames, the health tick, and the idle timeout of the control loop (src/main.rs).
use llrdc_casting.Control.{PlaybackSubmission, TelemetryMessage, latency_sample}
use llrdc_casting.ControlLoop.Types.{Screen, Receiver, Handled, goes_on}
use llrdc_casting.ControlLoop.Status.{dimensions, idle_status, frame_status}
use llrdc_casting.ControlLoop.Commands.{quiet}
use llrdc_casting.Management.Types.{HealthSnapshot}
use llrdc_casting.Management.Sessions as Sessions
use llrdc_casting.Management.Metrics.{record_frame}
use llrdc_casting.Management.Estimates.{Timing, record_receiver_estimated_latency}
use llrdc_casting.Playback.{PlaybackTiming, should_emit, reset, ensure_configuration}
use llrdc_casting.Reassembly.Assemble.{reset_decoder_pipeline, reassembly_stats}
use llrdc_casting.Reassembly.Types.{VideoFrame, Codec, hevc, h264}
use llrdc_casting.Prelude.Float.{FloatOps}
use llrdc_casting.Prelude.Text.{str_eq, texts, decimal}
use llrdc_casting.Prelude.{
  ℕ, String, List, Option, Bool, if◌then◌else◌, [], ◌∷◌, ◌+◌, ◌==◌, some, false, leb, ◌%◌, ◌||◌,
  ◌&&◌, not, true, none, ◌^◌, ◌++◌, ltb, length, ◌-◌,
}

codec_name : Codec → String
codec_name hevc = "hevc"
codec_name h264 = "h264"

-- The timing of a frame that carries all four of its times.
unfoldable pub timing_of : VideoFrame → Option PlaybackTiming
timing_of f = elim f.capture_time_ms [
  | none ↦ none
  | some capture ↦ elim f.encode_duration_ms [
    | none ↦ none
    | some encode ↦ elim f.send_start_time_ms [
      | none ↦ none
      | some send ↦ elim f.receiver_complete_time_ms [
        | none ↦ none
        | some complete ↦ some (record {
          seq = f.seq;
          capture_time_ms = capture;
          encode_duration_ms = encode;
          send_start_time_ms = send;
          receiver_complete_time_ms = complete;
        })
      ]
    ]
  ]
]

-- What the health tick shows of the playback.
playback_state : Bool → String → String
playback_state ended codec =
    if ended
    then "error"
    else if str_eq codec "h264"
    then "h264"
    else if str_eq codec "h265"
    then "h265"
    else "idle_dashboard"

-- `elapsed_ms` is the time since an Instant in milliseconds, rounded as an `f32`.
module _ (ops : FloatOps) (elapsed_ms : ℕ → ℕ) (screen : Screen) (now : ℕ) (starts : Bool) where
  -- `system` reads the load, the memory and the temperature into the health.
  unfoldable pub handle_tick : (HealthSnapshot → HealthSnapshot) → Bool → Receiver → Handled
  unfolding playback_state
  handle_tick system ended r =
      let refreshed =
        Sessions.refresh_pipeline_health (playback_state ended r.engine.current_codec)
          (reassembly_stats r.decoder) r.management in
      goes_on (record r { management = Sessions.set_health (system refreshed.health) refreshed }) []

  timing_from : PlaybackSubmission → Timing
  timing_from s = record {
    capture_time_ms = s.capture_time_ms;
    encode_duration_ms = s.encode_duration_ms;
    send_start_time_ms = s.send_start_time_ms;
    receiver_complete_time_ms = s.receiver_complete_time_ms;
    receiver_queue_ms = s.receiver_queue_ms;
  }

  unfoldable pub acknowledge : PlaybackSubmission → Receiver → Handled
  unfolding timing_from
  acknowledge s r =
      goes_on
        (record r {
          management =
              (record_receiver_estimated_latency ops now s.seq (timing_from s) screen.vrefresh
                r.management).1;
        })
        (latency_sample s ∷ [])

  unfoldable pub handle_submission : PlaybackSubmission → Receiver → Handled
  unfolding acknowledge
  handle_submission s r =
      let (due, cadence) = should_emit now r.cadence in
      let paced = record r { cadence = cadence } in
      if r.streaming_active
      then (if due then acknowledge s paced else goes_on paced [])
      else goes_on r []

  -- The stop frame: as the command, except that a reported stall stays reported.
  unfoldable pub handle_stop_frame : Receiver → Handled
  unfolding quiet idle_status
  handle_stop_frame r =
      let stopped =
        quiet ops screen now starts "user_stop"
          (record r { decoder = reset_decoder_pipeline r.decoder }) in
      goes_on stopped (idle_status screen stopped ∷ [])

  -- A frame of number 0 or 1 starts a stream.
  unfoldable pub begin_stream : VideoFrame → Receiver → Receiver
  begin_stream f r =
      if leb f.seq 1 then record r { streaming_active = true; cadence = reset r.cadence } else r

  unfoldable pub compose : Codec → Receiver → Receiver
  unfolding codec_name
  compose codec r = record r {
    engine =
        (ensure_configuration screen.plane starts (codec_name codec) screen.connector_id
          screen.render_rect "composed" r.engine).1;
  }

  -- The status after a frame of number 0 or 1, if the stream was not active before it.
  unfoldable pub auto_start : VideoFrame → Receiver → Receiver × List TelemetryMessage
  unfolding frame_status
  auto_start f r =
      if leb f.seq 1
      then (
        record r { streaming_active = true; active_res = dimensions f.width f.height },
        if not r.streaming_active then frame_status screen f.width f.height r ∷ [] else [],
      )
      else (r, [])

  unfoldable pub count_sent : VideoFrame → Receiver → Receiver
  count_sent f r = record r {
    sent = (r.sent + 1) % 2 ^ 64;
    media_stall_reported = false;
    management =
        record_frame ops now f.seq (length f.access_unit) (elapsed_ms (now - f.first_packet_at))
          r.management;
  }

  is_reported : ℕ → Bool
  is_reported sent = sent == 1 || sent % 30 == 0

  -- `writes` tells whether the playback's writer takes the frame.
  unfoldable pub play : VideoFrame → Bool → Receiver × List TelemetryMessage → Handled
  unfolding count_sent is_reported frame_status
  play f writes (r, telemetry) =
      let counted = count_sent f r in
      if r.streaming_active && writes
      then goes_on counted (
          telemetry
          ++ (if is_reported counted.sent
              then frame_status screen f.width f.height counted ∷ []
              else []))
      else goes_on r telemetry

  unfoldable pub handle_coded : VideoFrame → Codec → Bool → Receiver → Handled
  unfolding auto_start begin_stream compose play
  handle_coded f codec writes r =
      if not r.streaming_active && ltb 1 f.seq
      then goes_on r []
      else play f writes (auto_start f (compose codec (begin_stream f r)))

  unfoldable pub handle_codec : VideoFrame → Option Codec → Bool → Receiver → Handled
  unfolding handle_coded handle_stop_frame
  handle_codec f none writes r = handle_stop_frame r
  handle_codec f (some codec) writes r = handle_coded f codec writes r

  unfoldable pub handle_frame : VideoFrame → Bool → Receiver → Handled
  unfolding handle_codec
  handle_frame f writes r = handle_codec f f.codec writes r

  unfoldable pub report_stall : Receiver → Handled
  report_stall r =
      if r.media_stall_reported
      then goes_on r []
      else goes_on
          (record r {
            media_stall_reported = true;
            management =
                Sessions.event ops now "warn" "media_stalled_sender_alive"
                  (texts (
                    "no frames for "
                    ∷ decimal screen.idle_timeout_sec
                    ∷ "s while sender heartbeat remained fresh"
                    ∷ []))
                  r.management;
          })
          []

  -- The idle timeout keeps the decoder as it is.
  unfoldable pub end_idle : Receiver → Handled
  unfolding quiet idle_status
  end_idle r =
      let stopped =
        quiet ops screen now starts "idle_timeout" (record r { media_stall_reported = false }) in
      goes_on stopped (idle_status screen stopped ∷ [])

  unfoldable pub handle_idle : Receiver → Handled
  unfolding report_stall end_idle
  handle_idle r =
      if r.streaming_active
      then (if Sessions.active_sender_heartbeat_fresh ops now screen.sender_liveness_timeout
            r.management
          then report_stall r
          else end_idle r)
      else goes_on r []
