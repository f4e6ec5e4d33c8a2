-- ===== src/ControlLoop/Sound.antt =====
-- The invariant of the receiver, kept by every step.
use llrdc_casting.Playback.{should_emit}
use llrdc_casting.Management.Sessions.{refresh_pipeline_health, active_sender_heartbeat_fresh}
use llrdc_casting.Reassembly.Assemble.Safety.{
  process_udp_chunk-Safe, Holds, Safe, IsFrame, reset-WellFormed,
}
use llrdc_casting.Reassembly.Assemble.{
  Outcome, done, panicked, reassembly_stats, reset_decoder_pipeline,
}
use llrdc_casting.Reassembly.Types.{VideoFrame, Codec}
use llrdc_casting.Control.{PlaybackSubmission, TelemetryMessage}
use llrdc_casting.Prelude.Float.{FloatOps}
use llrdc_casting.ControlLoop.Types.{Screen, Receiver, Handled}
use llrdc_casting.ControlLoop.Steps.{Step, step, IsSessions, take_frame, send_on, append_frame}
use llrdc_casting.ControlLoop.Steps.{tick, submission, command, frame, idle, packet, session}
use llrdc_casting.ControlLoop.Idle.{IsSound, handle_command-IsSound, managed, quiet-IsSound}
use llrdc_casting.ControlLoop.Frames.{
  handle_tick, handle_submission, handle_frame, handle_idle, handle_codec, handle_coded,
  handle_stop_frame, begin_stream, compose, auto_start, play, count_sent, acknowledge, report_stall,
  end_idle,
}
use llrdc_casting.Management.Lifecycle.{Call, run_call}
use llrdc_casting.Management.Types.{HealthSnapshot}
use llrdc_casting.Prelude.{
  ℕ, Bool, List, Option, some, All, Bool-cases, ◌∷◌, inl, ◌&&◌, leb, not, All-append, [], inr, ltb,
  none, false, if_holds,
}

abbrev LeavesSound : Handled → Type 0
LeavesSound h = IsSound h.receiver

module _ (ops : FloatOps) (elapsed_ms : ℕ → ℕ) (screen : Screen) (now : ℕ) (starts : Bool) where
  handle_tick-IsSound :
      (system : HealthSnapshot → HealthSnapshot) (ended : Bool) (r : Receiver)
      → IsSound r
      → IsSound (handle_tick ops elapsed_ms screen now starts system ended r).receiver
  unfolding handle_tick run_call
  handle_tick-IsSound system ended r h =
      let refreshed =
        managed ops screen now starts (Call.refreshes _ (reassembly_stats r.decoder)) r tt h in
      managed ops screen now starts (Call.sets_health _)
        (record r { management = refresh_pipeline_health _ _ r.management }) tt refreshed

  handle_submission-IsSound :
      (s : PlaybackSubmission) (r : Receiver)
      → IsSound r
      → IsSound (handle_submission ops elapsed_ms screen now starts s r).receiver
  unfolding handle_submission acknowledge run_call
  handle_submission-IsSound s r h =
      if_holds LeavesSound r.streaming_active
        (if_holds LeavesSound (should_emit now r.cadence).0
          (managed ops screen now starts (Call.measures _ _ _) r tt h) h)
        h

  play-IsSound :
      (f : VideoFrame) (writes : Bool) (r : Receiver) (telemetry : List TelemetryMessage)
      → IsSound r
      → IsSound (play ops elapsed_ms screen now starts f writes (r, telemetry)).receiver
  unfolding play count_sent run_call
  play-IsSound f writes r telemetry h =
      if_holds LeavesSound (r.streaming_active && writes)
        (managed ops screen now starts (Call.frames _ _ _) r tt h) h

  started :
      (f : VideoFrame) (codec : Codec) (r : Receiver)
      → IsSound r
      → IsSound
          (auto_start ops elapsed_ms screen now starts f (
            compose ops elapsed_ms screen now starts codec
              (begin_stream ops elapsed_ms screen now starts f r))).0
  unfolding begin_stream compose auto_start
  started f codec r h = elim (Bool-cases (leb f.seq 1)) [
    | inl first ↦ rw first (record {
      quiet = λ still. cc;
      bounded = h.bounded;
      decoder_formed = h.decoder_formed;
      framed = h.framed;
    })
    | inr later ↦ rw later h
  ]

  handle_coded-IsSound :
      (f : VideoFrame) (codec : Codec) (writes : Bool) (r : Receiver)
      → IsSound r
      → IsSound (handle_coded ops elapsed_ms screen now starts f codec writes r).receiver
  unfolding handle_coded
  handle_coded-IsSound f codec writes r h =
      if_holds LeavesSound (not r.streaming_active && ltb 1 f.seq) h
        (play-IsSound f writes _ _ (started f codec r h))

  handle_frame-IsSound :
      (f : VideoFrame) (o : Option Codec) (writes : Bool) (r : Receiver)
      → IsSound r
      → IsSound (handle_codec ops elapsed_ms screen now starts f o writes r).receiver
  unfolding handle_codec handle_stop_frame
  handle_frame-IsSound f none writes r h =
      quiet-IsSound ops screen now starts "user_stop"
        (record r { decoder = reset_decoder_pipeline r.decoder }) h.bounded
        (reset-WellFormed r.decoder)
  handle_frame-IsSound f (some codec) writes r h = handle_coded-IsSound f codec writes r h

  handle_idle-IsSound :
      (r : Receiver) → IsSound r → IsSound (handle_idle ops elapsed_ms screen now starts r).receiver
  unfolding handle_idle report_stall end_idle run_call
  handle_idle-IsSound r h =
      if_holds LeavesSound r.streaming_active
        (if_holds LeavesSound
          (active_sender_heartbeat_fresh ops now screen.sender_liveness_timeout r.management)
          (if_holds LeavesSound r.media_stall_reported h
            (managed ops screen now starts (Call.events _ _ _) r tt h))
          (quiet-IsSound ops screen now starts "idle_timeout"
            (record r { media_stall_reported = false }) h.bounded h.decoder_formed))
        h

  take_frame-IsSound :
      (fs : List VideoFrame) (writes : Bool) (r : Receiver)
      → All (λ f. IsFrame (some f)) fs
      → IsSound r
      → IsSound (take_frame ops elapsed_ms screen now starts fs writes r).receiver
  unfolding take_frame handle_frame
  take_frame-IsSound [] writes r fit h = h
  take_frame-IsSound (f ∷ fs) writes r fit h =
      handle_frame-IsSound f f.codec writes (record r { frames = fs })
        (record {
          quiet = h.quiet;
          bounded = h.bounded;
          decoder_formed = h.decoder_formed;
          framed = fit.1;
        })

  send_on-IsSound : (o : Outcome) (r : Receiver) → Holds Safe o → IsSound r → IsSound (send_on o r)
  unfolding send_on
  send_on-IsSound panicked r safe h = absurd safe
  send_on-IsSound (done o d) r safe h = record {
    quiet = h.quiet;
    bounded = h.bounded;
    decoder_formed = safe.0;
    framed = appended o safe.1;
  }
    where
      appended :
          (x : Option VideoFrame)
          → IsFrame x
          → All (λ f. IsFrame (some f)) (append_frame x r.frames)
      appended none fits = h.framed
      appended (some f) fits = All-append (λ g. IsFrame (some g)) r.frames _ h.framed (fits, tt)

  -- Whatever the next step of the loop, of the decoder or of a session, which starts no stream by
  -- itself, a sound receiver stays sound: without an active stream it has no session open and
  -- describes no stream, its management state is within its bounds, its decoder is well formed, and
  -- each frame in its channel is the stop frame or within the limits of its codec.
  pub step-IsSound :
      (s : Step) (r : Receiver)
      → IsSessions s
      → IsSound r
      → IsSound (step ops elapsed_ms screen now starts s r).receiver
  unfolding step handle_frame
  step-IsSound (tick system ended) r allowed h = handle_tick-IsSound system ended r h
  step-IsSound (submission s) r allowed h = handle_submission-IsSound s r h
  step-IsSound (command c) r allowed h = handle_command-IsSound ops screen now starts c r h
  step-IsSound (frame writes) r allowed h = take_frame-IsSound r.frames writes r h.framed h
  step-IsSound idle r allowed h = handle_idle-IsSound r h
  step-IsSound (packet clock bytes) r allowed h =
      send_on-IsSound _ r (process_udp_chunk-Safe now clock bytes r.decoder h.decoder_formed) h
  step-IsSound (session call) r allowed h = managed ops screen now starts call r allowed h
