-- ===== src/ControlLoop/Stops.antt =====
-- The ways in which a stream ends, and the frames that trail behind.
use llrdc_casting.Reassembly.Assemble.{reset_decoder_pipeline}
use llrdc_casting.Management.Sessions.{active_sender_heartbeat_fresh}
use llrdc_casting.Playback.{reset}
use llrdc_casting.Reassembly.Types.{VideoFrame, Codec}
use llrdc_casting.Prelude.Float.{FloatOps}
use llrdc_casting.Control.{stop, admin_stop}
use llrdc_casting.ControlLoop.Types.{Screen, Receiver, goes_on}
use llrdc_casting.ControlLoop.Idle.{IsQuiet, quiet-IsQuiet}
use llrdc_casting.ControlLoop.Commands.{handle_command, stop_stream, quiet, restore_dashboard}
use llrdc_casting.ControlLoop.Frames.{
  handle_frame, handle_idle, handle_codec, handle_coded, handle_stop_frame, end_idle,
}
use llrdc_casting.ControlLoop.Steps.{Step, step, take_frame}
use llrdc_casting.ControlLoop.Steps.{command, frame, idle}
use llrdc_casting.Prelude.{
  ℕ, ◌≡◌, List, false, Bool, [], ◌∷◌, true, none, String, some, ◌<◌, refl, subst, not, sym, ◌&&◌,
  if_true, ltb, ◌∙◌, lt→ltb, if_false, ap,
}

-- No stream, no frame that waits, and the next acknowledgement due at once.
pub record IsStopped (r : Receiver) : Type 0 where
  pub inactive : r.streaming_active ≡ false
  pub is_quiet : IsQuiet r
  pub drained : r.frames ≡ []
  pub fresh_cadence : r.cadence.last_sent_at ≡ none

-- The oldest frame is the stop frame.
abbrev pub StopsFirst : List VideoFrame → Type 0
StopsFirst [] = ⊥
StopsFirst (f ∷ fs) = f.codec ≡ none

module _ (ops : FloatOps) (elapsed_ms : ℕ → ℕ) (screen : Screen) (now : ℕ) (starts : Bool) where
  -- The stop commands, a stop frame, and the idle timeout when the sender is not heard either.
  unfoldable pub EndsStream : Step → Receiver → Type 0
  EndsStream (command stop) r = Unit
  EndsStream (command admin_stop) r = Unit
  EndsStream (frame writes) r = StopsFirst r.frames
  EndsStream idle r =
      (r.streaming_active ≡ true)
      × (active_sender_heartbeat_fresh ops now screen.sender_liveness_timeout r.management ≡ false)
  EndsStream _ r = ⊥

  quiet-IsStopped :
      (reason : String) (r : Receiver) → IsStopped (quiet ops screen now starts reason r)
  unfolding quiet restore_dashboard reset
  quiet-IsStopped reason r = record {
    inactive = refl;
    is_quiet = quiet-IsQuiet ops screen now starts reason r;
    drained = refl;
    fresh_cadence = refl;
  }

  stop_stream-IsStopped :
      (reason : String) (r : Receiver) → IsStopped (stop_stream ops screen now starts reason r)
  unfolding stop_stream
  stop_stream-IsStopped reason r =
      quiet-IsStopped reason
        (record r { media_stall_reported = false; decoder = reset_decoder_pipeline r.decoder })

  taken-IsStopped :
      (fs : List VideoFrame) (writes : Bool) (r : Receiver)
      → StopsFirst fs
      → IsStopped (take_frame ops elapsed_ms screen now starts fs writes r).receiver
  unfolding take_frame handle_frame handle_codec handle_stop_frame
  taken-IsStopped [] writes r first = absurd first
  taken-IsStopped (f ∷ fs) writes r first =
      subst
        (λ c.
          IsStopped
            (handle_codec ops elapsed_ms screen now starts f c writes
              (record r { frames = fs })).receiver)
        (sym first)
        (quiet-IsStopped "user_stop"
          (record r { frames = fs; decoder = reset_decoder_pipeline r.decoder }))

  -- Whichever way a stream ends, by either stop command, by a stop frame or by the idle timeout
  -- without a fresh heartbeat, the receiver is left stopped: inactive, without a session or a
  -- description of a stream, its channel of frames empty and its acknowledgements reset.
  pub step-IsStopped :
      (s : Step) (r : Receiver)
      → EndsStream s r
      → IsStopped (step ops elapsed_ms screen now starts s r).receiver
  unfolding step EndsStream handle_command stop_stream handle_idle end_idle
  step-IsStopped (command stop) r ends = stop_stream-IsStopped "user_stop" r
  step-IsStopped (command admin_stop) r ends = stop_stream-IsStopped "admin_stop" r
  step-IsStopped (frame writes) r ends = taken-IsStopped r.frames writes r ends
  step-IsStopped idle r ends =
      subst (λ h. IsStopped h.receiver)
        (sym (
          if_true _ (goes_on r []) ends.0
          ∙ if_false _ (end_idle ops elapsed_ms screen now starts r) ends.1))
        (quiet-IsStopped "idle_timeout" (record r { media_stall_reported = false }))
  step-IsStopped _ r ends = absurd ends

  -- A coded frame with a number above 1 that reaches a receiver without an active stream, such as
  -- one that trails behind a stop, is taken off the channel and changes nothing else.
  pub step-trailing :
      (f : VideoFrame) (fs : List VideoFrame) (codec : Codec) (writes : Bool) (r : Receiver)
      → r.streaming_active ≡ false
      → r.frames ≡ f ∷ fs
      → f.codec ≡ some codec
      → 1 < f.seq
      → step ops elapsed_ms screen now starts (frame writes) r
        ≡ goes_on (record r { frames = fs }) []
  unfolding step take_frame handle_frame handle_codec handle_coded
  step-trailing f fs codec writes r still waiting coded late =
      ap (λ waiting_frames. take_frame ops elapsed_ms screen now starts waiting_frames writes r)
        waiting
      ∙ ap
          (λ c. handle_codec ops elapsed_ms screen now starts f c writes (record r { frames = fs }))
          coded
      ∙ if_true (goes_on (record r { frames = fs }) []) _ guard
    where
      guard : (not r.streaming_active && ltb 1 f.seq) ≡ true
      guard = rw still (lt→ltb 1 f.seq late)
