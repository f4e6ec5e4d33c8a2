-- ===== src/ControlLoop/Steps.antt =====
-- The steps of the receiver (src/main.rs, and the sessions of src/webtransport_server.rs): the
-- branches of the loop, and what the sessions do to the shared state between them.
use llrdc_casting.Control.{ControlCommand, PlaybackSubmission}
use llrdc_casting.ControlLoop.Types.{Screen, Receiver, Handled, goes_on}
use llrdc_casting.ControlLoop.Commands.{handle_command}
use llrdc_casting.ControlLoop.Frames.{handle_tick, handle_submission, handle_frame, handle_idle}
use llrdc_casting.Management.Types.{HealthSnapshot}
use llrdc_casting.Management.Starts.{IsNoStart}
use llrdc_casting.Management.Lifecycle.{Call, run_call}
use llrdc_casting.Reassembly.Assemble.{process_udp_chunk, Outcome, done, panicked}
use llrdc_casting.Reassembly.Types.{VideoFrame}
use llrdc_casting.Prelude.Float.{FloatOps}
use llrdc_casting.Prelude.{ℕ, List, Option, Bool, some, ◌∷◌, [], ◌++◌, none}

-- `frame` takes the oldest frame of the channel, with whether the writer takes it on; `packet` is a
-- packet that a session hands to the decoder, `session` a session's call on the management state.
pub data Step : Type 0 where
  tick : (HealthSnapshot → HealthSnapshot) → Bool → Step
  submission : PlaybackSubmission → Step
  command : ControlCommand → Step
  frame : Bool → Step
  idle : Step
  packet : ℕ → List ℕ → Step
  session : Call → Step

abbrev pub append_frame : Option VideoFrame → List VideoFrame → List VideoFrame
append_frame none frames = frames
append_frame (some f) frames = frames ++ (f ∷ [])

-- A frame that is complete is put into the channel. A panic would end the session's task.
unfoldable pub send_on : Outcome → Receiver → Receiver
send_on panicked r = r
send_on (done o d) r = record r { decoder = d; frames = append_frame o r.frames }

module _ (ops : FloatOps) (elapsed_ms : ℕ → ℕ) (screen : Screen) (now : ℕ) (starts : Bool) where
  unfoldable pub take_frame : List VideoFrame → Bool → Receiver → Handled
  take_frame [] writes r = goes_on r []
  take_frame (f ∷ fs) writes r =
      handle_frame ops elapsed_ms screen now starts f writes (record r { frames = fs })

  unfoldable pub step : Step → Receiver → Handled
  unfolding send_on take_frame
  step (tick system ended) r = handle_tick ops elapsed_ms screen now starts system ended r
  step (submission s) r = handle_submission ops elapsed_ms screen now starts s r
  step (command c) r = handle_command ops screen now starts c r
  step (frame writes) r = take_frame r.frames writes r
  step idle r = handle_idle ops elapsed_ms screen now starts r
  step (packet clock bytes) r = goes_on (send_on (process_udp_chunk now clock bytes r.decoder) r) []
  step (session call) r = goes_on (record r { management = run_call ops now call r.management }) []

-- The sessions start no stream by themselves.
abbrev pub IsSessions : Step → Type 0
IsSessions (session call) = IsNoStart call
IsSessions _ = Unit
