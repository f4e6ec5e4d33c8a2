-- ===== src/ControlLoop/Idle.antt =====
-- The invariant of the receiver: an idle receiver is quiet, and the bounds of its parts hold.
use llrdc_casting.Reassembly.Types.{Decoder, VideoFrame}
use llrdc_casting.Prelude.Text.{str_eq, text_take}
use llrdc_casting.Transport.Routing.{diagnose}
use llrdc_casting.Reassembly.Assemble.{reset_decoder_pipeline}
use llrdc_casting.Control.{
  ControlCommand, shutdown, client_hello, start, ping, client_diagnostic, latency_report,
  clock_sync, stop, admin_stop, restart_receiver, get_status,
}
use llrdc_casting.ControlLoop.Commands.{
  quiet, handle_command, restore_dashboard, start_stream, stop_stream,
}
use llrdc_casting.Reassembly.Assemble.Safety.{IsFrame, reset-WellFormed}
use llrdc_casting.Prelude.Float.{FloatOps}
use llrdc_casting.Management.Types.{Inner}
use llrdc_casting.ControlLoop.Types.{Screen, Receiver}
use llrdc_casting.Management.Lifecycle.{Bounded, Call, run_call, run_call-Bounded}
use llrdc_casting.Reassembly.Assemble.Invariant.{WellFormed}
use llrdc_casting.Management.Starts.{run_call-none, IsNoStart, stop-none}
use llrdc_casting.Prelude.{
  ℕ, ◌≡◌, none, false, All, some, Bool, String, refl, Bool-cases, inl, inr, List,
}

-- No session is open, and no stream is described.
pub record Quiet (inner : Inner) (capture encoded aspect content : String) : Type 0 where
  pub no_stream : inner.stream ≡ none
  pub no_capture : capture ≡ ""
  pub no_encoded : encoded ≡ ""
  pub no_aspect : aspect ≡ ""
  pub no_content : content ≡ ""

abbrev pub IsQuiet : Receiver → Type 0
IsQuiet r =
    Quiet r.management r.active_capture_resolution r.active_encoded_resolution r.active_aspect_mode
      r.active_content_rect

pub record Sound (inner : Inner) (decoder : Decoder) (frames : List VideoFrame) (active : Bool)
    (capture encoded aspect content : String) : Type 0 where
  pub quiet : active ≡ false → Quiet inner capture encoded aspect content
  pub bounded : Bounded inner
  pub decoder_formed : WellFormed decoder
  pub framed : All (λ f. IsFrame (some f)) frames

abbrev pub IsSound : Receiver → Type 0
IsSound r =
    Sound r.management r.decoder r.frames r.streaming_active r.active_capture_resolution
      r.active_encoded_resolution r.active_aspect_mode r.active_content_rect

module _ (ops : FloatOps) (screen : Screen) (now : ℕ) (starts : Bool) where
  pub quiet-IsQuiet :
      (reason : String) (r : Receiver) → IsQuiet (quiet ops screen now starts reason r)
  unfolding quiet restore_dashboard
  quiet-IsQuiet reason r = record {
    no_stream = stop-none ops now reason r.management;
    no_capture = refl;
    no_encoded = refl;
    no_aspect = refl;
    no_content = refl;
  }

  pub quiet-IsSound :
      (reason : String) (r : Receiver)
      → Bounded r.management
      → WellFormed r.decoder
      → IsSound (quiet ops screen now starts reason r)
  unfolding quiet restore_dashboard run_call
  quiet-IsSound reason r b w = record {
    quiet = λ still. quiet-IsQuiet reason r;
    bounded = run_call-Bounded ops now (Call.stops reason) r.management b;
    decoder_formed = w;
    framed = tt;
  }

  -- A call on the management state, with nothing else changed.
  pub managed :
      (call : Call) (r : Receiver)
      → IsNoStart call
      → IsSound r
      → IsSound (record r { management = run_call ops now call r.management })
  managed call r allowed h = record {
    quiet = λ still.
        let q = h.quiet still in
        record {
          no_stream = run_call-none ops now call r.management allowed q.no_stream;
          no_capture = q.no_capture;
          no_encoded = q.no_encoded;
          no_aspect = q.no_aspect;
          no_content = q.no_content;
        };
    bounded = run_call-Bounded ops now call r.management h.bounded;
    decoder_formed = h.decoder_formed;
    framed = h.framed;
  }

  stop_stream-IsSound :
      (reason : String) (r : Receiver)
      → IsSound r
      → IsSound (stop_stream ops screen now starts reason r)
  unfolding stop_stream
  stop_stream-IsSound reason r h =
      quiet-IsSound reason
        (record r { media_stall_reported = false; decoder = reset_decoder_pipeline r.decoder })
        h.bounded (reset-WellFormed r.decoder)

  diagnose-IsSound :
      (level message : String) (r : Receiver)
      → IsSound r
      → IsSound (record r { management = diagnose ops now "legacy" level message r.management })
  unfolding diagnose run_call
  diagnose-IsSound level message r h = elim (Bool-cases (str_eq (text_take 4096 message) "")) [
    | inl empty ↦ rw empty h
    | inr full ↦ rw full (managed (Call.events _ _ _) r tt h)
  ]

  pub handle_command-IsSound :
      (c : ControlCommand) (r : Receiver)
      → IsSound r
      → IsSound (handle_command ops screen now starts c r).receiver
  unfolding handle_command run_call start_stream stop_stream
  handle_command-IsSound stop r h = stop_stream-IsSound "user_stop" r h
  handle_command-IsSound admin_stop r h = stop_stream-IsSound "admin_stop" r h
  handle_command-IsSound restart_receiver r h = managed (Call.stops "settings_restart") r tt h
  handle_command-IsSound (shutdown reason) r h = managed (Call.stops reason) r tt h
  handle_command-IsSound (client_hello m) r h = managed (Call.hellos _) r tt h
  handle_command-IsSound (start s) r h = record {
    quiet = λ still. cc still;
    bounded = run_call-Bounded ops now (Call.starts _ _) r.management h.bounded;
    decoder_formed = h.decoder_formed;
    framed = h.framed;
  }
  handle_command-IsSound (ping id sent) r h = h
  handle_command-IsSound (client_diagnostic level message) r h = diagnose-IsSound level message r h
  handle_command-IsSound (latency_report sample) r h = h
  handle_command-IsSound (clock_sync offset uncertainty) r h = h
  handle_command-IsSound get_status r h = h
