-- ===== src/ControlLoop/Announced.antt =====
-- What the receiver announces against what it answers to a request for its status.
use llrdc_casting.Prelude.Float.{FloatOps}
use llrdc_casting.Control.{
  StartRequest, start, stop, get_status, ControlCommand, admin_stop, restart_receiver, shutdown,
  client_hello, ping, client_diagnostic, latency_report, clock_sync,
}
use llrdc_casting.ControlLoop.Types.{Screen, Receiver}
use llrdc_casting.ControlLoop.Commands.{
  handle_command, start_stream, start_status, stop_stream, quiet, restore_dashboard,
}
use llrdc_casting.ControlLoop.Status.{idle_status, current_status}
use llrdc_casting.ControlLoop.Frames.{auto_start, begin_stream, compose}
use llrdc_casting.Reassembly.Types.{VideoFrame, Codec}
use llrdc_casting.Prelude.{
  ℕ, Bool, ◌≡◌, [], refl, Bool-cases, leb, inl, inr, List, All, ap, ◌∷◌, ◌∙◌,
}

-- Commands that neither start nor stop a stream nor end the program.
unfoldable pub LeavesStream : ControlCommand → Type 0
LeavesStream stop = ⊥
LeavesStream admin_stop = ⊥
LeavesStream restart_receiver = ⊥
LeavesStream (shutdown reason) = ⊥
LeavesStream (start s) = ⊥
LeavesStream c = Unit

module _ (ops : FloatOps) (screen : Screen) (starts : Bool) where
  -- A run of commands, each at its time.
  unfoldable pub run_commands : List (ℕ × ControlCommand) → Receiver → Receiver
  run_commands [] r = r
  run_commands ((now, c) ∷ cs) r =
      run_commands cs (handle_command ops screen now starts c r).receiver

  command-current_status :
      (now : ℕ) (c : ControlCommand) (r : Receiver)
      → LeavesStream c
      → current_status screen (handle_command ops screen now starts c r).receiver
        ≡ current_status screen r
  unfolding LeavesStream handle_command current_status
  command-current_status now (client_hello h) r other = refl
  command-current_status now (ping id sent) r other = refl
  command-current_status now (client_diagnostic level message) r other = refl
  command-current_status now (latency_report sample) r other = refl
  command-current_status now (clock_sync offset uncertainty) r other = refl
  command-current_status now get_status r other = refl
  command-current_status now (start s) r other = absurd other
  command-current_status now stop r other = absurd other
  command-current_status now admin_stop r other = absurd other
  command-current_status now restart_receiver r other = absurd other
  command-current_status now (shutdown reason) r other = absurd other

  run_commands-current_status :
      (cs : List (ℕ × ControlCommand)) (r : Receiver)
      → All (λ (c : ℕ × ControlCommand). LeavesStream c.1) cs
      → current_status screen (run_commands cs r) ≡ current_status screen r
  unfolding run_commands
  run_commands-current_status [] r others = refl
  run_commands-current_status ((now, c) ∷ cs) r others =
      run_commands-current_status cs (handle_command ops screen now starts c r).receiver others.1
      ∙ command-current_status now c r others.0

  -- A request for the status after a Start or a Stop command is answered with the very status that
  -- the Start or the Stop has announced, whatever commands come between that neither start nor stop
  -- a stream nor end the program. After an AdminStop it is answered with what a Stop in its place
  -- would have announced. This is for command branches alone: no frame comes in between.
  pub get_status-announced :
      (now later : ℕ) (s : StartRequest) (cs : List (ℕ × ControlCommand)) (r : Receiver)
      → All (λ (c : ℕ × ControlCommand). LeavesStream c.1) cs
      → ((handle_command ops screen later starts get_status
            (run_commands cs (handle_command ops screen now starts (start s) r).receiver)).telemetry
          ≡ (handle_command ops screen now starts (start s) r).telemetry)
        × ((handle_command ops screen later starts get_status
              (run_commands cs (handle_command ops screen now starts stop r).receiver)).telemetry
            ≡ (handle_command ops screen now starts stop r).telemetry)
        × ((handle_command ops screen later starts get_status (
              run_commands cs
                (handle_command ops screen now starts admin_stop r).receiver)).telemetry
            ≡ (handle_command ops screen now starts stop r).telemetry)
  unfolding handle_command start_stream start_status stop_stream quiet restore_dashboard idle_status
      current_status
  get_status-announced now later s cs r others = (
    ap (λ m. m ∷ []) (run_commands-current_status cs _ others),
    ap (λ m. m ∷ []) (run_commands-current_status cs _ others),
    ap (λ m. m ∷ []) (run_commands-current_status cs _ others),
  )

-- Whatever frame starts a stream by itself, its branch announces nothing, since it finds the stream
-- active already.
pub auto_start-silent :
    (ops : FloatOps) (elapsed_ms : ℕ → ℕ) (screen : Screen) (now : ℕ) (starts : Bool)
    (f : VideoFrame) (codec : Codec) (r : Receiver)
    → (auto_start ops elapsed_ms screen now starts f (
        compose ops elapsed_ms screen now starts codec
          (begin_stream ops elapsed_ms screen now starts f r))).1
      ≡ []
unfolding auto_start compose begin_stream
auto_start-silent ops elapsed_ms screen now starts f codec r = elim (Bool-cases (leb f.seq 1)) [
  | inl first ↦ rw first refl
  | inr later ↦ rw later refl
]
