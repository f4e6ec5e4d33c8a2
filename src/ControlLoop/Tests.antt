-- ===== src/ControlLoop/Tests.antt =====
-- Runs of the control loop at concrete steps.
use llrdc_casting.Control.{StartRequest, start, stop, get_status, ControlCommand, admin_stop, ping}
use llrdc_casting.ControlLoop.Types.{
  Screen, Receiver, default_active_fps, default_active_resolution, default_active_bitrate_mbps,
  default_active_latency_mode,
}
use llrdc_casting.ControlLoop.Announced.{get_status-announced, run_commands, LeavesStream}
use llrdc_casting.ControlLoop.Commands.{handle_command}
use llrdc_casting.ControlLoop.Idle.{IsSound}
use llrdc_casting.ControlLoop.Sound.{step-IsSound}
use llrdc_casting.ControlLoop.Steps.{step, command, frame}
use llrdc_casting.ControlLoop.Stops.{step-IsStopped, IsStopped, EndsStream}
use llrdc_casting.ControlLoop.Turns.{
  IsTimedOut-never, Turn, Turns, IsTimedOut, tick_ready, message_ready,
}
use llrdc_casting.Management.Sessions.{new_state}
use llrdc_casting.Playback.{PlaybackEngine, default_cadence}
use llrdc_casting.Reassembly.Types.{VideoFrame, initial, hevc, stop_frame}
use llrdc_casting.Prelude.Float.{whole}
use llrdc_casting.Prelude.{none, true, [], arith, some, ◌∷◌, All, false, ◌≡◌, refl, List, ℕ}

abbrev screen : Screen
screen = record {
  resolution = "3840x2160";
  vrefresh = 30;
  edid_name = "TV";
  edid_type = "HDMI";
  edid_max_res = "3840x2160";
  edid_max_fps = 60;
  panel_resolution = "3840x2160";
  connector_id = "54";
  plane = "33";
  render_rect = none;
  idle_dashboard_codec = "raw";
  idle_timeout_sec = 30;
  sender_liveness_timeout = 90000000000;
}

abbrev engine : PlaybackEngine
engine = record {
  running = true;
  args = [];
  capacity = 2;
  current_codec = "raw";
  width = 1920;
  height = 1080;
  render_rect = none;
  aspect_mode = "dashboard";
}

abbrev ready : Receiver
ready = record {
  management = new_state 0;
  decoder = initial;
  engine = engine;
  frames = [];
  streaming_active = false;
  active_fps = default_active_fps;
  active_res = default_active_resolution;
  active_bitrate_mbps = default_active_bitrate_mbps;
  active_latency_mode = default_active_latency_mode;
  active_capture_resolution = "";
  active_encoded_resolution = "";
  active_aspect_mode = "";
  active_content_rect = "";
  cadence = default_cadence;
  sent = 0;
  media_stall_reported = false;
}

ready-IsSound : IsSound ready
unfolding new_state
ready-IsSound = record {
  quiet = λ still. record {
    no_stream = refl;
    no_capture = refl;
    no_encoded = refl;
    no_aspect = refl;
    no_content = refl;
  };
  bounded = record { events_le = omega arith; history_le = omega arith; stream_bounded = tt };
  decoder_formed = record { bounded = omega arith; sound = tt; pending = tt; distinct = tt };
  framed = tt;
}

abbrev request : StartRequest
request = record {
  codec = none;
  resolution = some "1280x720";
  fps = some 60;
  bitrate_mbps = none;
  latency_mode = none;
  aspect_mode = some "stretch";
  source_width = some 2560;
  source_height = some 1440;
  encoded_width = some 1280;
  encoded_height = some 720;
  content_rect = none;
  signal_content_rect = none;
  panel_content_rect = none;
  signal_width = none;
  signal_height = none;
  panel_width = none;
  panel_height = none;
  connection_id = some "wt-1";
  device_id = none;
}

abbrev late_frame : VideoFrame
late_frame = record (stop_frame 5) { seq = 7; codec = some hevc; access_unit = 1 ∷ [] }

abbrev waiting : Receiver
waiting = record ready { frames = late_frame ∷ [] }

step-IsSound_example :
    IsSound (step whole (λ t. t) screen 100 true (command (start request)) ready).receiver
step-IsSound_example =
    step-IsSound whole (λ t. t) screen 100 true (command (start request)) ready tt ready-IsSound

-- A ping and a request between a start or a stop and the request that is looked at.
abbrev between : List (ℕ × ControlCommand)
between = (150, ping (some 3) none) ∷ (160, get_status) ∷ []

get_status-announced_example :
    ((handle_command whole screen 200 true get_status (
        run_commands whole screen true between
          (handle_command whole screen 100 true (start request) ready).receiver)).telemetry
      ≡ (handle_command whole screen 100 true (start request) ready).telemetry)
    × ((handle_command whole screen 200 true get_status (
          run_commands whole screen true between
            (handle_command whole screen 100 true stop ready).receiver)).telemetry
        ≡ (handle_command whole screen 100 true stop ready).telemetry)
    × ((handle_command whole screen 200 true get_status (
          run_commands whole screen true between
            (handle_command whole screen 100 true admin_stop ready).receiver)).telemetry
        ≡ (handle_command whole screen 100 true stop ready).telemetry)
unfolding LeavesStream
get_status-announced_example =
    get_status-announced whole screen true 100 200 request between ready (tt, (tt, tt))

step-IsStopped_example :
    IsStopped
      (step whole
        (λ t. t)
        screen
        100
        true
        (frame true)
        (record ready { frames = stop_frame 5 ∷ late_frame ∷ [] })).receiver
unfolding EndsStream
step-IsStopped_example =
    step-IsStopped whole (λ t. t) screen 100 true (frame true)
      (record ready { frames = stop_frame 5 ∷ late_frame ∷ [] }) refl

-- Two ticks and a message between them, under the default timeout of thirty seconds.
IsTimedOut-never_example :
    All (λ b. ¬ IsTimedOut 30000000000 b) (tick_ready ∷ message_ready ∷ tick_ready ∷ [])
unfolding Turn Turns
IsTimedOut-never_example =
    IsTimedOut-never 30000000000 (record { began = 0; tick_at = 0 })
      (tick_ready ∷ message_ready ∷ tick_ready ∷ []) (omega arith) (omega arith)
      (
        record { began = 10; tick_at = 2000000000 },
        (omega arith, omega arith, omega arith),
        (
          record { began = 40; tick_at = 2000000000 },
          (30, omega arith, omega arith, omega arith, omega arith, refl),
          (
            record { began = 2000000007; tick_at = 4000000000 },
            (omega arith, omega arith, omega arith),
            tt,
          ),
        ),
      )
