-- ===== src/ControlLoop/Commands.antt =====
-- The commands that the control loop handles (src/main.rs).
use llrdc_casting.Control.{ControlCommand, StartRequest, Hello, TelemetryMessage}
use llrdc_casting.Control.{
  start, stop, admin_stop, restart_receiver, shutdown, client_hello, ping, clock_sync, get_status,
  client_diagnostic, latency_report, pong,
}
use llrdc_casting.ControlLoop.Types.{
  Screen, Receiver, Handled, goes_on, default_active_fps, default_active_resolution,
  default_active_bitrate_mbps, default_active_latency_mode,
}
use llrdc_casting.ControlLoop.Status.{
  dimensions, status_of, idle_status, admin_idle_status, current_status,
}
use llrdc_casting.Management.Types.{Inner, ClientMetadata, ConnectionRecord, StreamConfigSnapshot}
use llrdc_casting.Management.Sessions as Sessions
use llrdc_casting.Management.Estimates.{snapshot}
use mathlib.Core.Option
use llrdc_casting.Playback.{reset, ensure_configuration}
use llrdc_casting.Reassembly.Assemble.{reset_decoder_pipeline}
use llrdc_casting.Transport.Routing.{diagnose}
use llrdc_casting.Prelude.Float.{FloatOps}
use llrdc_casting.Prelude.Text.{str_eq}
use llrdc_casting.Prelude.{
  ℕ, String, Option, Bool, if◌then◌else◌, false, unwrap_or, some, true, [], ◌∷◌, is_some_and, none,
  find,
}

-- Text of two dimensions, if both are there.
both_or : Option ℕ → Option ℕ → String → String
both_or (some width) (some height) text = dimensions width height
both_or _ _ text = text

-- The sender of a stream, of what its connection has said of itself.
metadata_of : Option String → ConnectionRecord → ClientMetadata
metadata_of device_id c = record {
  device_id = if str_eq c.device_id "" then unwrap_or device_id "" else c.device_id;
  user_agent = c.user_agent;
  platform = c.platform;
  language = c.language;
  page_session_id = c.page_session_id;
  remote_ip = c.remote_ip;
  connection_id = c.connection_id;
}

-- `starts` tells whether a playback process starts when one is spawned.
module _ (ops : FloatOps) (screen : Screen) (now : ℕ) (starts : Bool) where
  -- The dashboard back on the screen.
  unfoldable pub restore_dashboard : Receiver → Receiver
  restore_dashboard r = record r {
    engine =
        (ensure_configuration screen.plane starts screen.idle_dashboard_codec screen.connector_id
          screen.render_rect "dashboard" r.engine).1;
  }

  -- What every way to stop a stream does; the frames that wait are taken and dropped.
  unfoldable pub quiet : String → Receiver → Receiver
  unfolding restore_dashboard
  quiet reason r = restore_dashboard (record r {
    management = (Sessions.stop ops now reason r.management).1;
    streaming_active = false;
    cadence = reset r.cadence;
    active_capture_resolution = "";
    active_encoded_resolution = "";
    active_aspect_mode = "";
    active_content_rect = "";
    frames = [];
  })

  unfoldable pub stop_stream : String → Receiver → Receiver
  unfolding quiet
  stop_stream reason r =
      quiet reason
        (record r { media_stall_reported = false; decoder = reset_decoder_pipeline r.decoder })

  hello_of : Hello → ClientMetadata
  hello_of h = record {
    device_id = h.device_id;
    user_agent = h.user_agent;
    platform = h.platform;
    language = h.language;
    page_session_id = h.page_session_id;
    remote_ip = unwrap_or h.remote_ip "unknown";
    connection_id = unwrap_or h.connection_id "legacy";
  }

  sender_for : Option String → Option String → Inner → Option ClientMetadata
  unfolding metadata_of
  sender_for none device_id inner = none
  sender_for (some id) device_id inner = Option.map (metadata_of device_id) (
      find (λ (c : ConnectionRecord). str_eq c.connection_id id)
        (snapshot ops now inner).connections)

  -- The configuration that a request asks for, with the defaults.
  config_of : StartRequest → StreamConfigSnapshot
  unfolding both_or
  config_of s =
      let resolution = unwrap_or s.resolution default_active_resolution in
      record {
        codec = unwrap_or s.codec "hevc";
        resolution = resolution;
        fps = unwrap_or s.fps default_active_fps;
        bitrate_mbps = unwrap_or s.bitrate_mbps default_active_bitrate_mbps;
        latency_mode = unwrap_or s.latency_mode default_active_latency_mode;
        aspect_mode =
            if is_some_and s.aspect_mode (λ a. str_eq a "stretch") then "stretch" else "preserve";
        capture_resolution = both_or s.source_width s.source_height "";
        encoded_resolution = both_or s.encoded_width s.encoded_height resolution;
      }

  unfoldable pub start_stream : StartRequest → Receiver → Receiver
  unfolding config_of sender_for
  start_stream s r =
      let config = config_of s in
      record r {
        management =
            Sessions.start ops now config (sender_for s.connection_id s.device_id r.management)
              r.management;
        streaming_active = true;
        cadence = reset r.cadence;
        media_stall_reported = false;
        active_capture_resolution = config.capture_resolution;
        active_encoded_resolution = config.encoded_resolution;
        active_aspect_mode = config.aspect_mode;
        active_content_rect = unwrap_or s.content_rect "";
        active_fps = config.fps;
        active_res = config.resolution;
        active_bitrate_mbps = config.bitrate_mbps;
        active_latency_mode = config.latency_mode;
      }

  unfoldable pub start_status : StartRequest → TelemetryMessage
  unfolding config_of status_of
  start_status s =
      let config = config_of s in
      status_of screen "STREAMING" config.resolution config.fps config.bitrate_mbps
        config.latency_mode config.capture_resolution config.encoded_resolution config.aspect_mode
        (unwrap_or s.content_rect "")

  exit_with : String → Receiver → Handled
  exit_with reason r = record {
    receiver = record r { management = (Sessions.stop ops now reason r.management).1 };
    telemetry = [];
    exits = true;
  }

  unfoldable pub handle_command : ControlCommand → Receiver → Handled
  unfolding stop_stream idle_status admin_idle_status start_stream start_status current_status
      hello_of exit_with
  handle_command stop r =
      let stopped = stop_stream "user_stop" r in goes_on stopped (idle_status screen stopped ∷ [])
  handle_command admin_stop r = goes_on (stop_stream "admin_stop" r) (admin_idle_status screen ∷ [])
  handle_command restart_receiver r = exit_with "settings_restart" r
  handle_command (shutdown reason) r = exit_with reason r
  handle_command (client_hello h) r =
      goes_on (record r { management = Sessions.hello ops now (hello_of h) r.management }) []
  handle_command (start s) r = goes_on (start_stream s r) (start_status s ∷ [])
  handle_command (ping id sent) r =
      goes_on r (pong (record { id = id; server_receive_ms = none; server_send_ms = none }) ∷ [])
  handle_command (client_diagnostic level message) r =
      goes_on (record r { management = diagnose ops now "legacy" level message r.management }) []
  handle_command (latency_report sample) r = goes_on r []
  handle_command (clock_sync offset uncertainty) r = goes_on r []
  handle_command get_status r = goes_on r (current_status screen r ∷ [])
