-- ===== src/ControlLoop/Status.antt =====
-- The status messages of the control loop (src/main.rs).
use llrdc_casting.Control.{TelemetryMessage, status}
use llrdc_casting.ControlLoop.Types.{Screen, Receiver, default_idle_resolution}
use llrdc_casting.Prelude.Text.{texts, decimal}
use llrdc_casting.Prelude.{ℕ, String, ◌∷◌, if◌then◌else◌, []}

-- `format!("{}x{}", …)`.
abbrev pub dimensions : ℕ → ℕ → String
dimensions width height = texts (decimal width ∷ "x" ∷ decimal height ∷ [])

module _ (screen : Screen) where
  unfoldable pub status_of :
      (state resolution : String) (fps bitrate_mbps : ℕ)
      (latency_mode capture encoded aspect content : String)
      → TelemetryMessage
  status_of state resolution fps bitrate_mbps latency_mode capture encoded aspect content =
      status (record {
        state = state;
        resolution = resolution;
        fps = fps;
        display_resolution = screen.resolution;
        display_fps = screen.vrefresh;
        bitrate_mbps = bitrate_mbps;
        latency_mode = latency_mode;
        edid_name = screen.edid_name;
        edid_type = screen.edid_type;
        edid_max_res = screen.edid_max_res;
        edid_max_fps = screen.edid_max_fps;
        display_max_fps = screen.edid_max_fps;
        capture_resolution = capture;
        encoded_resolution = encoded;
        aspect_mode = aspect;
        content_rect = content;
        signal_resolution = screen.resolution;
        panel_resolution = screen.panel_resolution;
      })

  -- The status of a receiver that has stopped.
  unfoldable pub idle_status : Receiver → TelemetryMessage
  unfolding status_of
  idle_status r =
      status_of "IDLE" default_idle_resolution 0 r.active_bitrate_mbps r.active_latency_mode "" ""
        "" ""

  -- Its answer to an administrator's stop, without bitrate and mode.
  unfoldable pub admin_idle_status : TelemetryMessage
  unfolding status_of
  admin_idle_status = status_of "IDLE" default_idle_resolution 0 0 "" "" "" "" ""

  -- The answer to a request for the status.
  unfoldable pub current_status : Receiver → TelemetryMessage
  unfolding status_of
  current_status r =
      status_of (if r.streaming_active then "STREAMING" else "IDLE")
        (if r.streaming_active then r.active_res else default_idle_resolution)
        (if r.streaming_active then r.active_fps else 0) r.active_bitrate_mbps r.active_latency_mode
        r.active_capture_resolution r.active_encoded_resolution r.active_aspect_mode
        r.active_content_rect

  -- The status that every thirtieth frame broadcasts, with the frame's size.
  unfoldable pub frame_status : ℕ → ℕ → Receiver → TelemetryMessage
  unfolding status_of
  frame_status width height r =
      status_of "STREAMING" (dimensions width height) r.active_fps r.active_bitrate_mbps
        r.active_latency_mode "" "" "" ""
