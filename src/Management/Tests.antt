-- ===== src/Management/Tests.antt =====
-- Runs of the management state at concrete calls.
use llrdc_casting.Management.Closing.{connection_closed-ends}
use llrdc_casting.Prelude.Dict.{lookup}
use llrdc_casting.Management.Reports.{Acceptable, Accepted, record_estimated_latency-branches}
use llrdc_casting.Management.Metrics.{record_estimated_latency, is_plausible, record_frame}
use llrdc_casting.Management.Types.{
  Inner, EstimatedLatencySnapshot, ClientMetadata, StreamConfigSnapshot,
}
use llrdc_casting.Management.Lifecycle.{Bounded, run_call, run_call-Bounded, starts}
use llrdc_casting.Management.Sessions.{new_state, start, owns, connection_closed}
use llrdc_casting.Prelude.Float.{whole}
use llrdc_casting.Prelude.{arith, ◌≡◌, some, false, ◌⊎◌, true, none}

new_state-Bounded : Bounded (new_state 0)
unfolding new_state
new_state-Bounded = record {
  events_le = omega arith;
  history_le = omega arith;
  stream_bounded = tt;
}

abbrev sample : EstimatedLatencySnapshot
sample = record {
  seq = 1;
  total_ms = 0;
  encode_ms = 0;
  sender_queue_ms = 0;
  delivery_ms = 0;
  receiver_queue_ms = 0;
  transport_queue_ms = 0;
  decode_display_ms = 0;
  access_unit_bytes = 0;
  media_write_blocked_ms = 0;
  clock_uncertainty_ms = 0;
  clock_sync_age_ms = 0;
  configured_bitrate_mbps = 0;
  adaptive_bitrate_mbps = 0;
  dropped_input_frames = 0;
  effective_fps = 0;
}

abbrev client : ClientMetadata
client = record {
  device_id = "device";
  user_agent = "";
  platform = "";
  language = "";
  page_session_id = "";
  remote_ip = "10.0.0.2";
  connection_id = "wt-1";
}

abbrev config : StreamConfigSnapshot
config = record {
  codec = "H265";
  resolution = "1920x1088";
  fps = 30;
  bitrate_mbps = 6;
  latency_mode = "ULL";
  aspect_mode = "preserve";
  capture_resolution = "1920x1080";
  encoded_resolution = "1920x1088";
}

-- A session of `client` in which frame 1 has come.
abbrev sharing_state : Inner
sharing_state = record_frame whole 8 1 1000 2 (start whole 7 config (some client) (new_state 0))

record_estimated_latency-branches_example :
    ((record_estimated_latency whole 9 "wt-1" sample sharing_state ≡ (false, sharing_state))
      × ¬ Acceptable whole 9 "wt-1" sample sharing_state)
    ⊎ ((is_plausible whole 9 sample ≡ true)
        × Accepted whole 9 "wt-1" sample sharing_state
            (record_estimated_latency whole 9 "wt-1" sample sharing_state))
record_estimated_latency-branches_example =
    record_estimated_latency-branches whole 9 "wt-1" sample sharing_state

run_call-Bounded_example : Bounded (run_call whole 9 (starts config (some client)) (new_state 0))
run_call-Bounded_example =
    run_call-Bounded whole 9 (starts config (some client)) (new_state 0) new_state-Bounded

connection_closed-ends_example :
    (owns whole 10 "wt-1" (connection_closed whole 10 "wt-1" sharing_state).1 ≡ false)
    × ((connection_closed whole 10 "wt-1" sharing_state).0 ≡ owns whole 10 "wt-1" sharing_state)
    × (lookup "wt-1" (connection_closed whole 10 "wt-1" sharing_state).1.clock_syncs ≡ none)
connection_closed-ends_example = connection_closed-ends whole 10 "wt-1" sharing_state
