-- ===== src/Transport/Routing.antt =====
-- The routing of one control message (src/webtransport_server.rs): what the session answers itself,
-- and what it passes to the control loop, under the identity of its connection. The JSON decoder is
-- the parameter `decode`.
pub mod Identity
use llrdc_casting.Management.Metrics.{record_estimated_latency}
use llrdc_casting.Prelude.Ascii.{to_ascii_lowercase}
use llrdc_casting.Prelude.Bytes.{bytes_eq}
use llrdc_casting.Prelude.Text.{text_take, str_eq, codes, texts}
use llrdc_casting.Control.{
  ControlCommand, TelemetryMessage, client_hello, ping, start, pong, clock_sync, client_diagnostic,
  latency_report,
}
use llrdc_casting.Prelude.Float.{FloatOps, f64_is_positive}
use llrdc_casting.Prelude.{
  ℕ, String, List, Option, none, Bool, if◌then◌else◌, is_some_and, some, true, false, ◌||◌, ◌∷◌, [],
}
use llrdc_casting.Management.Types.{Inner}
use llrdc_casting.Management.Sessions.{event, touch_connection, record_clock_sync}

-- The identity of the connection in place of what the client sent.
stamp : String → String → ControlCommand → ControlCommand
stamp id ip (client_hello h) =
    client_hello (record h { connection_id = some id; remote_ip = some ip })
stamp id ip (start r) = start (record r { connection_id = some id })
stamp id ip c = c

normalized_level : List ℕ → String
normalized_level level =
    if bytes_eq level (codes "error")
    then "error"
    else if bytes_eq level (codes "warn") || bytes_eq level (codes "warning")
    then "warn"
    else if bytes_eq level (codes "debug")
    then "debug"
    else "info"

-- A diagnostic of a client, cut at 4096 characters; an empty one is dropped.
unfoldable pub diagnose : FloatOps → ℕ → String → String → String → Inner → Inner
unfolding normalized_level
diagnose ops now client level message inner =
    let bounded = text_take 4096 message in
    if str_eq bounded ""
    then inner
    else event ops now (normalized_level (to_ascii_lowercase (codes level))) "client_diagnostic"
        (texts ("client=" ∷ client ∷ ": " ∷ bounded ∷ [])) inner

-- The answer on the session's own stream, the command for the control loop, and the state.
pub record Routed : Type 0 where
  pub answer : Option TelemetryMessage
  pub forwarded : Option ControlCommand
  pub management : Inner

abbrev kept : Inner → Routed
kept inner = record { answer = none; forwarded = none; management = inner }

-- A client's own time of sending makes the answer carry the server's.
is_synchronized_ping : Option ℕ → Bool
is_synchronized_ping sent = is_some_and sent f64_is_positive

abbrev when_some : Bool → ℕ → Option ℕ
when_some true t = some t
when_some false t = none

-- `received` and `answered` are the server's two readings of its clock.
module _ (ops : FloatOps) (now received answered : ℕ) (id : String) where
  route_command : ControlCommand → Inner → Routed
  unfolding is_synchronized_ping diagnose
  route_command (ping n sent) inner = record {
    answer = some (
        pong (record {
          id = n;
          server_receive_ms = when_some (is_synchronized_ping sent) received;
          server_send_ms = when_some (is_synchronized_ping sent) answered;
        }));
    forwarded = none;
    management = (touch_connection ops now id inner).1;
  }
  route_command (clock_sync offset uncertainty) inner =
      kept (record_clock_sync ops now id offset uncertainty (touch_connection ops now id inner).1).1
  route_command (client_diagnostic level message) inner =
      kept (diagnose ops now id level message (touch_connection ops now id inner).1)
  route_command (latency_report sample) inner =
      kept (record_estimated_latency ops now id sample (touch_connection ops now id inner).1).1
  route_command c inner = record { answer = none; forwarded = some c; management = inner }

  route_decoded : String → Option ControlCommand → Inner → Routed
  unfolding route_command stamp
  route_decoded ip none inner = kept inner
  route_decoded ip (some c) inner = route_command (stamp id ip c) inner

  unfoldable pub route_control_payload :
      (List ℕ → Option ControlCommand) → String → List ℕ → Inner → Routed
  unfolding route_decoded
  route_control_payload decode ip payload inner = route_decoded ip (decode payload) inner
