-- ===== src/Transport/Sessions.antt =====
-- The streams of a session from their first byte to their end (src/webtransport_server.rs): the
-- control stream, the streams of video packets, the datagrams, and what a closed session leaves.
-- The JSON decoders are parameters; `is_ui` is is_ui_request of src/ui_delivery.rs.
pub mod Ends
use llrdc_casting.Prelude.Float.{FloatOps}
use llrdc_casting.Control.{ControlCommand, TelemetryMessage, get_status, stop}
use llrdc_casting.Management.Sessions.{connection_closed}
use llrdc_casting.Management.Types.{Inner}
use llrdc_casting.Transport.Routing.{route_control_payload, Routed}
use llrdc_casting.Transport.Framing.{
  read_message, read_messages, max_control_message_bytes, max_uni_stream_message_bytes,
}
use llrdc_casting.Reassembly.Assemble.Streams.{Arrival, receive}
use llrdc_casting.Reassembly.Types.{Decoder, VideoFrame, stop_frame}
use llrdc_casting.Reassembly.Assemble.{Outcome, done, process_udp_chunk}
use llrdc_casting.Prelude.{ℕ, List, Option, ◌∷◌, none, some, Bool, suc, String, [], if◌then◌else◌}

-- The clocks at a control message: `Instant::now()`, and the server's two times in milliseconds.
pub record Reading : Type 0 where
  pub now : ℕ
  pub received : ℕ
  pub answered : ℕ

-- What the session writes on its own stream, and what it sends to the control loop.
pub record Served : Type 0 where
  pub answers : List TelemetryMessage
  pub commands : List ControlCommand
  pub management : Inner

abbrev push_some {ℓ} : {A : Type ℓ} → Option A → List A → List A
push_some none xs = xs
push_some (some x) xs = x ∷ xs

abbrev served_then : Routed → Served → Served
served_then r rest = record {
  answers = push_some r.answer rest.answers;
  commands = push_some r.forwarded rest.commands;
  management = rest.management;
}

-- `clock n` are the clocks at the message of index n, `closed_at` the Instant of the end.
module _ (ops : FloatOps) (decode : List ℕ → Option ControlCommand) (is_ui : List ℕ → Bool)
    (clock : ℕ → Reading) (closed_at : ℕ) (id ip : String) where
  -- The end of the stream: the connection is closed, and a stream that it owned is stopped.
  close_control : Inner → Served
  close_control inner =
      let (was_active, after) = connection_closed ops closed_at id inner in
      record { answers = []; commands = if was_active then stop ∷ [] else []; management = after }

  -- The messages in their order, from the index of the first.
  route_all : ℕ → List (List ℕ) → Inner → Served
  unfolding close_control
  route_all n [] inner = close_control inner
  route_all n (payload ∷ payloads) inner =
      let r =
        route_control_payload ops (clock n).now (clock n).received (clock n).answered id decode ip
          payload inner in
      served_then r (route_all (suc n) payloads r.management)

  greeted : Served → Served
  greeted s = record s { commands = get_status ∷ s.commands }

  first_message : Option (List ℕ × List ℕ) → Inner → Served
  unfolding route_all greeted
  first_message none inner = record { answers = []; commands = []; management = inner }
  first_message (some (first, rest)) inner =
      if is_ui first
      then record { answers = []; commands = []; management = inner }
      else greeted (route_all 0 (first ∷ read_messages max_control_message_bytes rest) inner)

  -- The bytes of a control stream. A request for the page is answered with the page alone.
  unfoldable pub handle_control_stream : List ℕ → Inner → Served
  unfolding first_message
  handle_control_stream bytes inner =
      first_message (read_message max_control_message_bytes bytes) inner

-- The bytes of a stream of video, each packet with the clocks at its arrival.
timed : (ℕ → ℕ × ℕ) → ℕ → List (List ℕ) → List Arrival
timed clock n [] = []
timed clock n (packet ∷ packets) =
    record { now = (clock n).0; clock = (clock n).1; packet = packet } ∷ timed clock (suc n) packets

unfoldable pub receive_uni_stream :
    (ℕ → ℕ × ℕ) → List ℕ → Decoder → Option (List VideoFrame × Decoder)
unfolding timed
receive_uni_stream clock bytes d =
    receive (timed clock 0 (read_messages max_uni_stream_message_bytes bytes)) d

-- A datagram that is empty is no packet.
unfoldable pub receive_datagram : ℕ → ℕ → List ℕ → Decoder → Outcome
receive_datagram now clock [] d = done none d
receive_datagram now clock (b ∷ bytes) d = process_udp_chunk now clock (b ∷ bytes) d

-- The end of a session: the stop frame for the control loop, and the connection closed.
unfoldable pub close_session : FloatOps → ℕ → String → Inner → VideoFrame × Inner
close_session ops now id inner = (stop_frame now, (connection_closed ops now id inner).1)
