-- ===== src/Admin/Portal.antt =====
-- A connection of the portal (src/admin.rs, `handle_http` and `handle_websocket`): what its first
-- chunk makes of it, and the messages of a WebSocket. A snapshot is sent at every tick and update, so
-- the events that matter are the client's. The handshake is the library's.
pub mod Hijack
use llrdc_casting.Admin.{Action, stop_sharing, Decoders}
use llrdc_casting.Admin.Reading.{Incoming, read_request, gone, refused, read}
use llrdc_casting.Admin.Routes.{Outcome, Outside, route_request, replies}
use llrdc_casting.Supervisor.{Inner, is_ready}
use llrdc_casting.Prelude.Ascii.{to_ascii_lowercase}
use llrdc_casting.Prelude.Slices.{contains}
use llrdc_casting.Prelude.Text.{codes}
use llrdc_casting.Prelude.{ℕ, List, [], ◌∷◌, none, Bool, if◌then◌else◌, length, ◌==◌, ◌&&◌}

-- What a turn of the WebSocket loop takes up. The end of the stream is `closes` too.
pub data SocketEvent : Type 0 where
  ticks : Bool → SocketEvent
  updates : Bool → SocketEvent
  says : List ℕ → SocketEvent
  closes : SocketEvent
  other : SocketEvent

-- `supervisor.stop_sharing`, whose result is not looked at.
stop_asked : Bool → Inner → List Action → List Action
unfolding is_ready
stop_asked takes_commands inner rest =
    if is_ready inner && takes_commands then stop_sharing ∷ rest else rest

-- The loop. A flag says whether the snapshot of a tick or an update could be sent.
pub socket_loop : Bool → Inner → List SocketEvent → List Action
unfolding stop_asked
socket_loop takes_commands inner [] = []
socket_loop takes_commands inner (ticks sent ∷ events) =
    let rest = socket_loop takes_commands inner events in if sent then rest else []
socket_loop takes_commands inner (updates sent ∷ events) =
    let rest = socket_loop takes_commands inner events in if sent then rest else []
socket_loop takes_commands inner (says message ∷ events) =
    let rest = socket_loop takes_commands inner events in
    if contains (codes "stop") message then stop_asked takes_commands inner rest else rest
socket_loop takes_commands inner (closes ∷ events) = []
socket_loop takes_commands inner (other ∷ events) = socket_loop takes_commands inner events

-- `accepted` is whether the handshake and the first snapshot went through.
unfoldable pub handle_websocket : Bool → Bool → Inner → List SocketEvent → Outcome
unfolding socket_loop
handle_websocket takes_commands accepted inner events = record {
  answer = none;
  inner = inner;
  actions = if accepted then socket_loop takes_commands inner events else [];
}

-- What a request that is not an upgrade comes to.
answer_incoming : Decoders → Outside → Inner → Incoming → Outcome
unfolding route_request
answer_incoming decoders out inner gone = record { answer = none; inner = inner; actions = [] }
answer_incoming decoders out inner (refused answer) = replies inner answer
answer_incoming decoders out inner (read request) = route_request decoders out request inner

unfoldable pub is_upgrade : List ℕ → Bool
is_upgrade first = contains (codes "upgrade: websocket") (to_ascii_lowercase first)

unfoldable pub handle_http :
    Decoders → Outside → Bool → List SocketEvent → List ℕ → List (List ℕ) → Inner → Outcome
unfolding answer_incoming read_request handle_websocket is_upgrade
handle_http decoders out accepted events first chunks inner =
    if length first == 0
    then record { answer = none; inner = inner; actions = [] }
    else if is_upgrade first
    then handle_websocket out.takes_commands accepted inner events
    else answer_incoming decoders out inner (read_request first chunks)
