-- ===== src/Admin/Portal/Hijack.antt =====
-- What a connection can have the manager do: a request only what its page may ask for, a WebSocket
-- to stop the sharing, whoever opened it.
use llrdc_casting.Admin.{Action, Decoders, stop_sharing}
use llrdc_casting.Admin.Portal.{
  SocketEvent, ticks, updates, says, closes, other, socket_loop, handle_websocket, handle_http,
  answer_incoming, is_upgrade, stop_asked,
}
use llrdc_casting.Admin.Reading.{Incoming, read_request, gone, refused, read}
use llrdc_casting.Admin.Routes.{Outside}
use llrdc_casting.Admin.Routes.Guarded.{Granted, route_request-Grants}
use llrdc_casting.Supervisor.{Inner, is_ready}
use llrdc_casting.Prelude.Slices.{contains}
use llrdc_casting.Prelude.Text.{codes}
use llrdc_casting.Prelude.{
  ℕ, List, [], ◌∷◌, Bool, true, false, ◌≡◌, refl, All, Bool-cases, inl, inr, length, ◌==◌,
  if◌then◌else◌, arith, ◌+◌,
}

-- The actions are those that the request, if one was read, may have done.
pub ActsFor : Decoders → Outside → Inner → Incoming → List Action → Type 0
ActsFor decoders out inner gone actions = actions ≡ []
ActsFor decoders out inner (refused answer) actions = actions ≡ []
ActsFor decoders out inner (read request) actions = All (Granted decoders out request inner) actions

module _ (decoders : Decoders) (out : Outside) (inner : Inner) where
  answer_incoming-ActsFor :
      (incoming : Incoming)
      → ActsFor decoders out inner incoming (answer_incoming decoders out inner incoming).actions
  unfolding answer_incoming ActsFor
  answer_incoming-ActsFor gone = refl
  answer_incoming-ActsFor (refused answer) = refl
  answer_incoming-ActsFor (read request) = (route_request-Grants decoders out request inner).all

  -- A connection whose first bytes ask for no WebSocket has the manager do only what its request may:
  -- the request names its host, has no origin or referrer but that host, and carries JSON; a stop of
  -- the sharing finds the receiver ready, a restart and an update are confirmed in the body, and an
  -- update finds no stream. Without a request that could be read nothing is done.
  pub handle_http-ActsFor :
      (accepted : Bool) (events : List SocketEvent) (first : List ℕ) (chunks : List (List ℕ))
      → (length first == 0) ≡ false
      → is_upgrade first ≡ false
      → ActsFor decoders out inner
          (read_request first chunks)
          (handle_http decoders out accepted events first chunks inner).actions
  unfolding handle_http
  handle_http-ActsFor accepted events first chunks some_bytes plain =
      rw (some_bytes, plain) (answer_incoming-ActsFor (read_request first chunks))

-- The texts that ask for a stop before the loop ends.
pub stops_asked : List SocketEvent → ℕ
stops_asked [] = 0
stops_asked (ticks sent ∷ events) = let rest = stops_asked events in if sent then rest else 0
stops_asked (updates sent ∷ events) = let rest = stops_asked events in if sent then rest else 0
stops_asked (says message ∷ events) =
    (if contains (codes "stop") message then 1 else 0) + stops_asked events
stops_asked (closes ∷ events) = 0
stops_asked (other ∷ events) = stops_asked events

abbrev IsStop : Action → Type 0
IsStop action = action ≡ stop_sharing

module _ (inner : Inner) (ready : is_ready inner ≡ true) where
  socket_loop-stops :
      (events : List SocketEvent)
      → (length (socket_loop true inner events) ≡ stops_asked events)
        × All IsStop (socket_loop true inner events)
  unfolding socket_loop stops_asked stop_asked
  socket_loop-stops [] = (refl, tt)
  socket_loop-stops (ticks true ∷ events) = socket_loop-stops events
  socket_loop-stops (ticks false ∷ events) = (refl, tt)
  socket_loop-stops (updates true ∷ events) = socket_loop-stops events
  socket_loop-stops (updates false ∷ events) = (refl, tt)
  socket_loop-stops (closes ∷ events) = (refl, tt)
  socket_loop-stops (other ∷ events) = socket_loop-stops events
  socket_loop-stops (says message ∷ events) =
      let (count, all) = socket_loop-stops events in
      elim (Bool-cases (contains (codes "stop") message)) [
        | inl asks ↦ rw (asks, ready) (omega (arith, count), (refl, all))
        | inr silent ↦ rw silent (omega (arith, count), all)
      ]

  -- A WebSocket that was accepted, while the receiver is ready and the supervisor takes commands, has
  -- the sharing stopped once for every text with the word stop in it before the loop ends, and nothing
  -- else done, whatever the headers of its request were.
  pub handle_http-stops :
      (decoders : Decoders) (out : Outside) (events : List SocketEvent) (first : List ℕ)
      (chunks : List (List ℕ))
      → out.takes_commands ≡ true
      → (length first == 0) ≡ false
      → is_upgrade first ≡ true
      → (length (handle_http decoders out true events first chunks inner).actions
          ≡ stops_asked events)
        × All IsStop (handle_http decoders out true events first chunks inner).actions
  unfolding handle_http handle_websocket
  handle_http-stops decoders out events first chunks takes some_bytes upgrade =
      rw (some_bytes, upgrade, takes) (socket_loop-stops events)
