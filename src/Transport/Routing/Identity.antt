-- ===== src/Transport/Routing/Identity.antt =====
-- Under whose identity a message reaches the control loop, and what never does.
use llrdc_casting.Transport.Routing.{
  route_control_payload, route_decoded, route_command, stamp, FloatOps, ControlCommand, start,
  Inner, client_hello, ping, clock_sync, client_diagnostic, latency_report,
}
use llrdc_casting.Prelude.{ℕ, String, List, Option, ◌≡◌, some, IfSome, none, refl}

-- A Start bears the session's own identity, a hello also its address; the other commands that are
-- for the control loop bear none; and those that the session handles itself are not among them.
unfoldable pub Identified : String → String → ControlCommand → Type 0
Identified id ip (start r) = r.connection_id ≡ some id
Identified id ip (client_hello h) = (h.connection_id ≡ some id) × (h.remote_ip ≡ some ip)
Identified id ip (ping n sent) = ⊥
Identified id ip (clock_sync offset uncertainty) = ⊥
Identified id ip (client_diagnostic level message) = ⊥
Identified id ip (latency_report sample) = ⊥
Identified id ip c = Unit

module _ (ops : FloatOps) (now received answered : ℕ) (id ip : String) where
  route_command-Identified :
      (c : ControlCommand) (inner : Inner)
      → IfSome
          (Identified id ip)
          (route_command ops now received answered id (stamp id ip c) inner).forwarded
  unfolding route_command stamp Identified
  route_command-Identified (start r) inner = refl
  route_command-Identified (client_hello h) inner = (refl, refl)
  route_command-Identified c inner = tt

  route_decoded-Identified :
      (o : Option ControlCommand) (inner : Inner)
      → IfSome (Identified id ip) (route_decoded ops now received answered id ip o inner).forwarded
  unfolding route_decoded
  route_decoded-Identified none inner = tt
  route_decoded-Identified (some c) inner = route_command-Identified c inner

  pub route_control_payload-Identified :
      (decode : List ℕ → Option ControlCommand) (payload : List ℕ) (inner : Inner)
      → IfSome
          (Identified id ip)
          (route_control_payload ops now received answered id decode ip payload inner).forwarded
  unfolding route_control_payload
  route_control_payload-Identified decode payload inner =
      route_decoded-Identified (decode payload) inner
