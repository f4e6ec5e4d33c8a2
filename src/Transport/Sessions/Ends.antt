-- ===== src/Transport/Sessions/Ends.antt =====
-- A control stream as a whole: under whose identity the commands that it sends on speak.
use llrdc_casting.Transport.Sessions.{
  handle_control_stream, first_message, route_all, close_control, Reading, push_some, greeted,
  FloatOps, read_message, max_control_message_bytes, read_messages,
}
use llrdc_casting.Transport.Routing.Identity.{Identified, route_control_payload-Identified}
use llrdc_casting.Control.{ControlCommand, stop}
use llrdc_casting.Management.Types.{Inner}
use llrdc_casting.Management.Sessions.{connection_closed}
use llrdc_casting.Prelude.{
  ℕ, List, All, false, Option, IfSome, Bool, some, String, Bool-cases, ◌∷◌, none, inl, suc, inr, [],
  if◌then◌else◌, true,
}

push_some-All {ℓ κ} :
    {A : Type ℓ} (P : A → Type κ) (o : Option A) (xs : List A)
    → IfSome P o
    → All P xs
    → All P (push_some o xs)
push_some-All P none xs h k = k
push_some-All P (some x) xs h k = (h, k)

module _ (ops : FloatOps) (decode : List ℕ → Option ControlCommand) (is_ui : List ℕ → Bool)
    (clock : ℕ → Reading) (closed_at : ℕ) (id ip : String) where
  close_control-Identified :
      (inner : Inner)
      → All (Identified id ip) (close_control ops decode is_ui clock closed_at id ip inner).commands
  unfolding close_control Identified
  close_control-Identified inner = if-All (connection_closed ops closed_at id inner).0
    where
      if-All : (b : Bool) → All (Identified id ip) (if b then stop ∷ [] else [])
      if-All true = (tt, tt)
      if-All false = tt

  route_all-Identified :
      (n : ℕ) (payloads : List (List ℕ)) (inner : Inner)
      → All
          (Identified id ip)
          (route_all ops decode is_ui clock closed_at id ip n payloads inner).commands
  unfolding route_all
  route_all-Identified n [] inner = close_control-Identified inner
  route_all-Identified n (p ∷ ps) inner =
      push_some-All (Identified id ip) _ _
        (route_control_payload-Identified ops (clock n).now (clock n).received (clock n).answered id
          ip decode p inner)
        (route_all-Identified (suc n) ps _)

  first_message-Identified :
      (o : Option (List ℕ × List ℕ)) (inner : Inner)
      → All
          (Identified id ip)
          (first_message ops decode is_ui clock closed_at id ip o inner).commands
  unfolding first_message greeted Identified
  first_message-Identified none inner = tt
  first_message-Identified (some (first, rest)) inner = elim (Bool-cases (is_ui first)) [
    | inl page ↦ rw page tt
    | inr other ↦
        rw other
          (tt, route_all-Identified 0 (first ∷ read_messages max_control_message_bytes rest) inner)
  ]

  -- Whatever bytes arrive on a control stream: each Start among the commands that it sends to the
  -- control loop bears the identity of its own session, and each hello of a client its identity and
  -- its address, whatever the bytes claim; and no ping, clock measurement, diagnostic or latency
  -- report is among them. The other commands bear no identity.
  pub handle_control_stream-Identified :
      (bytes : List ℕ) (inner : Inner)
      → All
          (Identified id ip)
          (handle_control_stream ops decode is_ui clock closed_at id ip bytes inner).commands
  unfolding handle_control_stream
  handle_control_stream-Identified bytes inner =
      first_message-Identified (read_message max_control_message_bytes bytes) inner
