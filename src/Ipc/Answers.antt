-- ===== src/Ipc/Answers.antt =====
-- What a request over the socket can cause.
use llrdc_casting.Ipc.{ReceiverRequest, handle, serve, version, protocol_version, some, none}
use llrdc_casting.Ipc.ReceiverRequest.{ping, snapshot, stop_sharing, shutdown, pairing_code}
use llrdc_casting.Control.{ControlCommand}
use llrdc_casting.Management.Types.{Snapshot}
use llrdc_casting.Pairing.{PairingData}
use llrdc_casting.Prelude.{ℕ, Bool, Option, ◌≡◌, if◌then◌else◌, refl, ◌==◌, Bool-cases, inl, inr}

-- The command that a request is for, if it is for one.
abbrev pub commanded : ReceiverRequest → Option ControlCommand
commanded (stop_sharing v) = some ControlCommand.admin_stop
commanded (shutdown v reason) = some (ControlCommand.shutdown reason)
commanded _ = none

module _ (now : ℕ) (ready : Bool) (management : Snapshot) where
  serve-commanded :
      (request : ReceiverRequest) (pairing : PairingData)
      → (serve now ready management request pairing).command ≡ commanded request
  unfolding serve
  serve-commanded (ping v) pairing = refl
  serve-commanded (snapshot v) pairing = refl
  serve-commanded (stop_sharing v) pairing = refl
  serve-commanded (shutdown v reason) pairing = refl
  serve-commanded (pairing_code v) pairing = refl

  -- A line that is no request, or a request of another version, causes nothing and leaves the
  -- pairing state as it was; a request of this version sends the control loop the stop or the
  -- shutdown that it is for, and nothing if it is for neither.
  pub handle-commanded :
      (request : ReceiverRequest) (pairing : PairingData)
      → ((handle now ready management none pairing).command ≡ none)
        × ((handle now ready management none pairing).pairing ≡ pairing)
        × ((handle now ready management (some request) pairing).command
            ≡ (if version request == protocol_version then commanded request else none))
        × ((handle now ready management (some request) pairing).pairing ≡ (
            if version request == protocol_version
            then (serve now ready management request pairing).pairing
            else pairing))
  unfolding handle
  handle-commanded request pairing = elim (Bool-cases (version request == protocol_version)) [
    | inl current ↦ (refl, refl, rw current (serve-commanded request pairing), rw current refl)
    | inr other ↦ (refl, refl, rw other refl, rw other refl)
  ]
