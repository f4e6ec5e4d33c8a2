-- ===== src/Ipc.antt =====
-- The receiver's answers to its manager (src/receiver_ipc.rs), and their messages
-- (src/admin_protocol.rs). The JSON forms are serde's: a request is decoded or it is not.
pub mod Answers
mod Tests
use llrdc_casting.Control.{ControlCommand}
use llrdc_casting.Management.Types.{Snapshot}
use llrdc_casting.Pairing.{PairingSnapshot, PairingData, take_snapshot}
use llrdc_casting.Prelude.{ℕ, String, Bool, Option, List, none, some, if◌then◌else◌, ◌==◌}

abbrev pub protocol_version : ℕ
protocol_version = 1

pub data ReceiverRequest : Type 0 where
  ping snapshot stop_sharing : ℕ → ReceiverRequest
  shutdown : ℕ → String → ReceiverRequest
  pairing_code : ℕ → ReceiverRequest

pub version : ReceiverRequest → ℕ
version (ReceiverRequest.ping v) = v
version (ReceiverRequest.snapshot v) = v
version (ReceiverRequest.stop_sharing v) = v
version (ReceiverRequest.shutdown v reason) = v
version (ReceiverRequest.pairing_code v) = v

pub data ReceiverResponse : Type 0 where
  pong : ℕ → Bool → ReceiverResponse
  state_of : ℕ → Bool → Snapshot → PairingSnapshot → ReceiverResponse
  code_of : ℕ → List ℕ → ReceiverResponse
  acknowledged : ℕ → ReceiverResponse
  failed : ℕ → String → ReceiverResponse

-- The answer, what is sent to the control loop, and the pairing state.
pub record Answered : Type 0 where
  pub response : ReceiverResponse
  pub command : Option ControlCommand
  pub pairing : PairingData

abbrev answer : ReceiverResponse → PairingData → Answered
answer response pairing = record { response = response; command = none; pairing = pairing }

code_response : Option (List ℕ) → ReceiverResponse
code_response (some code) = ReceiverResponse.code_of protocol_version code
code_response none = ReceiverResponse.failed protocol_version "pairing_code_unavailable"

-- `management` is the management's snapshot, `ready` the receiver's flag.
module _ (now : ℕ) (ready : Bool) (management : Snapshot) where
  pub serve : ReceiverRequest → PairingData → Answered
  unfolding code_response
  serve (ReceiverRequest.ping v) pairing =
      answer (ReceiverResponse.pong protocol_version ready) pairing
  serve (ReceiverRequest.snapshot v) pairing =
      let (shown, after) = take_snapshot now pairing in
      answer (ReceiverResponse.state_of protocol_version ready management shown) after
  serve (ReceiverRequest.stop_sharing v) pairing = record {
    response = ReceiverResponse.acknowledged protocol_version;
    command = some ControlCommand.admin_stop;
    pairing = pairing;
  }
  serve (ReceiverRequest.shutdown v reason) pairing = record {
    response = ReceiverResponse.acknowledged protocol_version;
    command = some (ControlCommand.shutdown reason);
    pairing = pairing;
  }
  serve (ReceiverRequest.pairing_code v) pairing =
      let (shown, after) = take_snapshot now pairing in answer (code_response shown.code) after

  unfoldable pub handle : Option ReceiverRequest → PairingData → Answered
  unfolding serve version
  handle none pairing = answer (ReceiverResponse.failed protocol_version "invalid_request") pairing
  handle (some request) pairing =
      if version request == protocol_version
      then serve request pairing
      else answer (ReceiverResponse.failed protocol_version "unsupported_version") pairing
