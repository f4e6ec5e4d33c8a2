-- ===== src/Ipc/Tests.antt =====
-- A request to the receiver at a concrete state.
use llrdc_casting.Ipc.{ReceiverRequest}
use llrdc_casting.Management.Sessions.{new_state}
use llrdc_casting.Management.Estimates.{snapshot}
use llrdc_casting.Management.Types.{Snapshot}
use llrdc_casting.Pairing.{PairingData}
use llrdc_casting.Prelude.Float.{whole}
use llrdc_casting.Prelude.Text.{codes}
use llrdc_casting.Prelude.{some, none, [], true}

abbrev pairing : PairingData
pairing = record {
  snapshot = record {
    code = some (codes "AB09");
    local_status = "READY";
    cloud_status = "DISABLED";
    cloud_ip = none;
  };
  expires_at = some 120;
  failed_attempts = [];
  fixed_code = none;
  local_pairing_code_required = true;
}

abbrev shown : Snapshot
shown = snapshot whole 5 (new_state 0)

abbrev request : ReceiverRequest
request = ReceiverRequest.shutdown 2 "update"
