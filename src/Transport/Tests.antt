-- ===== src/Transport/Tests.antt =====
-- Runs of the sessions at concrete bytes.
use llrdc_casting.Prelude.Text.{codes}
use llrdc_casting.Pairing.{PairingData, validate_code}
use llrdc_casting.Control.{ControlCommand, stop, ping}
use llrdc_casting.Management.Sessions.{new_state}
use llrdc_casting.Transport.Framing.{read_messages, write_control_message}
use llrdc_casting.Transport.Framing.RoundTrip.{read_messages-write_all}
use llrdc_casting.Transport.Admission.{
  Shared, open_session, connection_query, after_admission, query_of, after_question, query_items,
  split_query, strip_prefix, pairing_admission, after_code, after_token, check_code, code_outcome,
  numbered, accept,
}
use llrdc_casting.Transport.Admission.Checks.{open_session-Shown, Shown}
use llrdc_casting.Transport.Routing.Identity.{Identified}
use llrdc_casting.Transport.Sessions.{handle_control_stream, Reading}
use llrdc_casting.Transport.Sessions.Ends.{handle_control_stream-Identified}
use llrdc_casting.CloudToken.{Codecs}
use llrdc_casting.Prelude.Result.{ok}
use llrdc_casting.Prelude.Float.{whole}
use llrdc_casting.Prelude.{
  ℕ, List, Option, some, none, ◌∷◌, [], ◌++◌, ◌≡◌, refl, true, false, All, ◌+◌, arith,
  if◌then◌else◌, ◌==◌,
}

-- Two commands, a ping and a start, in bytes 1 and 2.
abbrev decode : List ℕ → Option ControlCommand
decode [] = none
decode (b ∷ bytes) =
    if b == 1 then some (ping (some 5) none) else if b == 2 then some stop else none

abbrev clock : ℕ → Reading
clock n = record { now = 1000 + n; received = 50; answered = 60 }

abbrev two_messages : List ℕ
two_messages = 0 ∷ 0 ∷ 0 ∷ 2 ∷ 1 ∷ 7 ∷ 0 ∷ 0 ∷ 0 ∷ 1 ∷ 2 ∷ []

read_messages-write_all_example :
    read_messages 64 (two_messages ++ (9 ∷ []))
    ≡ ((1 ∷ 7 ∷ []) ∷ (2 ∷ []) ∷ []) ++ read_messages 64 (9 ∷ [])
unfolding write_control_message
read_messages-write_all_example =
    read_messages-write_all 64 ((1 ∷ 7 ∷ []) ∷ (2 ∷ []) ∷ []) two_messages (9 ∷ [])
      ((omega arith, omega arith), ((omega arith, omega arith), tt)) refl

abbrev pairing : PairingData
pairing = record {
  snapshot = record {
    code = some (codes "AB09");
    local_status = "READY";
    cloud_status = "DISABLED";
    cloud_ip = none;
  };
  expires_at = some 120;
  failed_attempts = [];
  fixed_code = none;
  local_pairing_code_required = true;
}

abbrev shared : Shared
shared = record {
  pairing = pairing;
  verifier = none;
  management = new_state 0;
  next_connection_id = 1;
}

-- Decoders that know no token.
abbrev codecs : Codecs
codecs = record {
  base64 = λ text. none;
  header_json = λ text. none;
  payload_json = λ text. none;
  signature_holds = λ input signature. false;
}

path_admitted :
    (open_session whole codecs 100 7 "192.168.1.9" true (codes "/cast?code=ab09") shared).0
    ≡ ok "wt-1"
unfolding open_session after_admission connection_query query_of after_question query_items
    split_query strip_prefix pairing_admission after_code after_token check_code code_outcome
    validate_code numbered accept
path_admitted = refl

open_session-Shown_example :
    Shown whole codecs 100 7 "192.168.1.9" true
      (connection_query (codes "/cast?code=ab09")).0
      (connection_query (codes "/cast?code=ab09")).1
      shared
open_session-Shown_example =
    open_session-Shown whole codecs 100 7 "192.168.1.9" true (codes "/cast?code=ab09") "wt-1" shared
      path_admitted

handle_control_stream-Identified_example :
    All
      (Identified "wt-1" "192.168.1.9")
      (handle_control_stream whole decode
        (λ bytes. false)
        clock
        2000
        "wt-1"
        "192.168.1.9"
        two_messages
        (new_state 0)).commands
handle_control_stream-Identified_example =
    handle_control_stream-Identified whole decode (λ bytes. false) clock 2000 "wt-1" "192.168.1.9"
      two_messages (new_state 0)
