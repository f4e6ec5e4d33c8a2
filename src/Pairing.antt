-- ===== src/Pairing.antt =====
-- Pairing codes (src/local_pairing.rs): the rotating code, its expiry, and the attempts of each
-- peer. The Mutex is one owner at a time, so each method is a function on `PairingData`; its
-- poisoning by a panicking holder is not modelled. Times are Instants in nanoseconds.
pub mod Lockout
pub mod Codes
mod Tests
use llrdc_casting.Prelude.Text.{str_eq}
use llrdc_casting.Prelude.Ascii.{to_ascii_uppercase, eq_ignore_ascii_case, is_ascii_alphanumeric}
use llrdc_casting.Prelude.Dict.{insert, lookup}
use llrdc_casting.Prelude.Result.{Result, ok, err}
use llrdc_casting.Prelude.{
  ℕ, Option, List, Bool, String, ◌*◌, if◌then◌else◌, length, none, max, some, unwrap_or, not, ◌&&◌,
  ltb, ◌==◌, [], map, is_some, is_some_and, ◌||◌, leb, ◌+◌, all, is_none_or, ◌-◌,
}

abbrev pub nanos : ℕ
nanos = 1000000000

abbrev pub pairing_code_length : ℕ
pairing_code_length = 4

abbrev pub pairing_attempt_limit : ℕ
pairing_attempt_limit = 5

abbrev pub pairing_attempt_window : ℕ
pairing_attempt_window = 60 * nanos

-- PAIRING_CODE_TTL_SEC.
abbrev pub default_ttl_sec : ℕ
default_ttl_sec = 60 * 60

-- ABCDEFGHIJKLMNOPQRSTUVWXYZ0123456789, at an index below 36.
abbrev pub alphabet_at : ℕ → ℕ
alphabet_at i = if ltb i 26 then b'A' + i else b'0' + (i - 26)

pub record PairingSnapshot : Type 0 where
  pub code : Option (List ℕ)
  pub local_status : String
  pub cloud_status : String
  pub cloud_ip : Option String

pub record PairingData : Type 0 where
  pub snapshot : PairingSnapshot
  pub open snapshot use *
  pub expires_at : Option ℕ
  pub failed_attempts : List (String × (ℕ × ℕ))
  pub fixed_code : Option (List ℕ)
  pub local_pairing_code_required : Bool

pub data Refusal : Type 0 where
  fixed_code_malformed invalid_cloud_code too_many_attempts invalid_or_expired : Refusal

pub is_valid_pairing_code : List ℕ → Bool
is_valid_pairing_code code = length code == pairing_code_length && all is_ascii_alphanumeric code

ready_status : Bool → String
ready_status required = if required then "READY" else "DISABLED"

fresh : Option (List ℕ) → Bool → PairingData
fresh fixed required = record {
  snapshot = record {
    code = none;
    local_status = if required then "WAITING" else "DISABLED";
    cloud_status = "DISABLED";
    cloud_ip = none;
  };
  expires_at = none;
  failed_attempts = [];
  fixed_code = fixed;
  local_pairing_code_required = required;
}

unfoldable pub with_fixed_code : Option (List ℕ) → Bool → Result PairingData Refusal
unfolding fresh is_valid_pairing_code
with_fixed_code none required = ok (fresh none required)
with_fixed_code (some value) required =
    let code = to_ascii_uppercase value in
    if is_valid_pairing_code code then ok (fresh (some code) required) else err fixed_code_malformed

-- The environment's PAIRING_CODE_TTL_SEC, if it parses, and never below the default.
pub pairing_code_ttl_seconds : Option ℕ → ℕ
pairing_code_ttl_seconds env = max (unwrap_or env default_ttl_sec) default_ttl_sec

-- The shared end of `rotate_code` and `adopt_cloud_code`.
install_code : List ℕ → ℕ → PairingData → PairingData
unfolding ready_status
install_code code expires d = record d {
  snapshot = record d.snapshot {
    code = some code;
    local_status = ready_status d.local_pairing_code_required;
  };
  expires_at = some expires;
  failed_attempts = [];
}

-- `drawn` are the four random indices, `env` the environment's time to live.
unfoldable pub rotate_code : ℕ → Option ℕ → List ℕ → PairingData → List ℕ × PairingData
unfolding install_code pairing_code_ttl_seconds
rotate_code now env drawn d =
    let code = unwrap_or d.fixed_code (map alphabet_at drawn) in
    (code, install_code code (now + pairing_code_ttl_seconds env * nanos) d)

pub needs_code : ℕ → PairingData → Bool
needs_code now d = not (is_some d.code) || is_none_or d.expires_at (λ t. leb t now)

unfoldable pub ensure_fallback_code : ℕ → Option ℕ → List ℕ → PairingData → PairingData
unfolding needs_code rotate_code
ensure_fallback_code now env drawn d =
    if needs_code now d then (rotate_code now env drawn d).1 else d

unfoldable pub set_cloud_status : String → PairingData → PairingData
set_cloud_status status d = record d { snapshot = record d.snapshot { cloud_status = status } }

unfoldable pub set_cloud_ip : Option String → PairingData → PairingData
set_cloud_ip ip d = record d { snapshot = record d.snapshot { cloud_ip = ip } }

unfoldable pub adopt_cloud_code : ℕ → List ℕ → ℕ → PairingData → Result PairingData Refusal
unfolding install_code is_valid_pairing_code
adopt_cloud_code now raw valid_for d =
    let code = to_ascii_uppercase raw in
    if not (is_valid_pairing_code code) || valid_for == 0
    then err invalid_cloud_code
    else ok (install_code code (now + valid_for) d)

-- `snapshot` drops an expired code from the state, and returns the state's snapshot.
unfoldable pub take_snapshot : ℕ → PairingData → PairingSnapshot × PairingData
take_snapshot now d =
    let d' =
      if is_some_and d.expires_at (λ t. leb t now)
      then record d {
        snapshot = record d.snapshot {
          code = none;
          local_status = if d.local_pairing_code_required then "EXPIRED" else "DISABLED";
        };
      }
      else d in
    (d'.snapshot, d')

pub dashboard_code : PairingData → Option (List ℕ)
dashboard_code d =
    if d.local_pairing_code_required || not (str_eq d.cloud_status "DISABLED") then d.code else none

-- Whether the code is the current one, and the current one is still valid.
pub is_current : ℕ → List ℕ → PairingData → Bool
unfolding is_valid_pairing_code
is_current now code d =
    is_valid_pairing_code code
    && is_some_and d.code (λ expected. eq_ignore_ascii_case expected code)
    && is_some_and d.expires_at (λ t. ltb now t)

-- The peer's failures and the start of their window, after a window that has passed is restarted.
pub attempts_of : ℕ → String → PairingData → ℕ × ℕ
attempts_of now peer d =
    let found = unwrap_or (lookup peer d.failed_attempts) (0, now) in
    if leb (found.1 + pairing_attempt_window) now then (0, now) else found

abbrev record_attempts : String → ℕ × ℕ → PairingData → PairingData
record_attempts peer attempts d = record d {
  failed_attempts = insert peer attempts d.failed_attempts;
}

unfoldable pub validate_code :
    ℕ → List ℕ → String → PairingData → Result (Unit {0}) Refusal × PairingData
unfolding is_current attempts_of
validate_code now code peer d =
    let attempts = attempts_of now peer d in
    if leb pairing_attempt_limit attempts.0
    then (err too_many_attempts, record_attempts peer attempts d)
    else if not (is_current now code d)
    then (err invalid_or_expired, record_attempts peer (attempts.0 + 1, attempts.1) d)
    else (ok tt, record_attempts peer attempts d)
