-- ===== src/Pairing/Tests.antt =====
-- Runs of the pairing state at concrete codes.
use llrdc_casting.Pairing.Lockout.{
  wrong_guesses, answers, guesses_limited, validate_code-adopt_cloud_code,
}
use llrdc_casting.Pairing.Codes.{
  validate_code-rotate_code, IsDrawn, WellFormed, step, rotates, step-WellFormed,
}
use llrdc_casting.Pairing.{
  PairingData, rotate_code, validate_code, adopt_cloud_code, none, to_ascii_uppercase, some,
  install_code, [], ok, is_valid_pairing_code, ready_status, is_current, err, invalid_or_expired,
}
use llrdc_casting.Prelude.{ℕ, List, ◌∷◌, arith, ◌≡◌, if◌then◌else◌, refl, true, ◌≤◌}

abbrev data_none : PairingData
data_none = record {
  snapshot = record {
    code = none;
    local_status = "WAITING";
    cloud_status = "DISABLED";
    cloud_ip = none;
  };
  expires_at = none;
  failed_attempts = [];
  fixed_code = none;
  local_pairing_code_required = true;
}

abbrev drawn : List ℕ
drawn = 0 ∷ 1 ∷ 26 ∷ 35 ∷ []

abbrev typed : List ℕ
typed = b'a' ∷ b'B' ∷ b'0' ∷ b'9' ∷ []

drawn-IsDrawn : IsDrawn drawn
drawn-IsDrawn = (refl, (omega arith, (omega arith, (omega arith, (omega arith, tt)))))

data_none-WellFormed : WellFormed data_none
data_none-WellFormed = record { current = tt; fixed = tt }

spelled_as_drawn : to_ascii_uppercase typed ≡ (rotate_code 7 none drawn data_none).0
unfolding rotate_code
spelled_as_drawn = refl

validate_code-rotate_code_example :
    (validate_code 3000 typed "peer" (rotate_code 7 none drawn data_none).1).0 ≡ ok tt
validate_code-rotate_code_example =
    validate_code-rotate_code 7 none drawn data_none 3000 "peer" typed drawn-IsDrawn
      data_none-WellFormed (omega arith) spelled_as_drawn

step-WellFormed_example : WellFormed (step (rotates 7 none drawn drawn-IsDrawn) data_none)
step-WellFormed_example =
    step-WellFormed (rotates 7 none drawn drawn-IsDrawn) data_none data_none-WellFormed

guesses_limited_example :
    wrong_guesses (
      answers "peer" (("peer", 5, typed) ∷ ("other", 6, typed) ∷ ("peer", 7, drawn) ∷ []) data_none)
    ≤ 5
guesses_limited_example =
    guesses_limited "peer" 5 typed (("other", 6, typed) ∷ ("peer", 7, drawn) ∷ []) data_none refl
      (omega arith, (omega arith, tt))

abbrev locked_data : PairingData
locked_data = record data_none { failed_attempts = ("peer", (5, 10)) ∷ [] }

abbrev adopted_data : PairingData
adopted_data = record locked_data {
  snapshot = record {
    code = some (to_ascii_uppercase typed);
    local_status = "READY";
    cloud_status = "DISABLED";
    cloud_ip = none;
  };
  expires_at = some 120;
  failed_attempts = [];
}

typed_adopted : adopt_cloud_code 20 typed 100 locked_data ≡ ok adopted_data
unfolding adopt_cloud_code install_code is_valid_pairing_code ready_status
typed_adopted = refl

validate_code-adopt_cloud_code_example :
    (validate_code 30 typed "peer" adopted_data).0
    ≡ (if is_current 30 typed adopted_data then ok tt else err invalid_or_expired)
validate_code-adopt_cloud_code_example =
    validate_code-adopt_cloud_code 20 30 typed typed 100 "peer" locked_data adopted_data
      typed_adopted
