-- ===== src/CloudToken/Tests.antt =====
-- Runs of the verifier at concrete tokens.
use llrdc_casting.CloudToken.Replay.{run, replay_refused}
use llrdc_casting.Prelude.Result.{is_ok}
use llrdc_casting.CloudToken.{
  Codecs, ConnectionTokenVerifier, verify, some, [], after_checks, check_parts, split_from,
  header_of, payload_of, check_token, is_supported, is_addressed, is_timely, admit, live, make_room,
}
use llrdc_casting.Prelude.{ℕ, List, ◌∷◌, true, ◌≡◌, false, arith, refl}

-- Decoders that know one header and one payload, and a signature that always holds.
abbrev codecs : Codecs
codecs = record {
  base64 = λ text. some text;
  header_json = λ text. some (record { alg = "PS256"; typ = "CAST-CONNECTION"; v = 1 });
  payload_json = λ text. some (record {
    receiver_id = "receiver";
    purpose = "webtransport-connect";
    iat = 100;
    exp = 150;
    jti = "one";
  });
  signature_holds = λ input signature. true;
}

abbrev token : List ℕ
token = b'v' ∷ b'1' ∷ b'.' ∷ b'h' ∷ b'.' ∷ b'p' ∷ b'.' ∷ b's' ∷ []

abbrev verifier : ConnectionTokenVerifier
verifier = record { receiver_id = "receiver"; seen = [] }

token_accepted : is_ok (verify codecs 120 token verifier).0 ≡ true
unfolding verify after_checks check_parts split_from header_of payload_of check_token is_supported
    is_addressed is_timely admit live make_room
token_accepted = refl

replay_refused_example :
    is_ok
      (verify codecs 140 token
        (run codecs ((token, 130) ∷ []) (verify codecs 120 token verifier).1)).0
    ≡ false
replay_refused_example =
    replay_refused codecs 120 140 token verifier ((token, 130) ∷ []) token_accepted (omega arith)
      (omega arith, tt)
