-- ===== src/CloudToken.antt =====
-- Connection tokens and the registration loop of cloud discovery (src/cloud_discovery.rs). A token
-- is a list of bytes. The base64 and JSON decoders and the RSA verification are third-party code,
-- the parameters of `verify`. Times of tokens are in seconds since the epoch.
pub mod Replay
mod Tests
use llrdc_casting.Prelude.Bytes.{bytes_eq}
use llrdc_casting.Prelude.Dict.{lookup, insert, delete}
use llrdc_casting.Prelude.Text.{str_eq}
use llrdc_casting.Pairing.{
  PairingData, set_cloud_status, Refusal, set_cloud_ip, adopt_cloud_code, nanos,
}
use llrdc_casting.Prelude.{
  ℕ, List, String, Option, Bool, if◌then◌else◌, ◌∷◌, some, not, retain, is_some, [], ◌++◌, ◌&&◌,
  ltb, leb, none, ◌==◌, min, length, ◌+◌, ◌*◌, ◌^◌, ◌-◌, ◌||◌,
}
use llrdc_casting.Prelude.Result.{Result, ok, err, ◌>>=◌}

abbrev pub replay_cache_limit : ℕ
replay_cache_limit = 1024

abbrev issued_at_skew_sec : ℕ
issued_at_skew_sec = 30

abbrev token_max_lifetime_sec : ℕ
token_max_lifetime_sec = 60

abbrev token_prefix : List ℕ
token_prefix = b'v' ∷ b'1' ∷ []

pub record TokenHeader : Type 0 where
  pub alg : String
  pub typ : String
  pub v : ℕ

pub record TokenPayload : Type 0 where
  pub receiver_id : String
  pub purpose : String
  pub iat : ℕ
  pub exp : ℕ
  pub jti : String

-- The tokens accepted, with their expiry.
pub record ConnectionTokenVerifier : Type 0 where
  pub receiver_id : String
  pub seen : List (String × ℕ)

pub data TokenError : Type 0 where
  invalid_format invalid_encoding invalid_header invalid_payload unsupported_token : TokenError
  receiver_mismatch expired_token invalid_signature replayed_token : TokenError

-- URL_SAFE_NO_PAD, serde_json and RSA-PSS over SHA-256 under the verifier's key: the input that is
-- signed, then the signature.
pub record Codecs : Type 0 where
  pub base64 : List ℕ → Option (List ℕ)
  pub header_json : List ℕ → Option TokenHeader
  pub payload_json : List ℕ → Option TokenPayload
  pub signature_holds : List ℕ → List ℕ → Bool

-- `split('.')`, with the piece read so far.
split_from : List ℕ → List ℕ → List (List ℕ)
split_from piece [] = piece ∷ []
split_from piece (c ∷ cs) =
    let here = split_from [] cs in
    let on = split_from (piece ++ (c ∷ [])) cs in if c == b'.' then piece ∷ here else on

abbrev required : {A : Type 0} → TokenError → Option A → Result A TokenError
required e none = err e
required e (some a) = ok a

is_supported : TokenHeader → Bool
is_supported h = str_eq h.alg "PS256" && str_eq h.typ "CAST-CONNECTION" && h.v == 1

is_addressed : ConnectionTokenVerifier → TokenPayload → Bool
is_addressed verifier p =
    str_eq p.receiver_id verifier.receiver_id && str_eq p.purpose "webtransport-connect"

-- The first entry that expires no later than all the others.
oldest : String × ℕ → List (String × ℕ) → String
oldest best [] = best.0
oldest best (e ∷ entries) = let next = if ltb e.1 best.1 then e else best in oldest next entries

pub make_room : List (String × ℕ) → List (String × ℕ)
unfolding oldest
make_room [] = []
make_room (e ∷ entries) =
    if leb replay_cache_limit (length (e ∷ entries))
    then delete (oldest e entries) (e ∷ entries)
    else e ∷ entries

module _ (codecs : Codecs) where
  header_of : List ℕ → Result TokenHeader TokenError
  header_of part = required invalid_encoding (codecs.base64 part) >>= λ bytes.
      required invalid_header (codecs.header_json bytes)

  pub payload_of : List ℕ → Result TokenPayload TokenError
  payload_of part = required invalid_encoding (codecs.base64 part) >>= λ bytes.
      required invalid_payload (codecs.payload_json bytes)

module _ (now : ℕ) where
  is_timely : TokenPayload → Bool
  is_timely p = not (
      ltb (min (now + issued_at_skew_sec) (2 ^ 64 - 1)) p.iat
      || leb p.exp now
      || leb p.exp p.iat
      || ltb token_max_lifetime_sec (p.exp - p.iat))

  pub live : List (String × ℕ) → List (String × ℕ)
  live seen = retain (λ (e : String × ℕ). ltb now e.1) seen

  admit :
      TokenPayload
      → ConnectionTokenVerifier
      → Result (Unit {0}) TokenError × ConnectionTokenVerifier
  unfolding live make_room
  admit p verifier =
      let kept = live verifier.seen in
      if is_some (lookup p.jti kept)
      then (err replayed_token, record verifier { seen = kept })
      else (ok tt, record verifier { seen = insert p.jti p.exp (make_room kept) })

module _ (codecs : Codecs) (now : ℕ) where
  -- The tests of a token whose parts are decoded, all before the cache is looked at.
  unfoldable pub check_token :
      ConnectionTokenVerifier
      → TokenHeader
      → TokenPayload
      → List ℕ
      → List ℕ
      → Result TokenPayload TokenError
  unfolding is_supported is_addressed is_timely
  check_token verifier h p input signature =
      if not (is_supported h)
      then err unsupported_token
      else if not (is_addressed verifier p)
      then err receiver_mismatch
      else if not (is_timely now p)
      then err expired_token
      else if not (codecs.signature_holds input signature)
      then err invalid_signature
      else ok p

  check_parts : ConnectionTokenVerifier → List (List ℕ) → Result TokenPayload TokenError
  unfolding header_of payload_of check_token
  check_parts verifier (prefix ∷ h ∷ p ∷ s ∷ []) =
      if not (bytes_eq prefix token_prefix)
      then err invalid_format
      else header_of codecs h >>= λ header. payload_of codecs p >>= λ payload.
          required invalid_encoding (codecs.base64 s) >>= λ signature.
          check_token verifier header payload (token_prefix ++ (b'.' ∷ h) ++ (b'.' ∷ p)) signature
  check_parts verifier _ = err invalid_format

  after_checks :
      Result TokenPayload TokenError
      → ConnectionTokenVerifier
      → Result (Unit {0}) TokenError × ConnectionTokenVerifier
  unfolding admit
  after_checks (err e) verifier = (err e, verifier)
  after_checks (ok p) verifier = admit now p verifier

  unfoldable pub verify :
      List ℕ → ConnectionTokenVerifier → Result (Unit {0}) TokenError × ConnectionTokenVerifier
  unfolding after_checks check_parts split_from
  verify token verifier = after_checks (check_parts verifier (split_from [] token)) verifier

-- One round of the registration loop.
pub data Round : Type 0 where
  -- No usable address.
  no_address : Round
  -- A successful response: the code, how long it is valid in seconds, and the address sent.
  registered : List ℕ → ℕ → String → Round
  -- A successful response whose body does not parse.
  malformed : Round
  -- A refusal, or a request that failed.
  rejected : Round

-- What a round leaves: the pairing state, the delay of the next retry, and the sleep, in seconds.
abbrev pub RoundResult : Type 0
RoundResult = PairingData × ℕ × ℕ

failed : PairingData → PairingData
failed d = set_cloud_status "FAILED" (set_cloud_ip none d)

after_adoption : Result PairingData Refusal → String → ℕ → PairingData → RoundResult
unfolding failed
after_adoption (err e) ip retry d = (failed d, retry, retry)
after_adoption (ok d') ip retry d = (set_cloud_status "READY" (set_cloud_ip (some ip) d'), 2, 45)

-- `now` is the Instant in nanoseconds at which a code is adopted.
unfoldable pub registration_round : ℕ → Round → ℕ → PairingData → RoundResult
unfolding after_adoption
registration_round now no_address retry d =
    (set_cloud_status "WAITING" (set_cloud_ip none d), retry, 5)
registration_round now (registered code valid_for ip) retry d =
    after_adoption (adopt_cloud_code now code (valid_for * nanos) d) ip retry d
registration_round now malformed retry d = (failed d, retry, retry)
registration_round now rejected retry d = (failed d, min (retry * 2) 60, retry)
