-- ===== src/Transport/Admission.antt =====
-- The admission of a session (src/webtransport_server.rs): the query of its path, the pairing code
-- and the cloud token. A path is a list of bytes, `peer` the text of the normalised address.
pub mod Checks
use llrdc_casting.Management.Sessions.{event}
use llrdc_casting.Prelude.Text.{codes, concat, texts, decimal}
use llrdc_casting.Prelude.Float.{FloatOps}
use llrdc_casting.CloudToken.{
  TokenError, Codecs, ConnectionTokenVerifier, invalid_format, verify, invalid_encoding,
  invalid_header, invalid_payload, unsupported_token, receiver_mismatch, expired_token,
  invalid_signature, replayed_token,
}
use llrdc_casting.Pairing.{
  Refusal, PairingData, fixed_code_malformed, validate_code, invalid_cloud_code, too_many_attempts,
  invalid_or_expired,
}
use llrdc_casting.Prelude.{
  ℕ, List, Option, Bool, String, none, some, ◌∷◌, if◌then◌else◌, ◌==◌, [], or_else, not, ◌+◌,
  is_some, ◌++◌, ◌&&◌, ◌%◌, ◌||◌, ◌^◌,
}
use llrdc_casting.Prelude.Result.{Result, ok, err}
use llrdc_casting.Management.Types.{Inner}

-- `split_once('?')`, the part after the first question mark.
unfoldable pub after_question : List ℕ → Option (List ℕ)
after_question [] = none
after_question (c ∷ cs) = if c == b'?' then some cs else after_question cs

-- `strip_prefix`.
unfoldable pub strip_prefix : List ℕ → List ℕ → Option (List ℕ)
strip_prefix [] text = some text
strip_prefix (p ∷ ps) [] = none
strip_prefix (p ∷ ps) (c ∷ cs) = let rest = strip_prefix ps cs in if p == c then rest else none

-- The pieces between ampersands, with the piece read so far.
unfoldable pub split_query : List ℕ → List ℕ → List (List ℕ)
split_query piece [] = piece ∷ []
split_query piece (c ∷ cs) =
    let here = split_query [] cs in
    let on = split_query (piece ++ (c ∷ [])) cs in if c == b'&' then piece ∷ here else on

abbrev code_prefix : List ℕ
code_prefix = codes "code="

abbrev token_prefix : List ℕ
token_prefix = codes "token="

-- The code and the token that the items give; a later item overrides an earlier one.
unfoldable pub query_items :
    List (List ℕ) → Option (List ℕ) × Option (List ℕ) → Option (List ℕ) × Option (List ℕ)
unfolding strip_prefix
query_items [] found = found
query_items (item ∷ items) (code, token) = query_items items (elim (strip_prefix code_prefix item) [
  | some value ↦ (some value, token)
  | none ↦ (code, or_else (strip_prefix token_prefix item) token)
])

unfoldable pub query_of : Option (List ℕ) → Option (List ℕ) × Option (List ℕ)
unfolding query_items split_query
query_of none = (none, none)
query_of (some query) = query_items (split_query [] query) (none, none)

unfoldable pub connection_query : List ℕ → Option (List ℕ) × Option (List ℕ)
unfolding query_of after_question
connection_query path = query_of (after_question path)

pub data Rejection : Type 0 where
  token_without_code missing_code : Rejection
  code_refused : Refusal → Rejection
  verifier_unavailable : Rejection
  token_refused : TokenError → Rejection

unfoldable pub pairing_admission : Bool → Bool → Bool → Result (Unit {0}) Rejection
pairing_admission pairing_required has_code has_token =
    if not has_code && (pairing_required || has_token)
    then err (if has_token then token_without_code else missing_code)
    else ok tt

-- What the sessions share. The verifier is there when cloud discovery is enabled and its key loads.
pub record Shared : Type 0 where
  pub pairing : PairingData
  pub verifier : Option ConnectionTokenVerifier
  pub management : Inner
  pub next_connection_id : ℕ

refusal_text : Refusal → String
refusal_text fixed_code_malformed = "fixed pairing code must be four alphanumeric characters"
refusal_text invalid_cloud_code = "invalid cloud pairing code"
refusal_text too_many_attempts = "too many pairing attempts"
refusal_text invalid_or_expired = "invalid or expired pairing code"

token_error_text : TokenError → String
token_error_text invalid_format = "invalid token format"
token_error_text invalid_encoding = "invalid token encoding"
token_error_text invalid_header = "invalid token header"
token_error_text invalid_payload = "invalid token payload"
token_error_text unsupported_token = "unsupported token"
token_error_text receiver_mismatch = "token receiver mismatch"
token_error_text expired_token = "expired token"
token_error_text invalid_signature = "invalid token signature"
token_error_text replayed_token = "replayed token"

-- Level, kind and reason of the event that a rejection leaves.
rejection_event : Rejection → String × String × String
unfolding refusal_text token_error_text
rejection_event token_without_code =
    ("warn", "security_rejected", "cloud token requires a pairing code")
rejection_event missing_code = ("warn", "security_rejected", "missing local pairing code")
rejection_event (code_refused r) = ("warn", "pairing_rejected", refusal_text r)
rejection_event verifier_unavailable = ("error", "cloud_token_rejected", "verifier_unavailable")
rejection_event (token_refused e) = ("warn", "cloud_token_rejected", token_error_text e)

-- Whether a code was given, and whether a token was.
authentication : Bool → Bool → String
authentication has_code has_token =
    if has_token then "cloud_token" else if has_code then "lan_security_code" else "direct_lan"

-- `now` is the Instant of the request in nanoseconds, `unix` the clock of the tokens in seconds.
module _ (ops : FloatOps) (codecs : Codecs) (now unix : ℕ) (peer : String) where
  reject : Rejection → Shared → Result String Rejection × Shared
  unfolding rejection_event
  reject r shared =
      let (level, kind, reason) = rejection_event r in
      (
        err r,
        record shared {
          management =
              event ops now level kind (texts ("peer=" ∷ peer ∷ " reason=" ∷ reason ∷ []))
                shared.management;
        },
      )

  unfoldable pub code_outcome :
      Shared → Result (Unit {0}) Refusal × PairingData → Result (Unit {0}) Rejection × Shared
  code_outcome shared (ok u, pairing) = (ok tt, record shared { pairing = pairing })
  code_outcome shared (err e, pairing) = (err (code_refused e), record shared { pairing = pairing })

  -- The check of the code, if there is one.
  unfoldable pub check_code : Option (List ℕ) → Shared → Result (Unit {0}) Rejection × Shared
  unfolding code_outcome
  check_code none shared = (ok tt, shared)
  check_code (some code) shared = code_outcome shared (validate_code now code peer shared.pairing)

  token_outcome :
      Shared
      → Result (Unit {0}) TokenError × ConnectionTokenVerifier
      → Result (Unit {0}) Rejection × Shared
  token_outcome shared (ok u, v) = (ok tt, record shared { verifier = some v })
  token_outcome shared (err e, v) = (err (token_refused e), record shared { verifier = some v })

  token_with :
      List ℕ → Option ConnectionTokenVerifier → Shared → Result (Unit {0}) Rejection × Shared
  unfolding token_outcome
  token_with token none shared = (err verifier_unavailable, shared)
  token_with token (some v) shared = token_outcome shared (verify codecs unix token v)

  check_offered : Option (List ℕ) → Shared → Result (Unit {0}) Rejection × Shared
  unfolding token_with
  check_offered none shared = (ok tt, shared)
  check_offered (some token) shared = token_with token shared.verifier shared

  unfoldable pub accept : String → String → Shared → Result String Rejection × Shared
  accept id auth shared = (
    ok id,
    record shared {
      management =
          event ops now "info" "connection_accepted"
            (texts ("connection=" ∷ id ∷ " peer=" ∷ peer ∷ " authentication=" ∷ auth ∷ []))
            shared.management;
    },
  )

  unfoldable pub after_token :
      String → String → Result (Unit {0}) Rejection × Shared → Result String Rejection × Shared
  unfolding accept reject
  after_token id auth (ok u, shared) = accept id auth shared
  after_token id auth (err r, shared) = reject r shared

  unfoldable pub after_code :
      String
      → String
      → Option (List ℕ)
      → Result (Unit {0}) Rejection × Shared
      → Result String Rejection × Shared
  unfolding after_token check_offered reject
  after_code id auth token (ok u, shared) = after_token id auth (check_offered token shared)
  after_code id auth token (err r, shared) = reject r shared

  unfoldable pub numbered : Shared → Shared
  numbered shared = record shared { next_connection_id = (shared.next_connection_id + 1) % 2 ^ 64 }

  unfoldable pub after_admission :
      Result (Unit {0}) Rejection
      → Option (List ℕ)
      → Option (List ℕ)
      → Shared
      → Result String Rejection × Shared
  unfolding after_code check_code authentication numbered reject
  after_admission (err r) code token shared = reject r shared
  after_admission (ok u) code token shared =
      after_code (concat "wt-" (decimal shared.next_connection_id))
        (authentication (is_some code) (is_some token)) token (check_code code (numbered shared))

  -- A request with this path: the identifier of its connection, or its rejection.
  unfoldable pub open_session : Bool → List ℕ → Shared → Result String Rejection × Shared
  unfolding after_admission connection_query pairing_admission
  open_session pairing_required path shared =
      let (code, token) = connection_query path in
      after_admission (pairing_admission pairing_required (is_some code) (is_some token)) code token
        shared
