-- ===== src/Transport/Admission/Checks.antt =====
-- What a session that is opened has shown.
use llrdc_casting.Prelude.Result.{Result, ok, err}
use llrdc_casting.Transport.Admission.{
  open_session, Shared, connection_query, check_code, check_offered, after_admission, after_code,
  after_token, reject, pairing_admission, token_with, Rejection, FloatOps, Codecs,
  ConnectionTokenVerifier, validate_code, verify, code_outcome, token_outcome, numbered, Refusal,
  TokenError, PairingData,
}
use llrdc_casting.Prelude.{
  ℕ, String, Option, List, ◌≡◌, some, Bool, none, refl, false, is_some, true, subst,
}

-- `shared` is the state at the request, `peer` its address.
module _ (ops : FloatOps) (codecs : Codecs) (now unix : ℕ) (peer : String) where
  -- The code is there, and the pairing state accepts it.
  CodeHolds : Option (List ℕ) → Shared → Type 0
  CodeHolds none shared = ⊥
  CodeHolds (some code) shared = (validate_code now code peer shared.pairing).0 ≡ ok tt

  TokenHolds : Option (List ℕ) → Option ConnectionTokenVerifier → Type 0
  TokenHolds none verifier = Unit
  TokenHolds (some token) none = ⊥
  TokenHolds (some token) (some v) = (verify codecs unix token v).0 ≡ ok tt

  code_outcome-ok :
      (shared : Shared) (p : Result (Unit {0}) Refusal × PairingData)
      → (code_outcome ops codecs now unix peer shared p).0 ≡ ok tt
      → (p.0 ≡ ok tt)
        × ((code_outcome ops codecs now unix peer shared p).1.verifier ≡ shared.verifier)
  unfolding code_outcome
  code_outcome-ok shared (ok u, d) h = (refl, refl)
  code_outcome-ok shared (err e, d) h = cc h

  token_outcome-ok :
      (shared : Shared) (p : Result (Unit {0}) TokenError × ConnectionTokenVerifier)
      → (token_outcome ops codecs now unix peer shared p).0 ≡ ok tt
      → p.0 ≡ ok tt
  unfolding token_outcome
  token_outcome-ok shared (ok u, v) h = refl
  token_outcome-ok shared (err e, v) h = cc h

  token_with-ok :
      (token : List ℕ) (verifier : Option ConnectionTokenVerifier) (shared : Shared)
      → (token_with ops codecs now unix peer token verifier shared).0 ≡ ok tt
      → TokenHolds (some token) verifier
  unfolding token_with TokenHolds
  token_with-ok token none shared h = cc h
  token_with-ok token (some v) shared h = token_outcome-ok shared (verify codecs unix token v) h

  check_offered-ok :
      (token : Option (List ℕ)) (shared : Shared)
      → (check_offered ops codecs now unix peer token shared).0 ≡ ok tt
      → TokenHolds token shared.verifier
  unfolding check_offered TokenHolds
  check_offered-ok none shared h = tt
  check_offered-ok (some token) shared h = token_with-ok token shared.verifier shared h

  after_token-ok :
      (id auth i : String) (p : Result (Unit {0}) Rejection × Shared)
      → (after_token ops codecs now unix peer id auth p).0 ≡ ok i
      → p.0 ≡ ok tt
  unfolding after_token reject
  after_token-ok id auth i (ok u, s) h = refl
  after_token-ok id auth i (err r, s) h = cc h

  after_code-ok :
      (id auth i : String) (token : Option (List ℕ)) (p : Result (Unit {0}) Rejection × Shared)
      → (after_code ops codecs now unix peer id auth token p).0 ≡ ok i
      → (p.0 ≡ ok tt) × TokenHolds token p.1.verifier
  unfolding after_code reject
  after_code-ok id auth i token (ok u, s) h =
      (refl, check_offered-ok token s (after_token-ok id auth i _ h))
  after_code-ok id auth i token (err r, s) h = cc h

  -- What a session shows: a code that holds when one is required or a token is there, any code
  -- and any token that it names.
  pub Shown : Bool → Option (List ℕ) → Option (List ℕ) → Shared → Type 0
  Shown required none none shared = required ≡ false
  Shown required none (some token) shared = ⊥
  Shown required (some code) token shared =
      CodeHolds (some code) shared × TokenHolds token shared.verifier

  after_admission-Shown :
      (required : Bool) (code token : Option (List ℕ)) (id : String) (shared : Shared)
      → (after_admission ops codecs now unix peer
          (pairing_admission required (is_some code) (is_some token))
          code
          token
          shared).0
        ≡ ok id
      → Shown required code token shared
  unfolding after_admission Shown check_code numbered CodeHolds pairing_admission reject
  after_admission-Shown true none none id shared h = cc h
  after_admission-Shown false none none id shared h = refl
  after_admission-Shown true none (some token) id shared h = cc h
  after_admission-Shown false none (some token) id shared h = cc h
  after_admission-Shown required (some code) token id shared h =
      let (valid, token_holds) = after_code-ok _ _ id token _ h in
      let (code_holds, same) =
        code_outcome-ok (numbered ops codecs now unix peer shared)
          (validate_code now code peer shared.pairing) valid in
      (code_holds, subst (TokenHolds token) same token_holds)

  -- A session is opened only if its path names no code and no token while none is required, or
  -- names a code that the pairing state accepts and no token that the verifier does not accept.
  pub open_session-Shown :
      (required : Bool) (path : List ℕ) (id : String) (shared : Shared)
      → (open_session ops codecs now unix peer required path shared).0 ≡ ok id
      → Shown required (connection_query path).0 (connection_query path).1 shared
  unfolding open_session
  open_session-Shown required path id shared h = after_admission-Shown required _ _ id shared h
