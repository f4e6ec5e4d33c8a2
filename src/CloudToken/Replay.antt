-- ===== src/CloudToken/Replay.antt =====
-- Replay of connection tokens: what the cache of accepted tokens remembers.
use llrdc_casting.Prelude.Text.{eq_iff}
use llrdc_casting.Prelude.Result.{bind_ok, is_ok}
use llrdc_casting.Prelude.Dict.{lookup-insert, lookup-insert_self}
use llrdc_casting.CloudToken.{
  live, make_room, payload_of, check_token, List, Codecs, length, Result, ConnectionTokenVerifier,
  lookup, insert, TokenPayload, TokenHeader, some, ◌∷◌, TokenError, ok, ltb, err, is_timely, str_eq,
  invalid_format, is_supported, is_addressed, check_parts, admit, bytes_eq, is_some, token_prefix,
  header_of, required, invalid_encoding, verify, after_checks, split_from,
}
use llrdc_casting.Prelude.{
  ℕ, String, ◌<◌, ◌≤◌, ◌≡◌, length-retain-le, suc, Bool-cases, lt→leb_false, arith, true, [], inl,
  lt→ltb, ap, subst, inr, refl, ◌∙◌, All, false, ◌+◌, ltb→lt, All-map,
}

lookup-retain :
    (now exp : ℕ) (jti : String) (seen : List (String × ℕ))
    → now < exp
    → lookup jti seen ≡ some exp
    → lookup jti (live now seen) ≡ some exp
unfolding live
lookup-retain now exp jti [] h found = found
lookup-retain now exp jti ((j, e) ∷ seen) h found = elim (Bool-cases (str_eq j jti)) [
  | inl same ↦
      let here : e ≡ exp = cc (rw same at found) in
      let kept : ltb now e ≡ true = rw here (lt→ltb now exp h) in rw (kept, same) (ap some here)
  | inr other ↦
      let later : lookup jti seen ≡ some exp = rw other at found in
      let rest = lookup-retain now exp jti seen h later in
      elim (Bool-cases (ltb now e)) [ inl kept ↦ rw (kept, other) rest | inr gone ↦ rw gone rest ]
]

length-live-le : (now : ℕ) (seen : List (String × ℕ)) → length (live now seen) ≤ length seen
unfolding live
length-live-le now seen = length-retain-le (λ (e : String × ℕ). ltb now e.1) seen

make_room_small : (seen : List (String × ℕ)) → length seen < 1024 → make_room seen ≡ seen
unfolding make_room
make_room_small [] h = refl
make_room_small (e ∷ seen) h = rw (lt→leb_false (length (e ∷ seen)) 1024 h) refl

length-insert-le :
    (k : String) (v : ℕ) (m : List (String × ℕ)) → length (insert k v m) ≤ suc (length m)
length-insert-le k v [] = omega arith
length-insert-le k v ((j, w) ∷ m) = ground (arith, length-insert-le k v m)

is_timely-live : (now : ℕ) (p : TokenPayload) → is_timely now p ≡ true → now < p.exp
unfolding is_timely
is_timely-live now p timely = ground arith

-- The payload that the parts of a token decode to.
payload_in : Codecs → List (List ℕ) → Result TokenPayload TokenError
unfolding payload_of
payload_in codecs (prefix ∷ h ∷ p ∷ s ∷ []) = payload_of codecs p
payload_in codecs _ = err invalid_format

check_token-payload :
    (codecs : Codecs) (now : ℕ) (v : ConnectionTokenVerifier) (h : TokenHeader) (p q : TokenPayload)
    (input signature : List ℕ)
    → check_token codecs now v h p input signature ≡ ok q
    → (p ≡ q) × (now < q.exp)
unfolding check_token
check_token-payload codecs now v h p q input signature accepted =
    elim (Bool-cases (is_supported h)) [
      | inl supported ↦ elim (Bool-cases (is_addressed v p)) [
        | inl addressed ↦ elim (Bool-cases (is_timely now p)) [
          | inl timely ↦ elim (Bool-cases (codecs.signature_holds input signature)) [
            | inl signed ↦
                let same : p ≡ q = cc (rw (supported, addressed, timely, signed) at accepted) in
                (same, subst (λ (r : TokenPayload). now < r.exp) same (is_timely-live now p timely))
            | inr forged ↦ cc (rw (supported, addressed, timely, forged) at accepted)
          ]
          | inr late ↦ cc (rw (supported, addressed, late) at accepted)
        ]
        | inr elsewhere ↦ cc (rw (supported, elsewhere) at accepted)
      ]
      | inr unknown ↦ cc (rw unknown at accepted)
    ]

check_parts-payload :
    (codecs : Codecs) (now : ℕ) (v : ConnectionTokenVerifier) (parts : List (List ℕ))
    (q : TokenPayload)
    → check_parts codecs now v parts ≡ ok q
    → (payload_in codecs parts ≡ ok q) × (now < q.exp)
unfolding check_parts payload_in
check_parts-payload codecs now v (prefix ∷ h ∷ p ∷ s ∷ []) q accepted =
    elim (Bool-cases (bytes_eq prefix token_prefix)) [
      | inl known ↦
          let (header, e1, rest1) = bind_ok (header_of codecs h) _ (rw known at accepted) in
          let (payload, e2, rest2) = bind_ok (payload_of codecs p) _ rest1 in
          let (signature, e3, rest3) =
            bind_ok (required invalid_encoding (codecs.base64 s)) _ rest2 in
          let (same, before) = check_token-payload codecs now v header payload q _ _ rest3 in
          (e2 ∙ ap ok same, before)
      | inr unknown ↦ cc (rw unknown at accepted)
    ]
check_parts-payload codecs now v _ q accepted = cc accepted

-- The cache holds the identifier with its expiry.
abbrev Remembers : String → ℕ → ConnectionTokenVerifier → Type 0
Remembers jti exp v = lookup jti v.seen ≡ some exp

admit-Remembers :
    (now exp : ℕ) (jti : String) (p : TokenPayload) (v : ConnectionTokenVerifier)
    → now < exp
    → length v.seen < 1024
    → Remembers jti exp v
    → Remembers jti exp (admit now p v).1
unfolding admit
admit-Remembers now exp jti p v before room h =
    let kept = lookup-retain now exp jti v.seen before h in
    let fits : length (live now v.seen) < 1024 = omega (arith, length-live-le now v.seen, room) in
    elim (Bool-cases (is_some (lookup p.jti (live now v.seen)))) [
      | inl replayed ↦ rw replayed kept
      | inr new ↦ elim (Bool-cases (str_eq p.jti jti)) [
        | inl same ↦
            let named : p.jti ≡ jti = (eq_iff p.jti jti).0 same in cc (rw (named, kept) at new)
        | inr other ↦
            rw
              (
                new,
                make_room_small (live now v.seen) fits,
                lookup-insert p.jti jti p.exp (live now v.seen),
                other,
              )
              kept
      ]
    ]

admit-length :
    (now : ℕ) (p : TokenPayload) (v : ConnectionTokenVerifier)
    → length v.seen < 1024
    → length (admit now p v).1.seen ≤ suc (length v.seen)
unfolding admit
admit-length now p v room =
    let shorter = length-live-le now v.seen in
    elim (Bool-cases (is_some (lookup p.jti (live now v.seen)))) [
      | inl replayed ↦ rw replayed (omega (arith, shorter))
      | inr new ↦
          let fits : length (live now v.seen) < 1024 = omega (arith, shorter, room) in
          rw (new, make_room_small (live now v.seen) fits)
            (omega (arith, shorter, length-insert-le p.jti p.exp (live now v.seen)))
    ]

-- What one token may do to a cache with room: the entry that is remembered stays, and at most one
-- is added.
verify-keeps :
    (codecs : Codecs) (now exp : ℕ) (jti : String) (token : List ℕ) (v : ConnectionTokenVerifier)
    → now < exp
    → length v.seen < 1024
    → Remembers jti exp v
    → Remembers jti exp (verify codecs now token v).1
      × (length (verify codecs now token v).1.seen ≤ suc (length v.seen))
unfolding verify after_checks
verify-keeps codecs now exp jti token v before room h =
    go (check_parts codecs now v (split_from [] token))
  where
    go :
        (r : Result TokenPayload TokenError)
        → Remembers jti exp (after_checks codecs now r v).1
          × (length (after_checks codecs now r v).1.seen ≤ suc (length v.seen))
    go (err e) = (h, omega arith)
    go (ok p) = (admit-Remembers now exp jti p v before room h, admit-length now p v room)

-- The verifier after a sequence of tokens, each at its time.
pub run : Codecs → List (List ℕ × ℕ) → ConnectionTokenVerifier → ConnectionTokenVerifier
run codecs [] v = v
run codecs ((token, now) ∷ attempts) v = run codecs attempts (verify codecs now token v).1

run-Remembers :
    (codecs : Codecs) (exp : ℕ) (jti : String) (attempts : List (List ℕ × ℕ))
    (v : ConnectionTokenVerifier)
    → All (λ (a : List ℕ × ℕ). a.1 < exp) attempts
    → length v.seen + length attempts ≤ 1024
    → Remembers jti exp v
    → Remembers jti exp (run codecs attempts v)
unfolding run
run-Remembers codecs exp jti [] v before room h = h
run-Remembers codecs exp jti ((token, now) ∷ attempts) v before room h =
    let kept = verify-keeps codecs now exp jti token v before.0 (omega (arith, room)) h in
    run-Remembers codecs exp jti attempts (verify codecs now token v).1 before.1
      (omega (arith, room, kept.1)) kept.0

admitted-Remembers :
    (now : ℕ) (p : TokenPayload) (v : ConnectionTokenVerifier)
    → is_ok (admit now p v).0 ≡ true
    → Remembers p.jti p.exp (admit now p v).1
unfolding admit
admitted-Remembers now p v h = elim (Bool-cases (is_some (lookup p.jti (live now v.seen)))) [
  | inl replayed ↦ cc (rw replayed at h)
  | inr new ↦ rw new (lookup-insert_self p.jti p.exp (make_room (live now v.seen)))
]

remembered-replayed :
    (now : ℕ) (p : TokenPayload) (v : ConnectionTokenVerifier)
    → now < p.exp
    → Remembers p.jti p.exp v
    → is_ok (admit now p v).0 ≡ false
unfolding admit
remembered-replayed now p v before h = rw (lookup-retain now p.exp p.jti v.seen before h) refl

-- A token that has expired is refused.
expired-refused :
    (codecs : Codecs) (now : ℕ) (token : List ℕ) (v : ConnectionTokenVerifier) (p : TokenPayload)
    → payload_in codecs (split_from [] token) ≡ ok p
    → ltb now p.exp ≡ false
    → is_ok (verify codecs now token v).0 ≡ false
unfolding verify after_checks
expired-refused codecs now token v p carried over =
    go (check_parts codecs now v (split_from [] token)) refl
  where
    go :
        (r : Result TokenPayload TokenError)
        → check_parts codecs now v (split_from [] token) ≡ r
        → is_ok (after_checks codecs now r v).0 ≡ false
    go (err e) checked = refl
    go (ok q) checked =
        let decoded = check_parts-payload codecs now v (split_from [] token) q checked in
        let same : q ≡ p = cc (decoded.0, carried) in
        let alive : ltb now p.exp ≡ true =
          lt→ltb now p.exp (subst (λ (r : TokenPayload). now < r.exp) same decoded.1) in
        cc (alive, over)

verify-accepted :
    (codecs : Codecs) (now : ℕ) (token : List ℕ) (v : ConnectionTokenVerifier)
    → is_ok (verify codecs now token v).0 ≡ true
    → length v.seen < 1024
    → (p : TokenPayload) × (payload_in codecs (split_from [] token) ≡ ok p)
      × Remembers p.jti p.exp (verify codecs now token v).1
      × (length (verify codecs now token v).1.seen ≤ suc (length v.seen))
unfolding verify after_checks
verify-accepted codecs now token v accepted room =
    go (check_parts codecs now v (split_from [] token)) refl accepted
  where
    go :
        (r : Result TokenPayload TokenError)
        → check_parts codecs now v (split_from [] token) ≡ r
        → is_ok (after_checks codecs now r v).0 ≡ true
        → (p : TokenPayload) × (payload_in codecs (split_from [] token) ≡ ok p)
          × Remembers p.jti p.exp (after_checks codecs now r v).1
          × (length (after_checks codecs now r v).1.seen ≤ suc (length v.seen))
    go (err e) checked h = cc h
    go (ok p) checked h = (
      p,
      (check_parts-payload codecs now v (split_from [] token) p checked).0,
      admitted-Remembers now p v h,
      admit-length now p v room,
    )

-- A verifier that remembers the identifier refuses the token that carries it.
remembered-refused :
    (codecs : Codecs) (now : ℕ) (token : List ℕ) (v : ConnectionTokenVerifier) (p : TokenPayload)
    → payload_in codecs (split_from [] token) ≡ ok p
    → now < p.exp
    → Remembers p.jti p.exp v
    → is_ok (verify codecs now token v).0 ≡ false
unfolding verify after_checks
remembered-refused codecs now token v p carried before h =
    go (check_parts codecs now v (split_from [] token)) refl
  where
    go :
        (r : Result TokenPayload TokenError)
        → check_parts codecs now v (split_from [] token) ≡ r
        → is_ok (after_checks codecs now r v).0 ≡ false
    go (err e) checked = refl
    go (ok q) checked =
        let decoded = check_parts-payload codecs now v (split_from [] token) q checked in
        let same : q ≡ p = cc (decoded.0, carried) in rw same (remembered-replayed now p v before h)

-- An accepted token is not accepted again: not after any sequence of other tokens, as long as the
-- clock does not run backwards past the second use and the cache has had room for all of them, so
-- that none was evicted.
pub replay_refused :
    (codecs : Codecs) (now later : ℕ) (token : List ℕ) (v : ConnectionTokenVerifier)
    (attempts : List (List ℕ × ℕ))
    → is_ok (verify codecs now token v).0 ≡ true
    → length v.seen + length attempts < 1024
    → All (λ (a : List ℕ × ℕ). a.1 ≤ later) attempts
    → is_ok (verify codecs later token (run codecs attempts (verify codecs now token v).1)).0
      ≡ false
replay_refused codecs now later token v attempts accepted room ordered =
    let (p, carried, remembered, grown) =
      verify-accepted codecs now token v accepted (omega (arith, room)) in
    elim (Bool-cases (ltb later p.exp)) [
      | inl alive ↦
          let before = ltb→lt later p.exp alive in
          remembered-refused codecs later token _ p carried before (
            run-Remembers codecs p.exp p.jti attempts _
              (All-map (λ (a : List ℕ × ℕ). a.1 ≤ later) (λ (a : List ℕ × ℕ). a.1 < p.exp) attempts
                (λ a h. omega (arith, h, before)) ordered)
              (omega (arith, room, grown)) remembered)
      | inr over ↦ expired-refused codecs later token _ p carried over
    ]
