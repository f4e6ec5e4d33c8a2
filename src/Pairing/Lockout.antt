-- ===== src/Pairing/Lockout.antt =====
-- Lockout of a peer that guesses: how many guesses a window admits, and what lifts the lock.
use llrdc_casting.Prelude.Dict.{lookup-insert_self, lookup-insert, insert}
use llrdc_casting.Prelude.Text.{str_eq, eq_iff, eq_refl}
use llrdc_casting.Pairing.{
  attempts_of, validate_code, PairingData, Result, adopt_cloud_code, Refusal, lookup, install_code,
  err, pairing_attempt_window, none, ok, some, is_current, record_attempts, invalid_or_expired, leb,
  is_valid_pairing_code, to_ascii_uppercase,
}
use llrdc_casting.Prelude.{
  ℕ, String, List, ◌<◌, All, ◌∷◌, ◌≡◌, ◌+◌, [], suc, ◌≤◌, if◌then◌else◌, lt→leb_false, arith,
  Bool-cases, inl, inr, false, refl, ◌==◌, subst, ◌∙◌, ◌*◌, sym,
}

-- A run of attempts, each of a peer, at its time and with its code: what one peer is answered.
pub answers : String → List (String × ℕ × List ℕ) → PairingData → List (Result (Unit {0}) Refusal)
answers peer [] d = []
answers peer ((who, now, code) ∷ attempts) d =
    let tried = validate_code now code who d in
    let rest = answers peer attempts tried.1 in if str_eq who peer then tried.0 ∷ rest else rest

-- Answers that told the peer that a code was wrong.
abbrev pub wrong_guesses : List (Result (Unit {0}) Refusal) → ℕ
wrong_guesses [] = 0
wrong_guesses (err invalid_or_expired ∷ rest) = suc (wrong_guesses rest)
wrong_guesses (_ ∷ rest) = wrong_guesses rest

within :
    (start now n : ℕ) (peer : String) (d : PairingData)
    → now < start + pairing_attempt_window
    → lookup peer d.failed_attempts ≡ some (n, start)
    → attempts_of now peer d ≡ (n, start)
unfolding attempts_of
within start now n peer d inside found =
    rw (found, lt→leb_false now (start + pairing_attempt_window) inside)

-- The attempts of one peer leave the record of another alone.
validate_code-other :
    (peer who : String) (now : ℕ) (code : List ℕ) (d : PairingData)
    → str_eq who peer ≡ false
    → lookup peer (validate_code now code who d).1.failed_attempts ≡ lookup peer d.failed_attempts
unfolding validate_code
validate_code-other peer who now code d other =
    elim (Bool-cases (leb 5 (attempts_of now who d).0)) [
      | inl locked ↦ rw locked (kept (attempts_of now who d))
      | inr open' ↦ elim (Bool-cases (is_current now code d)) [
        | inl good ↦ rw (open', good) (kept (attempts_of now who d))
        | inr bad ↦
            rw (open', bad) (kept ((attempts_of now who d).0 + 1, (attempts_of now who d).1))
      ]
    ]
  where
    kept :
        (a : ℕ × ℕ) → lookup peer (insert who a d.failed_attempts) ≡ lookup peer d.failed_attempts
    kept a = lookup-insert who peer a d.failed_attempts ∙ rw other refl

-- Times in a window that starts at `start`.
abbrev pub Within : ℕ → List (String × ℕ × List ℕ) → Type 0
Within start = All (λ (a : String × ℕ × List ℕ). a.1 < start + pairing_attempt_window)

-- One attempt of the peer in its window, when the bound holds of the attempts that follow it.
own_attempt :
    (peer : String) (start n now : ℕ) (code : List ℕ) (attempts : List (String × ℕ × List ℕ))
    (d : PairingData)
    → now < start + pairing_attempt_window
    → lookup peer d.failed_attempts ≡ some (n, start)
    → n ≤ 5
    → ((m : ℕ)
        → m ≤ 5
        → m + wrong_guesses (answers peer attempts (record_attempts peer (m, start) d)) ≤ 5)
    → n + wrong_guesses (answers peer ((peer, now, code) ∷ attempts) d) ≤ 5
unfolding answers validate_code
own_attempt peer start n now code attempts d inside found few again =
    let current = within start now n peer d inside found in
    elim (Bool-cases (leb 5 n)) [
      | inl locked ↦ rw (eq_refl peer, current, locked) (again n few)
      | inr open' ↦ elim (Bool-cases (is_current now code d)) [
        | inl good ↦ rw (eq_refl peer, current, open', good) (again n few)
        | inr bad ↦
            let below : n + 1 ≤ 5 = ground (arith, open') in
            let rest = again (n + 1) below in
            rw (eq_refl peer, current, open', bad) (omega (arith, rest))
      ]
    ]

limited_from :
    (peer : String) (start n : ℕ) (attempts : List (String × ℕ × List ℕ)) (d : PairingData)
    → Within start attempts
    → lookup peer d.failed_attempts ≡ some (n, start)
    → n ≤ 5
    → n + wrong_guesses (answers peer attempts d) ≤ 5
unfolding answers
limited_from peer start n [] d inside found few = omega (arith, few)
limited_from peer start n ((who, now, code) ∷ attempts) d inside found few =
    elim (Bool-cases (str_eq who peer)) [
      | inl own ↦
          subst (λ w. n + wrong_guesses (answers peer ((w, now, code) ∷ attempts) d) ≤ 5)
            (sym ((eq_iff who peer).0 own))
            (own_attempt peer start n now code attempts d inside.0 found few (λ m small.
              limited_from peer start m attempts (record_attempts peer (m, start) d) inside.1
                (lookup-insert_self peer (m, start) d.failed_attempts) small))
      | inr other ↦ rw other (
          limited_from peer start n attempts (validate_code now code who d).1 inside.1
            (validate_code-other peer who now code d other ∙ found) few)
    ]

-- A peer without a record is told at most five times that its code is wrong in the sixty seconds
-- from its first attempt, however many attempts it makes and whatever attempts other peers make
-- between them. This is for a window in which nothing but such attempts happens: a code that is
-- rotated or adopted meanwhile clears the record.
pub guesses_limited :
    (peer : String) (start : ℕ) (code : List ℕ) (attempts : List (String × ℕ × List ℕ))
    (d : PairingData)
    → lookup peer d.failed_attempts ≡ none
    → All (λ (a : String × ℕ × List ℕ). a.1 < start + 60 * 1000000000) attempts
    → wrong_guesses (answers peer ((peer, start, code) ∷ attempts) d) ≤ 5
unfolding answers validate_code
guesses_limited peer start code attempts d absent inside =
    elim (Bool-cases (is_current start code d)) [
      | inl good ↦
          let rest = counted 0 (omega arith) in
          rw (eq_refl peer, fresh_record, good) (omega (arith, rest))
      | inr bad ↦
          let rest = counted 1 (omega arith) in
          rw (eq_refl peer, fresh_record, bad) (omega (arith, rest))
    ]
  where
    fresh_record : attempts_of start peer d ≡ (0, start)
    fresh_record = unfold attempts_of in rw absent (ground arith)

    counted :
        (n : ℕ)
        → n ≤ 5
        → n + wrong_guesses (answers peer attempts (record_attempts peer (n, start) d)) ≤ 5
    counted n few =
        limited_from peer start n attempts (record_attempts peer (n, start) d) inside
          (lookup-insert_self peer (n, start) d.failed_attempts) few

unlocked :
    (code typed : List ℕ) (expires later : ℕ) (peer : String) (d : PairingData)
    → (validate_code later typed peer (install_code code expires d)).0 ≡ (
        if is_current later typed (install_code code expires d)
        then ok tt
        else err invalid_or_expired)
unfolding validate_code install_code attempts_of
unlocked code typed expires later peer d =
    elim (Bool-cases (is_current later typed (install_code code expires d))) [
      | inl good ↦ rw (attempts_restart later, good) refl
      | inr bad ↦ rw (attempts_restart later, bad) refl
    ]
  where
    attempts_restart : (t : ℕ) → leb (t + pairing_attempt_window) t ≡ false
    attempts_restart t = ground arith

-- A cloud code that is adopted lifts every lock at once: the next attempt of any peer is answered
-- by the code alone, whatever number of failures it had a moment before.
pub validate_code-adopt_cloud_code :
    (now later : ℕ) (raw typed : List ℕ) (valid_for : ℕ) (peer : String) (d d' : PairingData)
    → adopt_cloud_code now raw valid_for d ≡ ok d'
    → (validate_code later typed peer d').0
      ≡ (if is_current later typed d' then ok tt else err invalid_or_expired)
unfolding adopt_cloud_code
validate_code-adopt_cloud_code now later raw typed valid_for peer d d' adopted =
    elim (Bool-cases (is_valid_pairing_code (to_ascii_uppercase raw))) [
      | inl valid ↦ elim (Bool-cases (valid_for == 0)) [
        | inl none_left ↦ cc (rw (valid, none_left) at adopted)
        | inr some_left ↦
            let same : install_code (to_ascii_uppercase raw) (now + valid_for) d ≡ d' =
              cc (rw (valid, some_left) at adopted) in
            subst
              (λ (r : PairingData).
                (validate_code later typed peer r).0
                ≡ (if is_current later typed r then ok tt else err invalid_or_expired))
              same (unlocked (to_ascii_uppercase raw) typed (now + valid_for) later peer d)
      ]
      | inr malformed ↦ cc (rw malformed at adopted)
    ]
