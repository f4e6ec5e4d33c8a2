-- ===== src/Pairing/Codes.antt =====
-- Codes: what is current, what is well formed, and how long.
-- Every code that the state holds is four ASCII letters or digits, in upper case.
use llrdc_casting.Prelude.Ascii.{
  to_ascii_uppercase_idem, to_ascii_upper, length-to_ascii_uppercase, all-alphanumeric-upper,
  bytes_eq_refl,
}
use llrdc_casting.Pairing.{
  PairingData, is_valid_pairing_code, rotate_code, adopt_cloud_code, ensure_fallback_code, some,
  length, to_ascii_uppercase, map, install_code, String, Result, set_cloud_status, alphabet_at,
  unwrap_or, Refusal, set_cloud_ip, all, ok, take_snapshot, is_ascii_alphanumeric, err,
  validate_code, nanos, leb, needs_code, is_current, pairing_code_ttl_seconds,
  pairing_attempt_limit, is_some_and, attempts_of, PairingSnapshot, pairing_attempt_window,
}
use llrdc_casting.Prelude.{
  List, Option, ℕ, ◌≡◌, All, true, ◌<◌, Bool-cases, none, length-map, subst, inl, ◌+◌, ◌==◌, ◌*◌,
  ◌∷◌, inr, refl, ◌&&◌, arith, ap₂, [], sym, false, and-left, and-right, lt→ltb,
}

abbrev pub IsCode : List ℕ → Type 0
IsCode code = (is_valid_pairing_code code ≡ true) × (to_ascii_uppercase code ≡ code)

abbrev pub IsCode? : Option (List ℕ) → Type 0
IsCode? none = Unit
IsCode? (some code) = IsCode code

pub record WellFormed (d : PairingData) : Type 0 where
  pub current : IsCode? d.code
  pub fixed : IsCode? d.fixed_code

-- Four indices below 36, as the random generator draws them.
abbrev pub IsDrawn : List ℕ → Type 0
IsDrawn drawn = (length drawn ≡ 4) × All (λ i. i < 36) drawn

uppercase-IsCode :
    (raw : List ℕ)
    → is_valid_pairing_code (to_ascii_uppercase raw) ≡ true
    → IsCode (to_ascii_uppercase raw)
uppercase-IsCode raw valid = (valid, to_ascii_uppercase_idem raw)

drawn-alphanumeric :
    (drawn : List ℕ)
    → All (λ i. i < 36) drawn
    → (all is_ascii_alphanumeric (map alphabet_at drawn) ≡ true)
      × (to_ascii_uppercase (map alphabet_at drawn) ≡ map alphabet_at drawn)
drawn-alphanumeric [] h = (refl, refl)
drawn-alphanumeric (i ∷ drawn) h =
    let (valid, upper) = drawn-alphanumeric drawn h.1 in
    (rw valid (letter i h.0), ap₂ ◌∷◌ (letter_upper i h.0) upper)
  where
    letter : (i : ℕ) → i < 36 → (is_ascii_alphanumeric (alphabet_at i) && true) ≡ true
    letter i below = ground arith

    letter_upper : (i : ℕ) → i < 36 → to_ascii_upper (alphabet_at i) ≡ alphabet_at i
    letter_upper i below = ground arith

drawn-IsCode : (drawn : List ℕ) → IsDrawn drawn → IsCode (map alphabet_at drawn)
unfolding is_valid_pairing_code
drawn-IsCode drawn h =
    let (valid, upper) = drawn-alphanumeric drawn h.1 in
    (rw (length-map drawn alphabet_at, h.0, valid), upper)

-- A code that is rotated in is well formed: the fixed one, or four drawn characters.
pub rotate_code-IsCode :
    (now : ℕ) (env : Option ℕ) (drawn : List ℕ) (d : PairingData)
    → IsDrawn drawn
    → WellFormed d
    → IsCode (rotate_code now env drawn d).0 × WellFormed (rotate_code now env drawn d).1
unfolding rotate_code install_code
rotate_code-IsCode now env drawn d h w = go d.fixed_code refl
  where
    go :
        (o : Option (List ℕ))
        → d.fixed_code ≡ o
        → IsCode (unwrap_or d.fixed_code (map alphabet_at drawn))
          × WellFormed (rotate_code now env drawn d).1
    go none e =
        let code = drawn-IsCode drawn h in
        (rw e code, record { current = rw e code; fixed = w.fixed })
    go (some c) e =
        let code : IsCode c = subst IsCode? e w.fixed in
        (rw e code, record { current = rw e code; fixed = w.fixed })

-- One event of the state's life.
pub data Event : Type 0 where
  rotates : ℕ → Option ℕ → (drawn : List ℕ) → IsDrawn drawn → Event
  ticks : ℕ → Option ℕ → (drawn : List ℕ) → IsDrawn drawn → Event
  adopts : ℕ → List ℕ → ℕ → Event
  sets_status : String → Event
  sets_ip : Option String → Event
  snapshots : ℕ → Event
  validates : ℕ → List ℕ → String → Event

-- An adoption that is refused leaves the state.
abbrev or_same : PairingData → Result PairingData Refusal → PairingData
or_same d (ok d') = d'
or_same d (err e) = d

pub step : Event → PairingData → PairingData
step (rotates now env drawn h) d = (rotate_code now env drawn d).1
step (ticks now env drawn h) d = ensure_fallback_code now env drawn d
step (adopts now raw valid_for) d = or_same d (adopt_cloud_code now raw valid_for d)
step (sets_status status) d = set_cloud_status status d
step (sets_ip ip) d = set_cloud_ip ip d
step (snapshots now) d = (take_snapshot now d).1
step (validates now code peer) d = (validate_code now code peer d).1

adopt-WellFormed :
    (now : ℕ) (raw : List ℕ) (valid_for : ℕ) (d : PairingData)
    → WellFormed d
    → WellFormed (or_same d (adopt_cloud_code now raw valid_for d))
unfolding adopt_cloud_code install_code
adopt-WellFormed now raw valid_for d w =
    elim (Bool-cases (is_valid_pairing_code (to_ascii_uppercase raw))) [
      | inl valid ↦ elim (Bool-cases (valid_for == 0)) [
        | inl none_left ↦ rw (valid, none_left) w
        | inr some_left ↦
            rw (valid, some_left)
              (record { current = (valid, to_ascii_uppercase_idem raw); fixed = w.fixed })
      ]
      | inr malformed ↦ rw malformed w
    ]

-- An attempt changes nothing but the record of attempts.
pub validate_code-keeps :
    (now : ℕ) (code : List ℕ) (peer : String) (d : PairingData)
    → ((validate_code now code peer d).1.snapshot ≡ d.snapshot)
      × ((validate_code now code peer d).1.fixed_code ≡ d.fixed_code)
      × ((validate_code now code peer d).1.expires_at ≡ d.expires_at)
unfolding validate_code
validate_code-keeps now code peer d =
    elim (Bool-cases (leb pairing_attempt_limit (attempts_of now peer d).0)) [
      | inl locked ↦ rw locked (refl, refl, refl)
      | inr open' ↦ elim (Bool-cases (is_current now code d)) [
        | inl good ↦ rw (open', good) (refl, refl, refl)
        | inr bad ↦ rw (open', bad) (refl, refl, refl)
      ]
    ]

-- Every operation keeps the codes of the state well formed.
pub step-WellFormed : (e : Event) (d : PairingData) → WellFormed d → WellFormed (step e d)
unfolding step ensure_fallback_code set_cloud_status set_cloud_ip take_snapshot validate_code
step-WellFormed (rotates now env drawn h) d w = (rotate_code-IsCode now env drawn d h w).1
step-WellFormed (ticks now env drawn h) d w = elim (Bool-cases (needs_code now d)) [
  | inl needed ↦ rw needed (rotate_code-IsCode now env drawn d h w).1
  | inr kept ↦ rw kept w
]
step-WellFormed (adopts now raw valid_for) d w = adopt-WellFormed now raw valid_for d w
step-WellFormed (sets_status status) d w = record { current = w.current; fixed = w.fixed }
step-WellFormed (sets_ip ip) d w = record { current = w.current; fixed = w.fixed }
step-WellFormed (snapshots now) d w =
    elim (Bool-cases (is_some_and d.expires_at (λ t. leb t now))) [
      | inl over ↦ rw over (record { current = tt; fixed = w.fixed })
      | inr live ↦ rw live w
    ]
step-WellFormed (validates now code peer) d w =
    let same = validate_code-keeps now code peer d in
    record {
      current = subst (λ (p : PairingSnapshot). IsCode? p.code) (sym same.0) w.current;
      fixed = subst IsCode? (sym same.1) w.fixed;
    }

validate-install :
    (code typed : List ℕ) (expires later : ℕ) (peer : String) (d : PairingData)
    → IsCode code
    → to_ascii_uppercase typed ≡ code
    → later < expires
    → (validate_code later typed peer (install_code code expires d)).0 ≡ ok tt
unfolding validate_code is_current attempts_of install_code is_valid_pairing_code
validate-install code typed expires later peer d c spelled before_end =
    let size : (length typed == 4) ≡ true =
      rw (sym (length-to_ascii_uppercase typed), spelled)
        (and-left (length code == 4) (all is_ascii_alphanumeric code) c.0) in
    let letters : all is_ascii_alphanumeric typed ≡ true =
      all-alphanumeric-upper typed
        (rw spelled (and-right (length code == 4) (all is_ascii_alphanumeric code) c.0)) in
    rw (
      attempts_restart later,
      size,
      letters,
      c.1,
      spelled,
      bytes_eq_refl code,
      lt→ltb later expires before_end,
    )
  where
    attempts_restart : (t : ℕ) → leb (t + pairing_attempt_window) t ≡ false
    attempts_restart t = ground arith

ttl_long :
    (now : ℕ) (env : Option ℕ) (later : ℕ)
    → later < now + 3600 * nanos
    → later < now + pairing_code_ttl_seconds env * nanos
unfolding pairing_code_ttl_seconds
ttl_long now none later h = h
ttl_long now (some seconds) later h = omega arith

-- A code that is rotated in, from indices in range and in a well-formed state, admits any peer
-- whose attempt comes next and within an hour, in either case of its letters, whatever attempts
-- came before.
pub validate_code-rotate_code :
    (now : ℕ) (env : Option ℕ) (drawn : List ℕ) (d : PairingData) (later : ℕ) (peer : String)
    (typed : List ℕ)
    → IsDrawn drawn
    → WellFormed d
    → later < now + 3600 * nanos
    → to_ascii_uppercase typed ≡ (rotate_code now env drawn d).0
    → (validate_code later typed peer (rotate_code now env drawn d).1).0 ≡ ok tt
validate_code-rotate_code now env drawn d later peer typed h w before_end spelled =
    unfold rotate_code in
    validate-install (unwrap_or d.fixed_code (map alphabet_at drawn)) typed
      (now + pairing_code_ttl_seconds env * nanos) later peer d
      (rotate_code-IsCode now env drawn d h w).0 spelled (ttl_long now env later before_end)
