-- ===== src/OperationalLog/Floods.antt =====
-- Failures that repeat themselves.
use llrdc_casting.OperationalLog.{
  OperationalEvent, Aggregate, admitted, live_aggregates, aggregate_event, key_of, is_aggregated,
  is_expired, has_key, counted, aggregate_window, Bool, ◌∷◌, some, none, true, ltb, not,
}
use llrdc_casting.Prelude.Ascii.{bytes_eq_refl}
use llrdc_casting.Prelude.{
  ℕ, List, retain, find, update_first, ◌≡◌, ◌++◌, Bool-cases, All, [], inl, ◌<◌, subst, inr, ◌+◌,
  sym, refl, ap, ◌-◌, arith, ◌∙◌, lt→ltb, find-holds,
}

module _ {ℓ} {A : Type ℓ} (p : A → Bool) where
  find-retain :
      (q : A → Bool) (xs : List A) {a : A}
      → find p xs ≡ some a
      → q a ≡ true
      → find p (retain q xs) ≡ some a
  find-retain q [] h k = cc h
  find-retain q (x ∷ xs) {a} h k = elim (Bool-cases (p x)) [
    | inl hit ↦
        let same : x ≡ a = cc (rw hit at h) in
        let kept : q x ≡ true = subst (λ z. q z ≡ true) (sym same) k in
        rw (kept, hit) (ap some same)
    | inr miss ↦ elim (Bool-cases (q x)) [
      | inl kept ↦ rw (kept, miss) (find-retain q xs (rw miss at h) k)
      | inr gone ↦ rw gone (find-retain q xs (rw miss at h) k)
    ]
  ]

  find-retain-none : (q : A → Bool) (xs : List A) → find p xs ≡ none → find p (retain q xs) ≡ none
  find-retain-none q [] h = refl
  find-retain-none q (x ∷ xs) h = elim (Bool-cases (p x)) [
    | inl hit ↦ cc (rw hit at h)
    | inr miss ↦ elim (Bool-cases (q x)) [
      | inl kept ↦ rw (kept, miss) (find-retain-none q xs (rw miss at h))
      | inr gone ↦ rw gone (find-retain-none q xs (rw miss at h))
    ]
  ]

  find-update_first :
      (f : A → A) (xs : List A) {a : A}
      → find p xs ≡ some a
      → p (f a) ≡ true
      → find p (update_first p f xs) ≡ some (f a)
  find-update_first f [] h k = cc h
  find-update_first f (x ∷ xs) {a} h k = elim (Bool-cases (p x)) [
    | inl hit ↦
        let same : x ≡ a = cc (rw hit at h) in
        let found : p (f x) ≡ true = subst (λ z. p (f z) ≡ true) (sym same) k in
        rw (hit, found) (ap (λ z. some (f z)) same)
    | inr miss ↦ rw (miss, miss) (find-update_first f xs (rw miss at h) k)
  ]

module _ (encode : OperationalEvent → List ℕ) where
  -- What a failure that is logged at each of the times adds of itself.
  pub repeated : List ℕ → OperationalEvent → List Aggregate → List OperationalEvent
  repeated [] e ws = []
  repeated (t ∷ ts) e ws =
      (admitted encode (record e { timestamp_unix_ms = t }) (live_aggregates encode t ws)).0
      ++ repeated ts e
          (admitted encode (record e { timestamp_unix_ms = t }) (live_aggregates encode t ws)).1

  admitted-known :
      (e : OperationalEvent) (ws : List Aggregate) (a : Aggregate)
      → is_aggregated encode e.severity e.category ≡ true
      → find (has_key encode (key_of encode e)) ws ≡ some a
      → ltb (e.timestamp_unix_ms - a.started) aggregate_window ≡ true
      → admitted encode e ws
        ≡ ([], update_first (has_key encode (key_of encode e)) (counted encode) ws)
  unfolding admitted aggregate_event
  admitted-known e ws a failure found fresh = rw (failure, found, fresh) refl

  admitted-new :
      (e : OperationalEvent) (ws : List Aggregate)
      → is_aggregated encode e.severity e.category ≡ true
      → find (has_key encode (key_of encode e)) ws ≡ none
      → admitted encode e ws
        ≡ (e ∷ [], record { key = key_of encode e; started = e.timestamp_unix_ms; count = 1 } ∷ ws)
  unfolding admitted aggregate_event
  admitted-new e ws failure absent = rw (failure, absent) refl

  counted_only :
      (e : OperationalEvent) (started : ℕ) (ts : List ℕ) (ws : List Aggregate) (a : Aggregate)
      → is_aggregated encode e.severity e.category ≡ true
      → find (has_key encode (key_of encode e)) ws ≡ some a
      → a.started ≡ started
      → All (λ t. t < started + aggregate_window) ts
      → repeated ts e ws ≡ []
  unfolding repeated live_aggregates key_of
  counted_only e started [] ws a failure found same inside = refl
  counted_only e started (t ∷ ts) ws a failure found same inside =
      let in_time = inside.0 in
      let young : t - a.started < aggregate_window = omega (arith, in_time, same) in
      let live : not (is_expired encode t a) ≡ true = ground (arith, young) in
      let kept =
        find-retain (has_key encode (key_of encode e)) (λ b. not (is_expired encode t b)) ws found
          live in
      let known =
        admitted-known (record e { timestamp_unix_ms = t }) (live_aggregates encode t ws) a failure
          kept (lt→ltb (t - a.started) aggregate_window young) in
      let named = find-holds (has_key encode (key_of encode e)) ws found in
      ap (λ p. p.0 ++ repeated ts e p.1) known
      ∙ counted_only e started ts _ (counted encode a) failure
          (find-update_first (has_key encode (key_of encode e)) (counted encode)
            (live_aggregates encode t ws) kept named)
          same inside.1

  -- A failure of a kind that is aggregated, which has no window yet, is written once for a minute:
  -- however often it comes at times less than sixty seconds after the first, and whatever other
  -- windows there are, it adds its first event only.
  pub repeated_once :
      (e : OperationalEvent) (start : ℕ) (ts : List ℕ) (ws : List Aggregate)
      → is_aggregated encode e.severity e.category ≡ true
      → find (has_key encode (key_of encode e)) ws ≡ none
      → All (λ t. t < start + aggregate_window) ts
      → repeated (start ∷ ts) e ws ≡ record e { timestamp_unix_ms = start } ∷ []
  unfolding repeated live_aggregates key_of
  repeated_once e start ts ws failure absent inside =
      let new =
        admitted-new (record e { timestamp_unix_ms = start }) (live_aggregates encode start ws)
          failure
          (find-retain-none (has_key encode (key_of encode e))
            (λ b. not (is_expired encode start b)) ws absent) in
      ap (λ p. p.0 ++ repeated ts e p.1) new
      ∙ ap (◌∷◌ (record e { timestamp_unix_ms = start })) (
          counted_only e start ts _ (record { key = key_of encode e; started = start; count = 1 })
            failure (rw (bytes_eq_refl (key_of encode e)) refl) refl inside)
