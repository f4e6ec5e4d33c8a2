-- ===== src/OperationalLog/Recent.antt =====
-- The recent events as a view of everything that has been logged.
use llrdc_casting.OperationalLog.{
  Log, OperationalEvent, Disk, append_event, append_all, record_event, recent_events, recent_limit,
  flush_pending, admitted, summaries, live_aggregates, write_line, write_critical, length, [], Bool,
  write_pending, not, is_silent,
}
use llrdc_casting.Prelude.{
  ℕ, List, keep_last, ◌≡◌, ◌≤◌, drop, ◌++◌, ◌+◌, ◌∷◌, suc, ap, arith, zero, refl, ◌∙◌, sym, ◌-◌,
  length-drop, length-append, true, false, if_holds, append_assoc, ◌&&◌, ◌==◌,
}

-- The log shows the last events of a history that has no bound.
abbrev pub Shows : List OperationalEvent → Log → Type 0
Shows history log = log.recent ≡ keep_last recent_limit history

module _ {ℓ} {A : Type ℓ} where
  drop-append : (n : ℕ) (xs ys : List A) → n ≤ length xs → drop n (xs ++ ys) ≡ drop n xs ++ ys
  drop-append zero xs ys h = refl
  drop-append (suc n) [] ys h = absurd (omega (arith, h))
  drop-append (suc n) (x ∷ xs) ys h = drop-append n xs ys (omega (arith, h))

  drop-empty : (n : ℕ) → drop {A = A} n [] ≡ []
  drop-empty zero = refl
  drop-empty (suc n) = refl

  drop-drop : (n m : ℕ) (xs : List A) → drop n (drop m xs) ≡ drop (m + n) xs
  drop-drop n zero xs = ap (λ k. drop k xs) (omega arith)
  drop-drop n (suc m) [] = drop-empty n ∙ sym (drop-empty (suc m + n))
  drop-drop n (suc m) (x ∷ xs) = drop-drop n m xs ∙ ap (λ k. drop k (x ∷ xs)) (shifted m n)
    where
      shifted : (a b : ℕ) → suc (a + b) ≡ suc a + b
      shifted a b = omega arith

  keep_last-drop :
      (n j : ℕ) (xs : List A) → j ≤ length xs - n → keep_last n (drop j xs) ≡ keep_last n xs
  keep_last-drop n j xs h =
      drop-drop (length (drop j xs) - n) j xs
      ∙ ap (λ k. drop k xs) (omega (arith, length-drop j xs, h))

  append_empty : (xs : List A) → xs ++ [] ≡ xs
  append_empty [] = refl
  append_empty (x ∷ xs) = ap (◌∷◌ x) (append_empty xs)

  -- A bounded list that takes one more is the last part of the unbounded one.
  keep_last-push :
      (n : ℕ) (xs : List A) (x : A)
      → keep_last n (keep_last n xs ++ (x ∷ [])) ≡ keep_last n (xs ++ (x ∷ []))
  keep_last-push n xs x =
      ap (keep_last n) (sym (drop-append (length xs - n) xs (x ∷ []) (omega arith)))
      ∙ keep_last-drop n (length xs - n) (xs ++ (x ∷ [])) (omega (arith, length-append xs (x ∷ [])))

  -- Fewer of the last are the last of more.
  keep_last-keep_last :
      (n m : ℕ) (xs : List A) → n ≤ m → keep_last n (keep_last m xs) ≡ keep_last n xs
  keep_last-keep_last n m xs h = keep_last-drop n (length xs - m) xs (omega (arith, h))

module _ (encode : OperationalEvent → List ℕ) (disk : Disk) (taken : Bool) where
  flush_pending-recent : (log : Log) → (flush_pending disk log).1.recent ≡ log.recent
  unfolding flush_pending write_pending
  flush_pending-recent log =
      if_holds SameRecent (length log.pending == 0) refl (if_holds SameRecent disk.opens refl refl)
    where
      SameRecent : Bool × Log → Type 0
      SameRecent p = p.1.recent ≡ log.recent

  write_line-recent :
      (critical : Bool) (line : List ℕ) (log : Log)
      → (write_line encode disk taken critical line log).1.recent ≡ log.recent
  unfolding write_line write_critical
  write_line-recent true line log =
      if_holds SameRecent ((flush_pending disk log).0 && disk.opens && taken)
        (flush_pending-recent log) (flush_pending-recent log)
    where
      SameRecent : Bool × Log → Type 0
      SameRecent p = p.1.recent ≡ log.recent
  write_line-recent false line log = refl

  append_event-Shows :
      (critical : Bool) (e : OperationalEvent) (history : List OperationalEvent) (log : Log)
      → Shows history log
      → Shows (history ++ (e ∷ [])) (append_event encode disk taken critical e log)
  unfolding append_event
  append_event-Shows critical e history log h =
      ap (λ recent. keep_last recent_limit (recent ++ (e ∷ [])))
        (write_line-recent critical (encode e) log ∙ h)
      ∙ keep_last-push recent_limit history e

  append_all-Shows :
      (critical : Bool) (es history : List OperationalEvent) (log : Log)
      → Shows history log
      → Shows (history ++ es) (append_all encode disk taken critical es log)
  unfolding append_all
  append_all-Shows critical [] history log h =
      h ∙ ap (keep_last recent_limit) (sym (append_empty history))
  append_all-Shows critical (e ∷ es) history log h =
      append_all-Shows critical es (history ++ (e ∷ []))
        (append_event encode disk taken critical e log)
        (append_event-Shows critical e history log h)
      ∙ ap (keep_last recent_limit) (append_assoc history (e ∷ []) es)

  -- What an event adds to the history: the summaries of the windows that have ended, and the event
  -- itself unless it is only counted.
  unfoldable pub added : OperationalEvent → Log → List OperationalEvent
  added e log =
      summaries encode e.timestamp_unix_ms e.receiver_generation log.aggregates
      ++ (admitted encode e (live_aggregates encode e.timestamp_unix_ms log.aggregates)).0

  -- If the log shows the last events of a history, then after any event it shows the last of the
  -- history with what the event has added, whatever the disk answers; and a request for some of the
  -- last events, two thousand at most, is answered with those of the whole history.
  pub record_event-Shows :
      (critical : Bool) (e : OperationalEvent) (history : List OperationalEvent) (log : Log)
      (lines : ℕ)
      → Shows history log
      → lines ≤ recent_limit
      → Shows (history ++ added e log) (record_event encode disk taken critical e log)
        × (recent_events lines (record_event encode disk taken critical e log)
            ≡ keep_last lines (history ++ added e log))
  unfolding record_event added recent_events
  record_event-Shows critical e history log lines h few =
      let shown =
        append_all-Shows
          (critical
            && not (
                is_silent encode
                  (admitted encode e
                    (live_aggregates encode e.timestamp_unix_ms log.aggregates)).0))
          (added e log) history
          (record log {
            aggregates =
                (admitted encode e (live_aggregates encode e.timestamp_unix_ms log.aggregates)).1;
          })
          h in
      (
        shown,
        ap (λ n. keep_last n (record_event encode disk taken critical e log).recent)
              (omega (arith, few))
            ∙ ap (keep_last lines) shown
            ∙ keep_last-keep_last lines recent_limit (history ++ added e log) few,
      )
