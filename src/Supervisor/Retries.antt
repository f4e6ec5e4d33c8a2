-- ===== src/Supervisor/Retries.antt =====
-- Starting a lost receiver again: when its retry stands, and what the ticks until then do.
use llrdc_casting.Supervisor.{
  tick, backoff, try_spawn, Effect, can_spawn, watch_child, seconds, retry_ready, handle_reply,
  lose_child, Spawned, schedule_failure, Loop, after_spawn, spawn_receiver, running, no_snapshot,
  started, snapshot_reply, Wait, adopt_snapshot, Reply,
}
use llrdc_casting.Prelude.{
  ℕ, List, ◌≤◌, false, arith, ◌∷◌, true, ◌≡◌, String, [], Option, none, ◌+◌, is_some, ◌-◌, ◌%◌, ◌^◌,
  Bool-cases, some, inl, inr, refl, All, ◌++◌, ◌*◌, ◌<◌, lt→leb_false, le→leb, min,
}

backoff-le : (attempt : ℕ) → backoff attempt ≤ seconds 30
unfolding backoff
backoff-le attempt = ground arith

-- Ticks with what the system gave each: a spawn, the end of a child, a reply.
abbrev pub Tick : Type 0
Tick = ℕ × Spawned × Wait × Reply

unfoldable pub run_ticks : List Tick → Loop → Loop × List Effect
run_ticks [] l = (l, [])
run_ticks ((now, outcome, wait, reply) ∷ ticks) l =
    let one = tick now outcome wait reply l in
    let rest = run_ticks ticks one.0 in (rest.0, one.1 ++ rest.1)

-- What a tick does to a receiver that is down and whose retry is not due.
early_tick :
    (now retry : ℕ) (outcome : Spawned) (wait : Wait) (reply : Reply) (l : Loop)
    → l.child ≡ false
    → l.inner.next_retry ≡ some retry
    → now < retry
    → tick now outcome wait reply l ≡ (l, [])
unfolding tick try_spawn can_spawn retry_ready
early_tick now retry outcome wait reply l down waits early =
    elim (Bool-cases (is_some l.inner.configuration_error)) [
      | inl broken ↦ rw (down, broken) refl
      | inr fine ↦ rw (down, fine, waits, lt→leb_false now retry early) refl
    ]

early_ticks :
    (ticks : List Tick) (retry : ℕ) (l : Loop)
    → l.child ≡ false
    → l.inner.next_retry ≡ some retry
    → All (λ (t : Tick). t.0 < retry) ticks
    → run_ticks ticks l ≡ (l, [])
unfolding run_ticks
early_ticks [] retry l down waits early = refl
early_ticks ((now, outcome, wait, reply) ∷ ticks) retry l down waits early =
    rw (early_tick now retry outcome wait reply l down waits early.0)
      (rw (early_ticks ticks retry l down waits early.1) refl)

due_tick :
    (later retry : ℕ) (pid : Option ℕ) (reply : Reply) (l : Loop)
    → l.inner.configuration_error ≡ none
    → l.child ≡ false
    → l.inner.next_retry ≡ some retry
    → retry ≤ later
    → ((tick later (started pid) running reply l).0.child ≡ true)
      × ((tick later (started pid) running reply l).0.inner.receiver_generation
          ≡ (l.inner.receiver_generation + 1) % 2 ^ 64)
      × ((tick later (started pid) running reply l).0.inner.last_failure ≡ l.inner.last_failure)
unfolding tick try_spawn can_spawn retry_ready after_spawn spawn_receiver watch_child handle_reply
    adopt_snapshot
due_tick later retry pid (snapshot_reply ready management pairing) l fine down waits due =
    rw (down, fine, waits, le→leb retry later due) (refl, refl, refl)
due_tick later retry pid no_snapshot l fine down waits due =
    rw (down, fine, waits, le→leb retry later due) (rw (not_late later) (refl, refl, refl))
  where
    not_late : (t : ℕ) → t - t ≡ 0
    not_late t = omega arith

-- The retry of a lost receiver stands at most thirty seconds after the loss, whatever number of
-- failures came before. Ticks before it do nothing, whatever the system gives them; a tick from it
-- on whose spawn succeeds, and whose child still runs then, leaves a receiver that runs, under the
-- next generation and with the reason of its loss on record, whether it answers at once or not.
-- This is for a configuration that is not in error, and with nothing but such ticks in between.
pub tick-lose_child :
    (now retry later : ℕ) (reason : String) (early : List Tick) (pid : Option ℕ) (reply : Reply)
    (l : Loop)
    → l.inner.configuration_error ≡ none
    → (lose_child now reason l).0.inner.next_retry ≡ some retry
    → All (λ (t : Tick). t.0 < retry) early
    → retry ≤ later
    → (retry ≤ now + 30 * 1000000000)
      × (run_ticks early (lose_child now reason l).0 ≡ ((lose_child now reason l).0, []))
      × ((tick later
            (started pid)
            running
            reply
            (run_ticks early (lose_child now reason l).0).0).0.child
          ≡ true)
      × ((tick later
            (started pid)
            running
            reply
            (run_ticks early (lose_child now reason l).0).0).0.inner.receiver_generation
          ≡ (l.inner.receiver_generation + 1) % 2 ^ 64)
      × ((tick later
            (started pid)
            running
            reply
            (run_ticks early (lose_child now reason l).0).0).0.inner.last_failure
          ≡ some reason)
unfolding lose_child schedule_failure
tick-lose_child now retry later reason early pid reply l fine waits before due =
    let lost = (lose_child now reason l).0 in
    let idle = early_ticks early retry lost refl waits before in
    let (runs, generation, failure) = due_tick later retry pid reply lost fine refl waits due in
    (
      soon (backoff-le (min (l.inner.consecutive_failures + 1) (2 ^ 32 - 1))) waits,
      idle,
      rw idle runs,
      rw idle generation,
      rw idle failure,
    )
  where
    soon :
        {delay : ℕ}
        → delay ≤ seconds 30
        → some (now + delay) ≡ some retry
        → retry ≤ now + 30 * 1000000000
    soon {delay} short e = let same : now + delay ≡ retry = cc e in omega (arith, short, same)
