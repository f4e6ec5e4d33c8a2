-- ===== src/Supervisor/Tests.antt =====
-- Runs of the supervisor from its start.
use llrdc_casting.Management.Sessions.{new_state}
use llrdc_casting.Config.{default_settings}
use llrdc_casting.Supervisor.Retries.{Tick, run_ticks, tick-lose_child}
use llrdc_casting.Supervisor.Watch.{
  ends_child, tick-ends_child, AnsweredPoll, answered_polls, last_answer,
}
use llrdc_casting.Prelude.Float.{FloatOps}
use llrdc_casting.Prelude.{
  true, some, ◌≡◌, ◌+◌, arith, none, ◌-◌, ◌*◌, refl, ltb, ◌/◌, ◌%◌, ◌^◌, ◌||◌, List, false, ◌≤◌, [],
  ◌∷◌,
}
use llrdc_casting.Supervisor.{
  Loop, initial, started, ok, is_ready, tick, seconds, running, no_snapshot, lose_child,
  PairingSnapshot, schedule_failure, backoff,
}
use llrdc_casting.Management.Estimates.{snapshot}
use llrdc_casting.Supervisor.Generations.{step, step-Sound, Sound, ticks}

-- Whole numbers in place of floats.
abbrev whole : FloatOps
whole = record {
  add = λ a b. a + b;
  sub = λ a b. a - b;
  mul = λ a b. a * b;
  div = λ a b. a / b;
  of_int = λ n. n;
  of_f32 = λ n. n;
  to_index = λ n. n;
  secs = λ n. n / 1000000000;
  one_decimal = λ n. "";
}

abbrev at_start : Loop
at_start = initial 0 (ok default_settings) default_settings (snapshot whole 0 (new_state 0))

initial-Sound : Sound at_start
unfolding initial is_ready
initial-Sound = record {
  ready = λ h. cc h;
  started_some = λ h. cc h;
  configured = λ h. refl;
  bounded = omega arith;
}

step-Sound_example : Sound (step (ticks 5 (started (some 7)) running no_snapshot) at_start)
step-Sound_example =
    step-Sound (ticks 5 (started (some 7)) running no_snapshot) at_start initial-Sound

abbrev waiting : PairingSnapshot
waiting = record {
  code = none;
  local_status = "WAITING";
  cloud_status = "DISABLED";
  cloud_ip = none;
}

abbrev with_child : Loop
with_child = record at_start { child = true }

-- A poll that is answered at 30.5 seconds, and one a second later that is missed.
abbrev answered_late : List AnsweredPoll
answered_late = (30500000000, true, snapshot whole 30500000000 (new_state 0), waiting) ∷ []

tick-ends_child_example :
    (ends_child (answered_polls answered_late with_child).1 ≡ false)
    × (ends_child
          (tick
            (seconds 31)
            (started none)
            running
            no_snapshot
            (answered_polls answered_late with_child).0).1
        ≡ (ltb (30 * 1000000000) (seconds 31 - with_child.startup_at)
            || ltb
                (10 * 1000000000)
                (seconds 31 - last_answer with_child.last_heartbeat answered_late)))
tick-ends_child_example = tick-ends_child answered_late (seconds 31) (started none) with_child refl

unset_at_start : at_start.inner.configuration_error ≡ none
unfolding initial
unset_at_start = refl

abbrev lost : Loop
lost = (lose_child (seconds 9) "gone" at_start).0

lost_waits : lost.inner.next_retry ≡ some (seconds 10)
unfolding lose_child schedule_failure backoff initial
lost_waits = refl

abbrev too_early : List Tick
too_early = (seconds 9, started none, running, no_snapshot) ∷ []

tick-lose_child_example :
    (seconds 10 ≤ seconds 9 + 30 * 1000000000)
    × (run_ticks too_early lost ≡ (lost, []))
    × ((tick (seconds 10) (started none) running no_snapshot (run_ticks too_early lost).0).0.child
        ≡ true)
    × ((tick
          (seconds 10)
          (started none)
          running
          no_snapshot
          (run_ticks too_early lost).0).0.inner.receiver_generation
        ≡ (at_start.inner.receiver_generation + 1) % 2 ^ 64)
    × ((tick
          (seconds 10)
          (started none)
          running
          no_snapshot
          (run_ticks too_early lost).0).0.inner.last_failure
        ≡ some "gone")
tick-lose_child_example =
    tick-lose_child (seconds 9) (seconds 10) (seconds 10) "gone" too_early none no_snapshot at_start
      unset_at_start lost_waits (omega arith, tt) (omega arith)
