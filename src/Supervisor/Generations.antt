-- ===== src/Supervisor/Generations.antt =====
-- The life of the receiver process: what holds between its state, its process and the settings,
-- whatever the supervisor's loop does.
use llrdc_casting.Supervisor.Ring.{length-output_line}
use llrdc_casting.Supervisor.{
  Loop, lose_child, after_spawn, try_spawn, handle_reply, watch_child, tick, command, Spawned,
  is_ready, schedule_failure, spawn_receiver, adopt_snapshot, Wait, schedule_requested_restart,
  output_line, can_spawn, Reply, SupervisorCommand, apply_settings, restart, started,
  snapshot_reply, exited, wait_failed, ReceiverSettings, startup_deadline, ring_bytes, retry_ready,
  heartbeat_deadline, spawn_failed, after_validation, no_snapshot, running, stop_sharing, persisted,
  Result, ConfigError, err, ok, settings_eq, validate,
}
use llrdc_casting.Prelude.{
  ℕ, Bool-cases, ◌≡◌, String, true, inl, List, is_some, inr, Bool, false, ltb, ◌&&◌, length, not,
  ◌≤◌, arith, ◌-◌, refl,
}

pub record Sound (l : Loop) : Type 0 where
  -- A receiver that is called ready runs.
  pub ready : is_ready l.inner ≡ true → l.child ≡ true
  -- One that runs has a start.
  pub started_some : l.child ≡ true → is_some l.inner.receiver_started ≡ true
  -- None runs while the configuration is in error.
  pub configured : l.child ≡ true → is_some l.inner.configuration_error ≡ false
  pub bounded : length l.inner.ring ≤ ring_bytes

lose_child-Sound :
    (now : ℕ) (reason : String) (l : Loop) → Sound l → Sound (lose_child now reason l).0
unfolding lose_child schedule_failure is_ready
lose_child-Sound now reason l s = record {
  ready = λ h. h;
  started_some = λ h. cc h;
  configured = λ h. cc h;
  bounded = s.bounded;
}

can_spawn-idle :
    (now : ℕ) (l : Loop)
    → can_spawn now l ≡ true
    → (l.child ≡ false) × (is_some l.inner.configuration_error ≡ false)
unfolding can_spawn
can_spawn-idle now l can =
    split l.child (is_some l.inner.configuration_error) (retry_ready now l.inner) can
  where
    split : (a b c : Bool) → (not a && not b && c) ≡ true → (a ≡ false) × (b ≡ false)
    split a b c h = ground arith

after_spawn-Sound :
    (now : ℕ) (outcome : Spawned) (l : Loop)
    → can_spawn now l ≡ true
    → Sound l
    → Sound (after_spawn now outcome l).0
unfolding after_spawn spawn_receiver schedule_failure is_ready
after_spawn-Sound now (started pid) l can s = record {
  ready = λ h. refl;
  started_some = λ h. refl;
  configured = λ h. (can_spawn-idle now l can).1;
  bounded = s.bounded;
}
after_spawn-Sound now (spawn_failed error) l can s =
    let idle = (can_spawn-idle now l can).0 in
    record {
      ready = λ h. cc h;
      started_some = λ h. cc (h, idle);
      configured = s.configured;
      bounded = s.bounded;
    }

try_spawn-Sound :
    (now : ℕ) (outcome : Spawned) (l : Loop) → Sound l → Sound (try_spawn now outcome l).0
unfolding try_spawn
try_spawn-Sound now outcome l s = elim (Bool-cases (can_spawn now l)) [
  | inl can ↦ rw can (after_spawn-Sound now outcome l can s)
  | inr cannot ↦ rw cannot s
]

handle_reply-Sound :
    (now : ℕ) (reply : Reply) (l : Loop)
    → l.child ≡ true
    → Sound l
    → Sound (handle_reply now reply l).0
unfolding handle_reply adopt_snapshot
handle_reply-Sound now (snapshot_reply r management pairing) l runs s = record {
  ready = λ h. runs;
  started_some = s.started_some;
  configured = s.configured;
  bounded = s.bounded;
}
handle_reply-Sound now no_snapshot l runs s =
    elim (Bool-cases (ltb startup_deadline (now - l.startup_at))) [
      | inl late ↦ rw late s
      | inr early ↦ elim (Bool-cases (ltb heartbeat_deadline (now - l.last_heartbeat))) [
        | inl silent ↦ rw (early, silent) s
        | inr heard ↦ rw (early, heard) s
      ]
    ]

watch_child-Sound :
    (now : ℕ) (wait : Wait) (reply : Reply) (l : Loop)
    → l.child ≡ true
    → Sound l
    → Sound (watch_child now wait reply l).0
unfolding watch_child
watch_child-Sound now (exited reason) reply l runs s = lose_child-Sound now reason l s
watch_child-Sound now (wait_failed error) reply l runs s = lose_child-Sound now _ l s
watch_child-Sound now running reply l runs s = handle_reply-Sound now reply l runs s

tick-Sound :
    (now : ℕ) (outcome : Spawned) (wait : Wait) (reply : Reply) (l : Loop)
    → Sound l
    → Sound (tick now outcome wait reply l).0
unfolding tick
tick-Sound now outcome wait reply l s =
    let spawned = try_spawn-Sound now outcome l s in
    elim (Bool-cases (try_spawn now outcome l).0.child) [
      | inl runs ↦
          rw runs (watch_child-Sound now wait reply (try_spawn now outcome l).0 runs spawned)
      | inr rests ↦ rw rests spawned
    ]

command-Sound : (now : ℕ) (c : SupervisorCommand) (l : Loop) → Sound l → Sound (command now c l).0
unfolding command schedule_requested_restart is_ready
command-Sound now (restart reason) l s = record {
  ready = λ h. h;
  started_some = λ h. cc h;
  configured = λ h. cc h;
  bounded = s.bounded;
}
command-Sound now stop_sharing l s = s

apply_settings-Sound :
    (persist : Bool) (settings : ReceiverSettings) (l : Loop)
    → Sound l
    → Sound (record l { inner = (apply_settings persist settings l.inner).1 })
unfolding apply_settings after_validation persisted is_ready
apply_settings-Sound persist settings l s = go (validate settings) persist
  where
    go :
        (r : Result (Unit {0}) ConfigError) (persist : Bool)
        → Sound (record l { inner = (after_validation r persist settings l.inner).1 })
    go (err e) persist = s
    go (ok u) persist =
        elim (Bool-cases
          (settings_eq settings l.inner.settings && not (is_some l.inner.configuration_error))) [
            | inl same ↦ rw same s
            | inr changed ↦ rw changed (written persist)
          ]
      where
        written :
            (persist : Bool) → Sound (record l { inner = (persisted persist settings l.inner).1 })
        written false = s
        written true = record {
          ready = s.ready;
          started_some = s.started_some;
          configured = λ h. refl;
          bounded = s.bounded;
        }

pub data Event : Type 0 where
  ticks : ℕ → Spawned → Wait → Reply → Event
  commands : ℕ → SupervisorCommand → Event
  outputs : List ℕ → Event
  applies : Bool → ReceiverSettings → Event

pub step : Event → Loop → Loop
step (ticks now outcome wait reply) l = (tick now outcome wait reply l).0
step (commands now c) l = (command now c l).0
step (outputs line) l = record l { inner = output_line line l.inner }
step (applies persist settings) l = record l { inner = (apply_settings persist settings l.inner).1 }

-- Whatever happens next, the state stays sound: a receiver called ready runs, one that runs has a
-- start and a configuration without error, and the ring of output is within its limit.
pub step-Sound : (e : Event) (l : Loop) → Sound l → Sound (step e l)
unfolding step
step-Sound (ticks now outcome wait reply) l s = tick-Sound now outcome wait reply l s
step-Sound (commands now c) l s = command-Sound now c l s
step-Sound (outputs line) l s = record {
  ready = unfold output_line is_ready in s.ready;
  started_some = unfold output_line in s.started_some;
  configured = unfold output_line in s.configured;
  bounded = length-output_line line l.inner s.bounded;
}
step-Sound (applies persist settings) l s = apply_settings-Sound persist settings l s
