-- ===== src/Management/Lifecycle.antt =====
-- The bounds of the management state, and the life of a session.
use llrdc_casting.Management.StreamBounds.{
  BoundedStream?, length-push_back, sample_rates-Bounded, measure-Bounded, count_frame-Bounded,
  evaluate-Bounded,
}
use llrdc_casting.Management.Estimates.{
  put_stream, record_receiver_estimated_latency, Timing, measure_on, sync_of,
}
use llrdc_casting.Reassembly.Assemble.{ReassemblyStats}
use llrdc_casting.Prelude.Dict.{delete, modify}
use llrdc_casting.Management.Metrics.{
  record_frame, notify, touch_sender, frame_of_stream, stream_frame, record_estimated_latency,
  report_to, keep_estimate, is_plausible, is_accepted, newer_than, metric_of,
}
use llrdc_casting.Management.Sessions.{
  event, finish_stream, finish_locked, hello, connection_closed, claim_connection, start, stop,
  push_front, new_stream, close_record, owns, sender_of, session_of, touch_connection,
  refresh_pipeline_health, is_connected, record_clock_sync, set_health,
}
use llrdc_casting.Prelude.Float.{FloatOps, f64_le, f64_is_finite}
use llrdc_casting.Management.Types.{
  Inner, EstimatedLatencySnapshot, HealthSnapshot, estimated_latency_max_ms,
}
use llrdc_casting.Management.Types.{
  ActiveStream, ClientMetadata, max_samples, max_events, max_history, StreamConfigSnapshot,
}
use llrdc_casting.Prelude.{
  ℕ, Option, List, length, some, ◌≤◌, String, Bool-cases, none, length-take, is_some, ◌∷◌, arith,
  inl, inr, not, ◌||◌, ◌==◌, ◌&&◌,
}

pub record Bounded (inner : Inner) : Type 0 where
  pub events_le : length inner.events ≤ max_events
  pub history_le : length inner.history ≤ max_history
  pub stream_bounded : BoundedStream? inner.stream

length-push_front {ℓ} :
    {A : Type ℓ} (limit : ℕ) (x : A) (xs : List A) → length (push_front limit x xs) ≤ limit
length-push_front limit x xs = rw (length-take limit (x ∷ xs)) (omega arith)

module _ (ops : FloatOps) (now : ℕ) where
  event-Bounded :
      (level kind message : String) (inner : Inner)
      → Bounded inner
      → Bounded (event ops now level kind message inner)
  unfolding event
  event-Bounded level kind message inner b = record {
    events_le = length-push_back max_events _ inner.events;
    history_le = b.history_le;
    stream_bounded = b.stream_bounded;
  }

  finish_stream-Bounded :
      (o : Option ActiveStream) (reason : String) (inner : Inner)
      → Bounded inner
      → Bounded (finish_stream ops now o reason inner)
  unfolding finish_stream
  finish_stream-Bounded none reason inner b = b
  finish_stream-Bounded (some stream) reason inner b = record {
    events_le = b.events_le;
    history_le =
        length-push_front max_history (session_of ops now inner.started reason stream)
          inner.history;
    stream_bounded = tt;
  }

  finish_locked-Bounded :
      (reason : String) (inner : Inner)
      → Bounded inner
      → Bounded (finish_locked ops now reason inner)
  unfolding finish_locked
  finish_locked-Bounded reason inner b = finish_stream-Bounded inner.stream reason inner b

  hello-Bounded :
      (m : ClientMetadata) (inner : Inner) → Bounded inner → Bounded (hello ops now m inner)
  unfolding hello
  hello-Bounded m inner b = event-Bounded _ _ _ _ (record {
    events_le = b.events_le;
    history_le = b.history_le;
    stream_bounded = b.stream_bounded;
  })

  closed-Bounded :
      (id : String) (inner : Inner) → Bounded inner → Bounded (connection_closed ops now id inner).1
  unfolding connection_closed
  closed-Bounded id inner b = elim (Bool-cases (owns ops now id inner)) [
    | inl mine ↦ rw mine (event-Bounded _ _ _ _ (finish_locked-Bounded "disconnect" _ cleared))
    | inr other ↦ rw other (event-Bounded _ _ _ _ cleared)
  ]
    where
      cleared : Bounded (record inner {
        clock_syncs = delete id inner.clock_syncs;
        connections = modify id (close_record ops now inner) inner.connections;
      })
      cleared = record {
        events_le = b.events_le;
        history_le = b.history_le;
        stream_bounded = b.stream_bounded;
      }

  claim-Bounded :
      (sender : Option ClientMetadata) (inner : Inner)
      → Bounded inner
      → Bounded (claim_connection ops now sender inner)
  unfolding claim_connection
  claim-Bounded none inner b = b
  claim-Bounded (some sender) inner b = record {
    events_le = b.events_le;
    history_le = b.history_le;
    stream_bounded = b.stream_bounded;
  }

  start-Bounded :
      (config : StreamConfigSnapshot) (sender : Option ClientMetadata) (inner : Inner)
      → Bounded inner
      → Bounded (start ops now config sender inner)
  unfolding start new_stream
  start-Bounded config sender inner b =
      let free = finish_locked-Bounded "replaced" inner b in
      let claimed = claim-Bounded sender _ (record {
        events_le = free.events_le;
        history_le = free.history_le;
        stream_bounded = free.stream_bounded;
      }) in
      event-Bounded _ _ _ _ (record {
        events_le = claimed.events_le;
        history_le = claimed.history_le;
        stream_bounded = record {
          samples_le = omega arith;
          estimates_le = omega arith;
          latencies_le = omega arith;
        };
      })

  stop-Bounded :
      (reason : String) (inner : Inner) → Bounded inner → Bounded (stop ops now reason inner).1
  unfolding stop
  stop-Bounded reason inner b = elim (Bool-cases (is_some inner.stream)) [
    | inl streaming ↦ rw streaming (event-Bounded _ _ _ _ (finish_locked-Bounded reason inner b))
    | inr idle ↦ rw idle b
  ]

  notify-Bounded :
      (notice : Option (String × String)) (inner : Inner)
      → Bounded inner
      → Bounded (notify ops now notice inner)
  unfolding notify
  notify-Bounded none inner b = b
  notify-Bounded (some (level, message)) inner b = event-Bounded level "latency" message inner b

  touch_sender-Bounded :
      (o : Option String) (inner : Inner) → Bounded inner → Bounded (touch_sender ops now o inner)
  unfolding touch_sender
  touch_sender-Bounded none inner b = b
  touch_sender-Bounded (some id) inner b = record {
    events_le = b.events_le;
    history_le = b.history_le;
    stream_bounded = b.stream_bounded;
  }

  frame-Bounded :
      (seq bytes latency : ℕ) (o : Option ActiveStream) (inner : Inner)
      → BoundedStream? o
      → Bounded inner
      → Bounded (frame_of_stream ops now seq bytes latency o inner)
  unfolding frame_of_stream stream_frame
  frame-Bounded seq bytes latency none inner h b = b
  frame-Bounded seq bytes latency (some stream) inner h b =
      let counted =
        sample_rates-Bounded ops now _ (count_frame-Bounded ops now seq bytes latency stream h) in
      notify-Bounded (stream_frame ops now seq bytes latency stream).1
        (record inner { stream = some (stream_frame ops now seq bytes latency stream).0 })
        (record {
          events_le = b.events_le;
          history_le = b.history_le;
          stream_bounded = evaluate-Bounded ops now _ counted;
        })

  record_frame-Bounded :
      (seq bytes latency : ℕ) (inner : Inner)
      → Bounded inner
      → Bounded (record_frame ops now seq bytes latency inner)
  unfolding record_frame
  record_frame-Bounded seq bytes latency inner b =
      frame-Bounded seq bytes latency inner.stream _ b.stream_bounded
        (touch_sender-Bounded (sender_of inner.stream) inner b)

  report_to-Bounded :
      (id : String) (sample : EstimatedLatencySnapshot) (o : Option ActiveStream) (inner : Inner)
      → BoundedStream? o
      → Bounded inner
      → Bounded (report_to ops now id sample o inner).1
  unfolding report_to keep_estimate
  report_to-Bounded id sample none inner h b = b
  report_to-Bounded id sample (some stream) inner h b =
      elim (Bool-cases (is_accepted ops now id sample.seq stream)) [
        | inl taken ↦ rw taken (record {
          events_le = b.events_le;
          history_le = b.history_le;
          stream_bounded = record {
            samples_le = h.samples_le;
            latencies_le = h.latencies_le;
            estimates_le = elim (Bool-cases (newer_than sample.seq stream.estimated_latency)) [
              | inl newer ↦ rw newer (
                  length-push_back max_samples (metric_of ops now stream sample)
                    stream.estimated_latency_samples)
              | inr same ↦ rw same h.estimates_le
            ];
          };
        })
        | inr refused ↦ rw refused b
      ]

  estimated-Bounded :
      (id : String) (sample : EstimatedLatencySnapshot) (inner : Inner)
      → Bounded inner
      → Bounded (record_estimated_latency ops now id sample inner).1
  unfolding record_estimated_latency
  estimated-Bounded id sample inner b = elim (Bool-cases (is_plausible ops now sample)) [
    | inl good ↦ rw good (report_to-Bounded id sample inner.stream inner b.stream_bounded b)
    | inr bad ↦ rw bad b
  ]

  touch-Bounded :
      (id : String) (inner : Inner) → Bounded inner → Bounded (touch_connection ops now id inner).1
  unfolding touch_connection
  touch-Bounded id inner b = elim (Bool-cases (is_connected ops now id inner)) [
    | inl up ↦ rw up (record {
      events_le = b.events_le;
      history_le = b.history_le;
      stream_bounded = b.stream_bounded;
    })
    | inr down ↦ rw down b
  ]

  clock_sync-Bounded :
      (id : String) (offset uncertainty : ℕ) (inner : Inner)
      → Bounded inner
      → Bounded (record_clock_sync ops now id offset uncertainty inner).1
  unfolding record_clock_sync
  clock_sync-Bounded id offset uncertainty inner b =
      elim (Bool-cases (
        not (f64_is_finite offset)
        || not (f64_is_finite uncertainty)
        || not (f64_le 0 uncertainty && f64_le uncertainty estimated_latency_max_ms))) [
          | inl bad ↦ rw bad b
          | inr good ↦ elim (Bool-cases (is_connected ops now id inner)) [
            | inl up ↦
                rw (good, up)
                  (record {
                    events_le = b.events_le;
                    history_le = b.history_le;
                    stream_bounded = b.stream_bounded;
                  })
            | inr down ↦ rw (good, down) b
          ]
        ]

  put_stream-Bounded :
      (o : Option ActiveStream) (inner : Inner)
      → BoundedStream? o
      → Bounded inner
      → Bounded (put_stream ops now o inner).1
  unfolding put_stream
  put_stream-Bounded none inner h b = b
  put_stream-Bounded (some stream) inner h b = record {
    events_le = b.events_le;
    history_le = b.history_le;
    stream_bounded = h;
  }

  measured-Bounded :
      (seq display_fps : ℕ) (t : Timing) (inner : Inner)
      → Bounded inner
      → Bounded (record_receiver_estimated_latency ops now seq t display_fps inner).1
  unfolding record_receiver_estimated_latency
  measured-Bounded seq display_fps t inner b = elim (Bool-cases (display_fps == 0 || seq == 0)) [
    | inl bad ↦ rw bad b
    | inr good ↦ rw good (put_stream-Bounded _ inner (on inner.stream b.stream_bounded) b)
  ]
    where
      on :
          (o : Option ActiveStream)
          → BoundedStream? o
          → BoundedStream? (measure_on ops now seq display_fps t o inner)
      on none h = tt
      on (some stream) h =
          measure-Bounded ops now seq display_fps t stream (sync_of ops now stream.sender inner) h

-- One call of the state's methods, at an instant.
pub data Call : Type 0 where
  events : String → String → String → Call
  hellos : ClientMetadata → Call
  closes touches : String → Call
  starts : StreamConfigSnapshot → Option ClientMetadata → Call
  stops : String → Call
  frames : ℕ → ℕ → ℕ → Call
  syncs : String → ℕ → ℕ → Call
  measures : ℕ → Timing → ℕ → Call
  sets_health : HealthSnapshot → Call
  reports : String → EstimatedLatencySnapshot → Call
  refreshes : String → ReassemblyStats → Call

unfoldable pub run_call : FloatOps → ℕ → Call → Inner → Inner
run_call ops now (events level kind message) inner = event ops now level kind message inner
run_call ops now (hellos metadata) inner = hello ops now metadata inner
run_call ops now (closes id) inner = (connection_closed ops now id inner).1
run_call ops now (touches id) inner = (touch_connection ops now id inner).1
run_call ops now (starts config sender) inner = start ops now config sender inner
run_call ops now (stops reason) inner = (stop ops now reason inner).1
run_call ops now (frames seq bytes latency) inner = record_frame ops now seq bytes latency inner
run_call ops now (syncs id offset uncertainty) inner =
    (record_clock_sync ops now id offset uncertainty inner).1
run_call ops now (measures seq t display_fps) inner =
    (record_receiver_estimated_latency ops now seq t display_fps inner).1
run_call ops now (sets_health health) inner = set_health health inner
run_call ops now (reports id sample) inner = (record_estimated_latency ops now id sample inner).1
run_call ops now (refreshes playback stats) inner = refresh_pipeline_health playback stats inner

-- Every call keeps the state within its bounds: 2,000 events, 10,000 sessions of history, and for
-- the active stream 300 samples of rates, 300 of estimates and 10,000 latencies.
pub run_call-Bounded :
    (ops : FloatOps) (now : ℕ) (call : Call) (inner : Inner)
    → Bounded inner
    → Bounded (run_call ops now call inner)
unfolding run_call refresh_pipeline_health set_health
run_call-Bounded ops now (events level kind message) inner b =
    event-Bounded ops now level kind message inner b
run_call-Bounded ops now (hellos metadata) inner b = hello-Bounded ops now metadata inner b
run_call-Bounded ops now (closes id) inner b = closed-Bounded ops now id inner b
run_call-Bounded ops now (touches id) inner b = touch-Bounded ops now id inner b
run_call-Bounded ops now (starts config sender) inner b =
    start-Bounded ops now config sender inner b
run_call-Bounded ops now (stops reason) inner b = stop-Bounded ops now reason inner b
run_call-Bounded ops now (frames seq bytes latency) inner b =
    record_frame-Bounded ops now seq bytes latency inner b
run_call-Bounded ops now (syncs id offset uncertainty) inner b =
    clock_sync-Bounded ops now id offset uncertainty inner b
run_call-Bounded ops now (measures seq t display_fps) inner b =
    measured-Bounded ops now seq display_fps t inner b
run_call-Bounded ops now (sets_health health) inner b = record {
  events_le = b.events_le;
  history_le = b.history_le;
  stream_bounded = b.stream_bounded;
}
run_call-Bounded ops now (reports id sample) inner b = estimated-Bounded ops now id sample inner b
run_call-Bounded ops now (refreshes playback stats) inner b = record {
  events_le = b.events_le;
  history_le = b.history_le;
  stream_bounded = b.stream_bounded;
}
