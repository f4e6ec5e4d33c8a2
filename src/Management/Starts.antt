-- ===== src/Management/Starts.antt =====
-- Which calls make an active stream: none but a start.
use llrdc_casting.Management.Types.{
  Inner, EstimatedLatencySnapshot, ActiveStream, estimated_latency_max_ms,
}
use llrdc_casting.Management.Sessions.{
  event, hello, connection_closed, owns, finish_locked, stop, touch_connection, is_connected,
  record_clock_sync, set_health, refresh_pipeline_health,
}
use llrdc_casting.Management.Metrics.{
  record_frame, record_estimated_latency, frame_of_stream, touch_sender, report_to, is_plausible,
}
use llrdc_casting.Management.Estimates.{
  record_receiver_estimated_latency, Timing, measure_on, put_stream,
}
use llrdc_casting.Management.Lifecycle.{Call, run_call}
use llrdc_casting.Management.Closing.{finished}
use llrdc_casting.Prelude.Float.{FloatOps, f64_is_finite, f64_le}
use llrdc_casting.Prelude.{
  ℕ, ◌≡◌, none, String, Bool-cases, inl, inr, Option, not, refl, is_some, ◌||◌, ◌==◌, false, some,
  ◌&&◌,
}

abbrev pub IsNoStart : Call → Type 0
IsNoStart (Call.starts config sender) = ⊥
IsNoStart _ = Unit

module _ (ops : FloatOps) (now : ℕ) where
  pub stop-none : (reason : String) (inner : Inner) → (stop ops now reason inner).1.stream ≡ none
  unfolding stop finish_locked
  stop-none reason inner = elim (Bool-cases (is_some inner.stream)) [
    | inl streaming ↦ rw streaming (finished ops now inner.stream reason inner refl)
    | inr idle ↦ rw idle (absent inner.stream idle)
  ]
    where
      absent : (o : Option ActiveStream) → is_some o ≡ false → o ≡ none
      absent none h = refl
      absent (some s) h = cc h

  closed-none :
      (id : String) (inner : Inner)
      → inner.stream ≡ none
      → (connection_closed ops now id inner).1.stream ≡ none
  unfolding connection_closed owns
  closed-none id inner e = rw e refl

  touch-none :
      (id : String) (inner : Inner)
      → inner.stream ≡ none
      → (touch_connection ops now id inner).1.stream ≡ none
  unfolding touch_connection
  touch-none id inner e = elim (Bool-cases (is_connected ops now id inner)) [
    | inl up ↦ rw up e
    | inr down ↦ rw down e
  ]

  sync-none :
      (id : String) (offset uncertainty : ℕ) (inner : Inner)
      → inner.stream ≡ none
      → (record_clock_sync ops now id offset uncertainty inner).1.stream ≡ none
  unfolding record_clock_sync
  sync-none id offset uncertainty inner e =
      elim (Bool-cases (
        not (f64_is_finite offset)
        || not (f64_is_finite uncertainty)
        || not (f64_le 0 uncertainty && f64_le uncertainty estimated_latency_max_ms))) [
          | inl bad ↦ rw bad e
          | inr good ↦ elim (Bool-cases (is_connected ops now id inner)) [
            | inl up ↦ rw (good, up) e
            | inr down ↦ rw (good, down) e
          ]
        ]

  frame-none :
      (seq bytes latency : ℕ) (inner : Inner)
      → inner.stream ≡ none
      → (record_frame ops now seq bytes latency inner).stream ≡ none
  unfolding record_frame frame_of_stream touch_sender
  frame-none seq bytes latency inner e = rw e refl

  estimated-none :
      (id : String) (sample : EstimatedLatencySnapshot) (inner : Inner)
      → inner.stream ≡ none
      → (record_estimated_latency ops now id sample inner).1.stream ≡ none
  unfolding record_estimated_latency report_to
  estimated-none id sample inner e = elim (Bool-cases (is_plausible ops now sample)) [
    | inl good ↦ rw (good, e) refl
    | inr bad ↦ rw bad e
  ]

  measured-none :
      (seq : ℕ) (t : Timing) (display_fps : ℕ) (inner : Inner)
      → inner.stream ≡ none
      → (record_receiver_estimated_latency ops now seq t display_fps inner).1.stream ≡ none
  unfolding record_receiver_estimated_latency measure_on put_stream
  measured-none seq t display_fps inner e = elim (Bool-cases (display_fps == 0 || seq == 0)) [
    | inl bad ↦ rw bad e
    | inr good ↦ rw (good, e) refl
  ]

  pub run_call-none :
      (call : Call) (inner : Inner)
      → IsNoStart call
      → inner.stream ≡ none
      → (run_call ops now call inner).stream ≡ none
  unfolding run_call event hello set_health refresh_pipeline_health
  run_call-none (Call.events level kind message) inner allowed e = e
  run_call-none (Call.hellos m) inner allowed e = e
  run_call-none (Call.closes id) inner allowed e = closed-none id inner e
  run_call-none (Call.touches id) inner allowed e = touch-none id inner e
  run_call-none (Call.starts config sender) inner allowed e = absurd allowed
  run_call-none (Call.stops reason) inner allowed e = stop-none reason inner
  run_call-none (Call.frames seq bytes latency) inner allowed e =
      frame-none seq bytes latency inner e
  run_call-none (Call.syncs id offset uncertainty) inner allowed e =
      sync-none id offset uncertainty inner e
  run_call-none (Call.measures seq t display_fps) inner allowed e =
      measured-none seq t display_fps inner e
  run_call-none (Call.sets_health h) inner allowed e = e
  run_call-none (Call.reports id sample) inner allowed e = estimated-none id sample inner e
  run_call-none (Call.refreshes playback stats) inner allowed e = e
