-- ===== src/Management/StreamBounds.antt =====
-- The bounds of the active stream: its samples of rates, of estimates and of latencies.
use llrdc_casting.Management.Estimates.{
  measure, Timing, is_measurable, raw_metric, smoothed, previous_of,
}
use llrdc_casting.Management.Metrics.{
  count_frame, sample_rates, alarm, evaluate_latency, one, is_due, window_p95, latency_budget,
  newer_than,
}
use llrdc_casting.Management.Sessions.{push_back}
use llrdc_casting.Prelude.Float.{FloatOps, f64_le, f64_lt}
use llrdc_casting.Management.Types.{ClockSyncState, estimated_latency_max_ms}
use llrdc_casting.Management.Types.{ActiveStream, max_samples}
use llrdc_casting.Prelude.{
  ℕ, Option, List, length, some, ◌≤◌, Bool-cases, none, length-keep_last, ltb, ◌++◌, ◌∷◌, arith,
  inl, [], inr, length-append, ◌-◌, ltb→lt, Bool, true, leb, min, ◌+◌, false, not, if◌then◌else◌,
}

pub record BoundedStream (stream : ActiveStream) : Type 0 where
  pub samples_le : length stream.samples ≤ max_samples
  pub estimates_le : length stream.estimated_latency_samples ≤ max_samples
  pub latencies_le : length stream.latency_samples ≤ 10000

abbrev pub BoundedStream? : Option ActiveStream → Type 0
BoundedStream? none = Unit
BoundedStream? (some stream) = BoundedStream stream

pub length-push_back {ℓ} :
    {A : Type ℓ} (limit : ℕ) (x : A) (xs : List A) → length (push_back limit x xs) ≤ limit
length-push_back limit x xs = rw (length-keep_last limit (xs ++ (x ∷ []))) (omega arith)

module _ (ops : FloatOps) (now : ℕ) where
  pub count_frame-Bounded :
      (seq bytes latency : ℕ) (stream : ActiveStream)
      → BoundedStream stream
      → BoundedStream (count_frame ops now seq bytes latency stream)
  unfolding count_frame
  count_frame-Bounded seq bytes latency stream b = record {
    samples_le = b.samples_le;
    estimates_le = b.estimates_le;
    latencies_le = elim (Bool-cases (ltb (length stream.latency_samples) 10000)) [
      | inl room ↦
          rw (room, length-append stream.latency_samples (latency ∷ []))
            (omega (arith, ltb→lt _ _ room))
      | inr full ↦ rw full b.latencies_le
    ];
  }

  pub sample_rates-Bounded :
      (stream : ActiveStream) → BoundedStream stream → BoundedStream (sample_rates ops now stream)
  unfolding sample_rates
  sample_rates-Bounded stream b =
      elim (Bool-cases (f64_le one (ops.secs (now - stream.last_sample_at)))) [
        | inl due ↦ rw due (record {
          samples_le = length-push_back max_samples _ stream.samples;
          estimates_le = b.estimates_le;
          latencies_le = b.latencies_le;
        })
        | inr early ↦ rw early b
      ]

  alarm-Bounded :
      (p95 budget : ℕ) (stream : ActiveStream)
      → BoundedStream stream
      → BoundedStream (alarm ops now p95 budget stream).0
  unfolding alarm
  alarm-Bounded p95 budget stream b = elim (Bool-cases (f64_lt budget p95)) [
    | inl over ↦ rw over (judged true 0)
    | inr under ↦ elim (Bool-cases stream.high_latency) [
      | inl high ↦ elim (Bool-cases (leb 2 (min (stream.healthy_latency_windows + 1) 255))) [
        | inl clear ↦ rw (under, high, clear) (judged false 0)
        | inr wait ↦
            rw (under, high, wait) (judged true (min (stream.healthy_latency_windows + 1) 255))
      ]
      | inr low ↦ rw (under, low) (judged false stream.healthy_latency_windows)
    ]
  ]
    where
      judged :
          (h : Bool) (w : ℕ)
          → BoundedStream (record stream { high_latency = h; healthy_latency_windows = w })
      judged h w = record {
        samples_le = b.samples_le;
        estimates_le = b.estimates_le;
        latencies_le = b.latencies_le;
      }

  pub evaluate-Bounded :
      (stream : ActiveStream)
      → BoundedStream stream
      → BoundedStream (evaluate_latency ops now stream).0
  unfolding evaluate_latency
  evaluate-Bounded stream b = elim (Bool-cases (is_due ops now stream)) [
    | inl due ↦
        let judged =
          alarm-Bounded (window_p95 ops now stream) (latency_budget ops now stream) stream b in
        rw due (record {
          samples_le = judged.samples_le;
          estimates_le = judged.estimates_le;
          latencies_le = judged.latencies_le;
        })
    | inr early ↦ rw early b
  ]

  pub measure-Bounded :
      (seq display_fps : ℕ) (t : Timing) (stream : ActiveStream) (o : Option ClockSyncState)
      → BoundedStream stream
      → BoundedStream? (measure ops now seq display_fps t stream o)
  unfolding measure
  measure-Bounded seq display_fps t stream none b = tt
  measure-Bounded seq display_fps t stream (some sync) b =
      let raw = raw_metric ops now display_fps t sync stream in
      let sample =
        smoothed ops now seq sync stream (previous_of ops now stream.estimated_latency) raw in
      let kept : ActiveStream = record stream {
        estimated_latency_samples = push_back max_samples raw stream.estimated_latency_samples;
        estimated_latency = some (now, sample);
      } in
      let good : BoundedStream kept = record {
        samples_le = b.samples_le;
        latencies_le = b.latencies_le;
        estimates_le = length-push_back max_samples raw stream.estimated_latency_samples;
      } in
      let inner_test = f64_lt estimated_latency_max_ms sample.total_ms in
      let outer_test = f64_lt estimated_latency_max_ms raw.total_ms in
      let first = chosen inner_test (some kept) good in
      let second = chosen outer_test (if inner_test then none else some kept) first in
      let third =
        chosen (not (newer_than seq stream.estimated_latency))
          (if outer_test then none else if inner_test then none else some kept) second in
      chosen (not (is_measurable ops now t sync))
        (if not (newer_than seq stream.estimated_latency)
          then none
          else if outer_test
          then none
          else if inner_test
          then none
          else some kept)
        third
    where
      chosen :
          (c : Bool) (o : Option ActiveStream)
          → BoundedStream? o
          → BoundedStream? (if c then none else o)
      chosen true o h = tt
      chosen false o h = h
