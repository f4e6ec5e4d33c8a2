-- ===== src/Management/Metrics.antt =====
-- Metrics of the active stream (src/management.rs): frames, sequence gaps, bit rates, ingest
-- latency, the two sources of end-to-end latency estimates, and the snapshot for the dashboards.
use llrdc_casting.Prelude.Dict.{modify}
use llrdc_casting.Prelude.Text.{texts, str_eq}
use llrdc_casting.Management.Sessions.{percentile, event, seen, sender_of, sender_id, push_back}
use llrdc_casting.Management.Types.{
  EstimatedLatencySnapshot, eight, ActiveStream, million, Inner, LatencyMetricSample, max_samples,
  estimated_latency_max_ms, p95_quantile,
}
use llrdc_casting.Prelude.Float.{
  FloatOps, f64_is_finite, f64_le, f64_max, f64_lt, f64_abs, f64_total_le,
}
use llrdc_casting.Prelude.{
  ℕ, ◌*◌, List, Option, ◌∷◌, some, Bool, String, ◌+◌, true, false, if◌then◌else◌, map, ltb, ◌++◌,
  ◌-◌, not, is_some_and, ◌==◌, ◌%◌, retain, [], leb, ◌&&◌, none, ◌^◌, length, ◌||◌, drop_while, min,
  all, sort,
}

abbrev pub seconds : ℕ → ℕ
seconds n = n * 1000000000

-- The literals 0.25, 1.0, 2.0, 3.0, 16.7, 50.0 and 1000.0.
abbrev pub quarter : ℕ
quarter = 4598175219545276416

abbrev pub one : ℕ
one = 4607182418800017408

abbrev two : ℕ
two = 4611686018427387904

abbrev three : ℕ
three = 4613937818241073152

abbrev default_period : ℕ
default_period = 4625393849793196851

abbrev fifty : ℕ
fifty = 4632233691727265792

abbrev pub thousand : ℕ
thousand = 4652007308841189376

abbrev sum : List ℕ → ℕ
sum [] = 0
sum (n ∷ ns) = n + sum ns

abbrev pub newer_than : ℕ → Option (ℕ × EstimatedLatencySnapshot) → Bool
newer_than seq none = true
newer_than seq (some (t, previous)) = ltb previous.seq seq

abbrev pub same_as : ℕ → Option (ℕ × EstimatedLatencySnapshot) → Bool
same_as seq none = false
same_as seq (some (t, previous)) = previous.seq == seq

-- The frames missed between the last number and this one, with the wrap of `last + 1` and of
-- `seq - last - 1` on 32 bits.
unfoldable pub missed : Option ℕ → ℕ → ℕ
missed none seq = 0
missed (some l) seq = if ltb ((l + 1) % 2 ^ 32) seq then (seq + 2 ^ 33 - l - 1) % 2 ^ 32 else 0

module _ (ops : FloatOps) (now : ℕ) where
  unfoldable pub bitrate : ℕ → ℕ
  bitrate bytes = ops.div (ops.mul (ops.of_int bytes) eight) million

  unfoldable pub bytes_within : (ℕ → Bool) → List (ℕ × ℕ) → ℕ
  bytes_within inside recent =
      sum (map (λ (e : ℕ × ℕ). e.1) (retain (λ (e : ℕ × ℕ). inside e.0) recent))

  expired : ℕ → Bool
  expired t = ltb (seconds 10) (now - t)

  unfoldable pub count_frame : ℕ → ℕ → ℕ → ActiveStream → ActiveStream
  unfolding missed bitrate bytes_within expired
  count_frame seq bytes latency stream =
      let recent = stream.recent_bytes ++ ((now, bytes) ∷ []) in
      let rolling = bytes_within (λ t. leb (now - t) (seconds 1)) recent in
      record stream {
        frames = (stream.frames + 1) % 2 ^ 64;
        bytes = (stream.bytes + bytes) % 2 ^ 64;
        sample_bytes = (stream.sample_bytes + bytes) % 2 ^ 64;
        sample_frames = (stream.sample_frames + 1) % 2 ^ 64;
        sequence_gaps = (stream.sequence_gaps + missed stream.last_seq seq) % 2 ^ 64;
        last_seq = some seq;
        latency_total_ms = ops.add stream.latency_total_ms latency;
        latency_count = (stream.latency_count + 1) % 2 ^ 64;
        peak_bitrate_mbps = f64_max stream.peak_bitrate_mbps (bitrate rolling);
        latency_window =
            drop_while (λ (e : ℕ × ℕ). expired e.0)
              (stream.latency_window ++ ((now, latency) ∷ []));
        latency_samples =
            if ltb (length stream.latency_samples) 10000
            then stream.latency_samples ++ (latency ∷ [])
            else stream.latency_samples;
        recent_bytes = drop_while (λ (e : ℕ × ℕ). expired e.0) recent;
        recent_frames = drop_while expired (stream.recent_frames ++ (now ∷ []));
      }

  -- A sample of the bit rate and the frame rate, once a second has passed since the last.
  unfoldable pub sample_rates : ActiveStream → ActiveStream
  sample_rates stream =
      let bucket = ops.secs (now - stream.last_sample_at) in
      let mbps =
        ops.div (ops.div (ops.mul (ops.of_int stream.sample_bytes) eight) bucket) million in
      let fps = ops.div (ops.of_int stream.sample_frames) bucket in
      if f64_le one bucket
      then record stream {
        peak_bitrate_mbps = f64_max stream.peak_bitrate_mbps mbps;
        samples =
            push_back max_samples
              (record {
                elapsed_sec = ops.secs (now - stream.started_at);
                bitrate_mbps = mbps;
                fps = fps;
              })
              stream.samples;
        sample_bytes = 0;
        sample_frames = 0;
        last_sample_at = now;
      }
      else stream

  pub latency_budget : ActiveStream → ℕ
  latency_budget stream =
      let period =
        if ltb 0 stream.config.fps
        then ops.div thousand (ops.of_int stream.config.fps)
        else default_period in
      f64_max (ops.mul three period) fifty

  pub window_p95 : ActiveStream → ℕ
  unfolding percentile
  window_p95 stream =
      percentile ops now (sort f64_total_le (map (λ (e : ℕ × ℕ). e.1) stream.latency_window))
        p95_quantile

  -- The latency alarm: raised by a window over budget, and cleared by two that are within it.
  unfoldable pub alarm : ℕ → ℕ → ActiveStream → ActiveStream × Option (String × String)
  alarm p95 budget stream =
      if f64_lt budget p95
      then (
        record stream { healthy_latency_windows = 0; high_latency = true },
        (if stream.high_latency
            then none
            else some (
              "warn",
              texts (
                  "receiver ingest p95="
                  ∷ ops.one_decimal p95
                  ∷ "ms exceeded adaptive budget="
                  ∷ ops.one_decimal budget
                  ∷ "ms for 10s"
                  ∷ []),
            )),
      )
      else if stream.high_latency
      then (let healthy = min (stream.healthy_latency_windows + 1) 255 in
          if leb 2 healthy
          then (
            record stream { high_latency = false; healthy_latency_windows = 0 },
            some (
              "info",
              texts (
                  "receiver ingest latency recovered p95="
                  ∷ ops.one_decimal p95
                  ∷ "ms budget="
                  ∷ ops.one_decimal budget
                  ∷ "ms"
                  ∷ []),
            ),
          )
          else (record stream { healthy_latency_windows = healthy }, none))
      else (stream, none)

  evaluated : ActiveStream × Option (String × String) → ActiveStream × Option (String × String)
  evaluated (judged, notice) = (record judged { last_latency_evaluation = now }, notice)

  unfoldable pub is_due : ActiveStream → Bool
  is_due stream =
      leb (seconds 10) (now - stream.last_latency_evaluation)
      && not (length stream.latency_window == 0)

  unfoldable pub evaluate_latency : ActiveStream → ActiveStream × Option (String × String)
  unfolding alarm window_p95 latency_budget evaluated is_due
  evaluate_latency stream =
      if is_due stream
      then evaluated (alarm (window_p95 stream) (latency_budget stream) stream)
      else (stream, none)

  unfoldable pub stream_frame : ℕ → ℕ → ℕ → ActiveStream → ActiveStream × Option (String × String)
  unfolding count_frame sample_rates evaluate_latency
  stream_frame seq bytes latency stream =
      evaluate_latency (sample_rates (count_frame seq bytes latency stream))

  unfoldable pub notify : Option (String × String) → Inner → Inner
  unfolding event
  notify none inner = inner
  notify (some (level, message)) inner = event ops now level "latency" message inner

  unfoldable pub touch_sender : Option String → Inner → Inner
  unfolding seen
  touch_sender none inner = inner
  touch_sender (some id) inner = record inner {
    connections = modify id (seen ops now inner) inner.connections;
  }

  unfoldable pub frame_of_stream : ℕ → ℕ → ℕ → Option ActiveStream → Inner → Inner
  unfolding stream_frame notify
  frame_of_stream seq bytes latency none inner = inner
  frame_of_stream seq bytes latency (some stream) inner =
      let (counted, notice) = stream_frame seq bytes latency stream in
      notify notice (record inner { stream = some counted })

  unfoldable pub record_frame : ℕ → ℕ → ℕ → Inner → Inner
  unfolding frame_of_stream touch_sender sender_of
  record_frame seq bytes latency inner =
      frame_of_stream seq bytes latency inner.stream (touch_sender (sender_of inner.stream) inner)

  is_valid_value : ℕ → Bool
  is_valid_value v = f64_is_finite v && (f64_le 0 v && f64_le v estimated_latency_max_ms)

  -- The plausibility of a report: its numbers are in range and its parts add up.
  pub is_plausible : EstimatedLatencySnapshot → Bool
  unfolding is_valid_value
  is_plausible sample =
      let aggregate =
        ops.add (ops.add sample.sender_queue_ms sample.delivery_ms) sample.receiver_queue_ms in
      let total = ops.add (ops.add sample.encode_ms aggregate) sample.decode_display_ms in
      not (
        sample.seq == 0
        || not (
            all is_valid_value (
              sample.total_ms ∷ sample.encode_ms ∷ sample.sender_queue_ms ∷ sample.delivery_ms
              ∷ sample.receiver_queue_ms ∷ sample.decode_display_ms ∷ sample.media_write_blocked_ms
              ∷ sample.clock_uncertainty_ms ∷ sample.clock_sync_age_ms
              ∷ sample.configured_bitrate_mbps ∷ sample.adaptive_bitrate_mbps ∷ sample.effective_fps
              ∷ []))
        || f64_lt two (f64_abs (ops.sub sample.total_ms total))
        || f64_lt two (f64_abs (ops.sub sample.transport_queue_ms aggregate)))

  unfoldable pub metric_of : ActiveStream → EstimatedLatencySnapshot → LatencyMetricSample
  metric_of stream sample = record {
    elapsed_sec = ops.secs (now - stream.started_at);
    total_ms = sample.total_ms;
    encode_ms = sample.encode_ms;
    sender_queue_ms = sample.sender_queue_ms;
    delivery_ms = sample.delivery_ms;
    receiver_queue_ms = sample.receiver_queue_ms;
    decode_display_ms = sample.decode_display_ms;
  }

  unfoldable pub is_accepted : String → ℕ → ActiveStream → Bool
  is_accepted id seq stream =
      is_some_and (sender_id stream.sender) (λ s. str_eq s id)
      && (newer_than seq stream.estimated_latency || same_as seq stream.estimated_latency)
      && is_some_and stream.last_seq (λ l. leb seq l)

  unfoldable pub keep_estimate : EstimatedLatencySnapshot → ActiveStream → ActiveStream
  unfolding metric_of
  keep_estimate sample stream = record stream {
    estimated_latency = some (now, sample);
    estimated_latency_samples =
        if newer_than sample.seq stream.estimated_latency
        then push_back max_samples (metric_of stream sample) stream.estimated_latency_samples
        else stream.estimated_latency_samples;
  }

  unfoldable pub report_to :
      String → EstimatedLatencySnapshot → Option ActiveStream → Inner → Bool × Inner
  unfolding is_accepted keep_estimate
  report_to id sample none inner = (false, inner)
  report_to id sample (some stream) inner =
      if is_accepted id sample.seq stream
      then (true, record inner { stream = some (keep_estimate sample stream) })
      else (false, inner)

  unfoldable pub record_estimated_latency : String → EstimatedLatencySnapshot → Inner → Bool × Inner
  unfolding is_plausible report_to
  record_estimated_latency id sample inner =
      if is_plausible sample then report_to id sample inner.stream inner else (false, inner)
