-- ===== src/Management/Estimates.antt =====
-- End-to-end latency measured at the receiver, and the snapshot (src/management.rs).
use llrdc_casting.Management.Sessions.{push_back, average_bitrate}
use llrdc_casting.Prelude.Dict.{lookup}
use llrdc_casting.Management.Metrics.{newer_than, thousand, quarter, bitrate, bytes_within, seconds}
use llrdc_casting.Management.Types.{
  ClockSyncState, EstimatedLatencySnapshot, Inner, ActiveStream, ClientMetadata, Snapshot,
  LatencyMetricSample, ActiveStreamSnapshot, clock_drift_ms_per_ms, estimated_latency_max_ms,
  ConnectionRecord, max_samples,
}
use llrdc_casting.Prelude.Float.{FloatOps, f64_is_finite, f64_max, f64_lt, f64_neg}
use llrdc_casting.Prelude.{
  ℕ, Option, ◌-◌, Bool, some, all, if◌then◌else◌, false, none, not, true, ◌==◌, is_some, ◌∷◌, ◌||◌,
  map, [], String, ◌&&◌, leb, length, retain, ltb,
}

-- What a frame's header and the playback queue say about one access unit.
pub record Timing : Type 0 where
  pub capture_time_ms : ℕ
  pub encode_duration_ms : ℕ
  pub send_start_time_ms : ℕ
  pub receiver_complete_time_ms : ℕ
  pub receiver_queue_ms : ℕ

module _ (ops : FloatOps) (now : ℕ) where
  infixl 6 ◌⊕◌
  ◌⊕◌ : ℕ → ℕ → ℕ
  a ⊕ b = ops.add a b

  uncertainty_of : ClockSyncState → ℕ
  unfolding ◌⊕◌
  uncertainty_of sync =
      sync.uncertainty_ms
      ⊕ ops.mul (ops.mul (ops.secs (now - sync.received_at)) thousand) clock_drift_ms_per_ms

  sender_raw : Timing → ℕ
  sender_raw t =
      ops.sub (ops.sub t.send_start_time_ms t.capture_time_ms) (ops.of_f32 t.encode_duration_ms)

  delivery_raw : Timing → ClockSyncState → ℕ
  delivery_raw t sync =
      ops.sub (ops.sub t.receiver_complete_time_ms sync.offset_ms) t.send_start_time_ms

  pub is_measurable : Timing → ClockSyncState → Bool
  unfolding uncertainty_of sender_raw delivery_raw
  is_measurable t sync =
      let uncertainty = uncertainty_of sync in
      all f64_is_finite (
        t.capture_time_ms
        ∷ ops.of_f32 t.encode_duration_ms
        ∷ t.send_start_time_ms
        ∷ t.receiver_complete_time_ms
        ∷ t.receiver_queue_ms
        ∷ uncertainty
        ∷ sender_raw t
        ∷ delivery_raw t sync
        ∷ [])
      && not (f64_lt (sender_raw t) (f64_neg uncertainty))
      && not (f64_lt (delivery_raw t sync) (f64_neg uncertainty))
      && not (f64_lt t.receiver_queue_ms 0)

  -- A quarter of the way from the previous estimate to the current value.
  blend : (EstimatedLatencySnapshot → ℕ) → Option EstimatedLatencySnapshot → ℕ → ℕ
  unfolding ◌⊕◌
  blend field none current = current
  blend field (some previous) current =
      field previous ⊕ ops.mul quarter (ops.sub current (field previous))

  carried : (EstimatedLatencySnapshot → ℕ) → Option EstimatedLatencySnapshot → ℕ → ℕ
  carried field none default = default
  carried field (some previous) default = field previous

  pub raw_metric : ℕ → Timing → ClockSyncState → ActiveStream → LatencyMetricSample
  unfolding sender_raw delivery_raw ◌⊕◌
  raw_metric display_fps t sync stream =
      let encode = ops.of_f32 t.encode_duration_ms in
      let queue = f64_max (sender_raw t) 0 in
      let delivery = f64_max (delivery_raw t sync) 0 in
      let display = ops.div thousand (ops.of_int display_fps) in
      record {
        elapsed_sec = ops.secs (now - stream.started_at);
        total_ms = encode ⊕ queue ⊕ delivery ⊕ t.receiver_queue_ms ⊕ display;
        encode_ms = encode;
        sender_queue_ms = queue;
        delivery_ms = delivery;
        receiver_queue_ms = t.receiver_queue_ms;
        decode_display_ms = display;
      }

  pub smoothed :
      ℕ
      → ClockSyncState
      → ActiveStream
      → Option EstimatedLatencySnapshot
      → LatencyMetricSample
      → EstimatedLatencySnapshot
  unfolding blend carried uncertainty_of ◌⊕◌
  smoothed seq sync stream previous raw =
      let encode = blend (λ p. p.encode_ms) previous raw.encode_ms in
      let queue = blend (λ p. p.sender_queue_ms) previous raw.sender_queue_ms in
      let delivery = blend (λ p. p.delivery_ms) previous raw.delivery_ms in
      let receiver = blend (λ p. p.receiver_queue_ms) previous raw.receiver_queue_ms in
      let rate = ops.of_f32 stream.config.bitrate_mbps in
      record {
        seq = seq;
        total_ms = encode ⊕ queue ⊕ delivery ⊕ receiver ⊕ raw.decode_display_ms;
        encode_ms = encode;
        sender_queue_ms = queue;
        delivery_ms = delivery;
        receiver_queue_ms = receiver;
        transport_queue_ms = queue ⊕ delivery ⊕ receiver;
        decode_display_ms = raw.decode_display_ms;
        access_unit_bytes = carried (λ p. p.access_unit_bytes) previous 0;
        media_write_blocked_ms = carried (λ p. p.media_write_blocked_ms) previous 0;
        clock_uncertainty_ms = uncertainty_of sync;
        clock_sync_age_ms = ops.mul (ops.secs (now - sync.received_at)) thousand;
        configured_bitrate_mbps = carried (λ p. p.configured_bitrate_mbps) previous rate;
        adaptive_bitrate_mbps = carried (λ p. p.adaptive_bitrate_mbps) previous rate;
        dropped_input_frames = carried (λ p. p.dropped_input_frames) previous 0;
        effective_fps = carried (λ p. p.effective_fps) previous (ops.of_int stream.config.fps);
      }

  pub previous_of : Option (ℕ × EstimatedLatencySnapshot) → Option EstimatedLatencySnapshot
  previous_of none = none
  previous_of (some (t, previous)) = some previous

  -- The measured estimate of a frame, when every test admits it.
  unfoldable pub measure :
      ℕ → ℕ → Timing → ActiveStream → Option ClockSyncState → Option ActiveStream
  unfolding is_measurable raw_metric smoothed previous_of
  measure seq display_fps t stream none = none
  measure seq display_fps t stream (some sync) =
      let raw = raw_metric display_fps t sync stream in
      let sample = smoothed seq sync stream (previous_of stream.estimated_latency) raw in
      if not (is_measurable t sync)
      then none
      else if not (newer_than seq stream.estimated_latency)
      then none
      else if f64_lt estimated_latency_max_ms raw.total_ms
      then none
      else if f64_lt estimated_latency_max_ms sample.total_ms
      then none
      else some (record stream {
        estimated_latency_samples = push_back max_samples raw stream.estimated_latency_samples;
        estimated_latency = some (now, sample);
      })

  pub sync_of : Option ClientMetadata → Inner → Option ClockSyncState
  sync_of none inner = none
  sync_of (some sender) inner = lookup sender.connection_id inner.clock_syncs

  unfoldable pub measure_on : ℕ → ℕ → Timing → Option ActiveStream → Inner → Option ActiveStream
  unfolding measure sync_of
  measure_on seq display_fps t none inner = none
  measure_on seq display_fps t (some stream) inner =
      measure seq display_fps t stream (sync_of stream.sender inner)

  unfoldable pub put_stream : Option ActiveStream → Inner → Bool × Inner
  put_stream none inner = (false, inner)
  put_stream (some stream) inner = (true, record inner { stream = some stream })

  unfoldable pub record_receiver_estimated_latency : ℕ → Timing → ℕ → Inner → Bool × Inner
  unfolding measure_on put_stream
  record_receiver_estimated_latency seq t display_fps inner =
      if display_fps == 0 || seq == 0
      then (false, inner)
      else put_stream (measure_on seq display_fps t inner.stream inner) inner

  latency_age : Option (ℕ × EstimatedLatencySnapshot) → Option ℕ
  latency_age none = none
  latency_age (some (at, sample)) = some (ops.mul (ops.secs (now - at)) thousand)

  stream_snapshot : ℕ → ActiveStream → ActiveStreamSnapshot
  unfolding bitrate bytes_within average_bitrate previous_of latency_age
  stream_snapshot started stream =
      let recent = λ (t : ℕ). leb (now - seconds 1) t in
      record {
        id = stream.id;
        sender = stream.sender;
        config = stream.config;
        started_at_sec = ops.secs (stream.started_at - started);
        duration_sec = ops.secs (now - stream.started_at);
        frames = stream.frames;
        bytes = stream.bytes;
        measured_bitrate_mbps = bitrate ops now (bytes_within ops now recent stream.recent_bytes);
        measured_fps = ops.of_int (length (retain recent stream.recent_frames));
        average_bitrate_mbps = average_bitrate ops now stream;
        peak_bitrate_mbps = stream.peak_bitrate_mbps;
        sequence_gaps = stream.sequence_gaps;
        server_latency_ms =
            if ltb 0 stream.latency_count
            then ops.div stream.latency_total_ms (ops.of_int stream.latency_count)
            else 0;
        estimated_latency = previous_of stream.estimated_latency;
        estimated_latency_age_ms = latency_age stream.estimated_latency;
        samples = stream.samples;
        latency_samples = stream.estimated_latency_samples;
      }

  active_snapshot : ℕ → Option ActiveStream → Option ActiveStreamSnapshot
  unfolding stream_snapshot
  active_snapshot started none = none
  active_snapshot started (some stream) = some (stream_snapshot started stream)

  unfoldable pub snapshot : Inner → Snapshot
  unfolding active_snapshot
  snapshot inner = record {
    server_uptime_sec = ops.secs (now - inner.started);
    state = if is_some inner.stream then "STREAMING" else "IDLE";
    active_stream = active_snapshot inner.started inner.stream;
    connections = map (λ (e : String × ConnectionRecord). e.1) inner.connections;
    history = inner.history;
    events = inner.events;
    health = inner.health;
  }
