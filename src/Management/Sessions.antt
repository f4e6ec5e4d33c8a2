-- ===== src/Management/Sessions.antt =====
-- Sessions and connections (src/management.rs): events, hellos, disconnects, activity, clock
-- synchronisation, and the start and the end of the active stream.
use llrdc_casting.Prelude.Dict.{lookup, insert, modify, delete}
use llrdc_casting.Prelude.Text.{texts, str_eq}
use llrdc_casting.Reassembly.Assemble.{ReassemblyStats}
use llrdc_casting.Prelude.Float.{FloatOps, f64_lt, f64_total_le, f64_is_finite, f64_le}
use llrdc_casting.Management.Types.{
  HealthSnapshot, Inner, ClientMetadata, ActiveStream, max_events, ConnectionRecord,
  StreamConfigSnapshot, SessionRecord, max_history, eight, million, half, p95_quantile,
  estimated_latency_max_ms,
}
use llrdc_casting.Prelude.{
  ℕ, List, Option, String, keep_last, take, none, ◌-◌, ◌∷◌, Bool, ◌++◌, [], some, unwrap_or,
  if◌then◌else◌, false, is_some_and, ◌+◌, get_elem?, sort, true, not, ◌&&◌, ◌%◌, is_some, length,
  ◌^◌, ◌||◌, last,
}

abbrev pub push_back {ℓ} : {A : Type ℓ} → ℕ → A → List A → List A
push_back limit x xs = keep_last limit (xs ++ (x ∷ []))

-- `push_front`, then `pop_back` while the list is longer than the limit.
abbrev pub push_front {ℓ} : {A : Type ℓ} → ℕ → A → List A → List A
push_front limit x xs = take limit (x ∷ xs)

default_health : HealthSnapshot
default_health = record {
  display_resolution = "";
  display_fps = 0;
  panel_resolution = "";
  edid_name = "";
  edid_type = "";
  pairing_status = "";
  cloud_status = "";
  playback_state = "";
  reassembly_in_flight = 0;
  dropped_access_units = 0;
  ignored_media_packets = 0;
  load_1m = none;
  load_5m = none;
  load_15m = none;
  memory_available_mib = none;
  memory_total_mib = none;
  soc_temperature_c = none;
}

unfoldable pub new_state : ℕ → Inner
unfolding default_health
new_state now = record {
  started = now;
  next_session = 1;
  stream = none;
  history = [];
  events = [];
  connections = [];
  clock_syncs = [];
  health = record default_health { playback_state = "idle_dashboard" };
}

abbrev pub sender_id : Option ClientMetadata → Option String
sender_id none = none
sender_id (some sender) = some sender.connection_id

-- The connection that owns the active stream.
unfoldable pub sender_of : Option ActiveStream → Option String
sender_of none = none
sender_of (some stream) = sender_id stream.sender

module _ (ops : FloatOps) (now : ℕ) where
  elapsed : Inner → ℕ
  elapsed inner = ops.secs (now - inner.started)

  unfoldable pub event : String → String → String → Inner → Inner
  unfolding elapsed
  event level kind message inner = record inner {
    events =
        push_back max_events
          (record { elapsed_sec = elapsed inner; level = level; kind = kind; message = message })
          inner.events;
  }

  unfoldable pub hello : ClientMetadata → Inner → Inner
  unfolding elapsed event
  hello metadata inner =
      event "info" "connection_metadata"
        (texts (
          "connection=" ∷ metadata.connection_id ∷ " device=" ∷ metadata.device_id ∷ " ip="
          ∷ metadata.remote_ip ∷ " platform=" ∷ metadata.platform ∷ " user_agent="
          ∷ metadata.user_agent ∷ []))
        (record inner {
          connections =
              insert metadata.connection_id
                (record {
                  connection_id = metadata.connection_id;
                  remote_ip = metadata.remote_ip;
                  device_id = metadata.device_id;
                  user_agent = metadata.user_agent;
                  platform = metadata.platform;
                  language = metadata.language;
                  page_session_id = metadata.page_session_id;
                  connected = true;
                  connected_at_sec = elapsed inner;
                  last_seen_at_sec = elapsed inner;
                  sharing = false;
                })
                inner.connections;
        })

  -- `sorted[((sorted.len() - 1) as f64 * quantile).round() as usize]`.
  unfoldable pub percentile : List ℕ → ℕ → ℕ
  percentile [] quantile = 0
  percentile (v ∷ vs) quantile =
      unwrap_or (get_elem? (v ∷ vs) (ops.to_index (ops.mul (ops.of_int (length vs)) quantile))) 0

  stop_sharing : Option String → List (String × ConnectionRecord) → List (String × ConnectionRecord)
  stop_sharing none connections = connections
  stop_sharing (some id) connections =
      modify id (λ (c : ConnectionRecord). record c { sharing = false }) connections

  unfoldable pub average_bitrate : ActiveStream → ℕ
  average_bitrate stream =
      let duration = ops.secs (now - stream.started_at) in
      if f64_lt 0 duration
      then ops.div (ops.div (ops.mul (ops.of_int stream.bytes) eight) duration) million
      else 0

  pub session_of : ℕ → String → ActiveStream → SessionRecord
  unfolding percentile average_bitrate
  session_of started reason stream =
      let latency = sort f64_total_le stream.latency_samples in
      record {
        id = stream.id;
        sender = stream.sender;
        config = stream.config;
        started_at_sec = ops.secs (stream.started_at - started);
        ended_at_sec = some (ops.secs (now - started));
        duration_sec = ops.secs (now - stream.started_at);
        frames = stream.frames;
        bytes = stream.bytes;
        average_bitrate_mbps = average_bitrate stream;
        peak_bitrate_mbps = stream.peak_bitrate_mbps;
        sequence_gaps = stream.sequence_gaps;
        latency_p50_ms = percentile latency half;
        latency_p95_ms = percentile latency p95_quantile;
        latency_max_ms = unwrap_or (last latency) 0;
        end_reason = some reason;
      }

  -- The active stream is taken out, and becomes the first session of the history.
  unfoldable pub finish_stream : Option ActiveStream → String → Inner → Inner
  unfolding session_of stop_sharing sender_of
  finish_stream none reason inner = inner
  finish_stream (some stream) reason inner = record inner {
    stream = none;
    connections = stop_sharing (sender_of (some stream)) inner.connections;
    history = push_front max_history (session_of inner.started reason stream) inner.history;
  }

  unfoldable pub finish_locked : String → Inner → Inner
  unfolding finish_stream
  finish_locked reason inner = finish_stream inner.stream reason inner

  pub close_record : Inner → ConnectionRecord → ConnectionRecord
  unfolding elapsed
  close_record inner c = record c {
    connected = false;
    sharing = false;
    last_seen_at_sec = elapsed inner;
  }

  pub close_message : String → Inner → Option ConnectionRecord → String
  unfolding elapsed
  close_message id inner none = texts ("connection=" ∷ id ∷ " cause=peer_close" ∷ [])
  close_message id inner (some c) = texts (
      "connection="
      ∷ id
      ∷ " device="
      ∷ c.device_id
      ∷ " ip="
      ∷ c.remote_ip
      ∷ " cause=peer_close duration_sec="
      ∷ ops.one_decimal (ops.sub (elapsed inner) c.connected_at_sec)
      ∷ [])

  -- Whether the active stream belongs to the connection.
  unfoldable pub owns : String → Inner → Bool
  unfolding sender_of
  owns id inner = is_some_and (sender_of inner.stream) (λ s. str_eq s id)

  unfoldable pub connection_closed : String → Inner → Bool × Inner
  unfolding close_record close_message owns finish_locked event
  connection_closed id inner =
      let message = close_message id inner (lookup id inner.connections) in
      let was_active = owns id inner in
      let closed = record inner {
        clock_syncs = delete id inner.clock_syncs;
        connections = modify id (close_record inner) inner.connections;
      } in
      let finished = if was_active then finish_locked "disconnect" closed else closed in
      (was_active, event "info" "connection_disconnected" message finished)

  pub is_connected : String → Inner → Bool
  is_connected id inner =
      is_some_and (lookup id inner.connections) (λ (c : ConnectionRecord). c.connected)

  unfoldable pub seen : Inner → ConnectionRecord → ConnectionRecord
  unfolding elapsed
  seen inner c = record c { last_seen_at_sec = elapsed inner }

  unfoldable pub touch_connection : String → Inner → Bool × Inner
  unfolding is_connected seen
  touch_connection id inner =
      if is_connected id inner
      then (true, record inner { connections = modify id (seen inner) inner.connections })
      else (false, inner)

  unfoldable pub record_clock_sync : String → ℕ → ℕ → Inner → Bool × Inner
  unfolding is_connected
  record_clock_sync id offset uncertainty inner =
      if not (f64_is_finite offset)
        || not (f64_is_finite uncertainty)
        || not (f64_le 0 uncertainty && f64_le uncertainty estimated_latency_max_ms)
      then (false, inner)
      else if is_connected id inner
      then (
        true,
        record inner {
          clock_syncs =
              insert id
                (record { offset_ms = offset; uncertainty_ms = uncertainty; received_at = now })
                inner.clock_syncs;
        },
      )
      else (false, inner)

  fresh_connection : ℕ → Inner → Option ConnectionRecord → Bool
  unfolding elapsed
  fresh_connection max_age inner none = false
  fresh_connection max_age inner (some c) =
      c.connected && f64_le (ops.sub (elapsed inner) c.last_seen_at_sec) (ops.secs max_age)

  fresh_sender : ℕ → Inner → Option String → Bool
  unfolding fresh_connection
  fresh_sender max_age inner none = false
  fresh_sender max_age inner (some id) =
      fresh_connection max_age inner (lookup id inner.connections)

  unfoldable pub active_sender_heartbeat_fresh : ℕ → Inner → Bool
  unfolding fresh_sender sender_of
  active_sender_heartbeat_fresh max_age inner = fresh_sender max_age inner (sender_of inner.stream)

  unfoldable pub new_stream : ℕ → StreamConfigSnapshot → Option ClientMetadata → ActiveStream
  new_stream id config sender = record {
    id = id;
    sender = sender;
    config = config;
    started_at = now;
    frames = 0;
    bytes = 0;
    last_seq = none;
    sequence_gaps = 0;
    latency_total_ms = 0;
    latency_count = 0;
    peak_bitrate_mbps = 0;
    recent_bytes = [];
    recent_frames = [];
    samples = [];
    last_sample_at = now;
    sample_bytes = 0;
    sample_frames = 0;
    latency_window = [];
    latency_samples = [];
    last_latency_evaluation = now;
    high_latency = false;
    healthy_latency_windows = 0;
    estimated_latency = none;
    estimated_latency_samples = [];
  }

  unfoldable pub claim_connection : Option ClientMetadata → Inner → Inner
  unfolding elapsed
  claim_connection none inner = inner
  claim_connection (some sender) inner = record inner {
    clock_syncs = delete sender.connection_id inner.clock_syncs;
    connections =
        modify sender.connection_id
          (λ (c : ConnectionRecord). record c { sharing = true; last_seen_at_sec = elapsed inner })
          inner.connections;
  }

  unfoldable pub start : StreamConfigSnapshot → Option ClientMetadata → Inner → Inner
  unfolding finish_locked claim_connection new_stream event
  start config sender inner =
      let free = finish_locked "replaced" inner in
      let claimed =
        claim_connection sender (record free { next_session = (free.next_session + 1) % 2 ^ 64 }) in
      event "info" "stream_start" "sharing started"
        (record claimed { stream = some (new_stream free.next_session config sender) })

  unfoldable pub stop : String → Inner → Bool × Inner
  unfolding finish_locked event
  stop reason inner =
      if is_some inner.stream
      then (true, event "info" "stream_stop" reason (finish_locked reason inner))
      else (false, inner)

unfoldable pub set_health : HealthSnapshot → Inner → Inner
set_health health inner = record inner { health = health }

unfoldable pub refresh_pipeline_health : String → ReassemblyStats → Inner → Inner
refresh_pipeline_health playback stats inner = record inner {
  health = record inner.health {
    playback_state = playback;
    reassembly_in_flight = stats.in_flight;
    dropped_access_units = stats.dropped_access_units;
    ignored_media_packets = stats.ignored_packets;
  };
}
