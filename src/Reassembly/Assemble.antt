-- ===== src/Reassembly/Assemble.antt =====
-- `process_udp_chunk` and the calls that it makes on the decoder's state.
pub mod Entries
pub mod Invariant
pub mod Safety
pub mod Integrity
pub mod Streams
pub mod Sequence
mod Tests
use llrdc_casting.Prelude.{
  ℕ, ◌+◌, ◌-◌, Bool, ◌&&◌, ◌||◌, Option, none, some, List, [], ◌∷◌, ◌++◌, length, get_elem?, set,
  take, drop, replicate, retain, find, update_first, remove_first, ltb, leb, ◌==◌, if◌then◌else◌,
}
use llrdc_casting.Prelude.Bytes.{wrapping_add_64}
use llrdc_casting.Prelude.Float.{f64_eq, f32_eq, option_eq}
use llrdc_casting.Reassembly.Types.{
  Codec, codec_eq, VideoFrame, Assembly, Decoder, Header, stop_frame, max_in_flight, assembly_ttl,
  max_access_unit_bytes,
}
use llrdc_casting.Reassembly.Header.{
  is_stop, codec_of, sequence_of, parse_header, legacy_packet_header_bytes,
}

pub record ReassemblyStats : Type 0 where
  pub in_flight : ℕ
  pub dropped_access_units : ℕ
  pub ignored_packets : ℕ

-- The sum of the two counters is a plain `+`, which wraps in a release build.
pub reassembly_stats : Decoder → ReassemblyStats
reassembly_stats d = record {
  in_flight = length d.assemblies;
  dropped_access_units = wrapping_add_64 d.dropped_timeout d.dropped_evicted;
  ignored_packets = d.ignored_packets;
}

pub reset_decoder_pipeline : Decoder → Decoder
reset_decoder_pipeline d = record d { last_completed_seq = 0; assemblies = [] }

-- The sequence check: `none` is a packet to ignore, and a sequence reset clears the pipeline.
pub check_sequence : ℕ → Decoder → Option Decoder
check_sequence seq d =
    if leb seq d.last_completed_seq && ltb 0 d.last_completed_seq
    then (if leb seq 5 || ltb seq d.last_completed_seq
        then some (reset_decoder_pipeline d)
        else none)
    else some d

-- An entry is kept while it is young and newer than the last sequence number read.
pub is_retained : ℕ → ℕ → Assembly → Bool
is_retained now last_seq entry =
    leb (now - entry.first_packet_at) assembly_ttl && ltb last_seq entry.seq

pub drop_expired : ℕ → ℕ → Decoder → Decoder
unfolding is_retained
drop_expired now last_seq d =
    let kept = retain (is_retained now last_seq) d.assemblies in
    record d {
      assemblies = kept;
      dropped_timeout = wrapping_add_64 d.dropped_timeout (length d.assemblies - length kept);
    }

-- Whether a packet's header agrees with the entry that its sequence number selects.
same_shape : Header → Assembly → Bool
same_shape h entry =
    (entry.total_chunks == h.total_chunks && entry.width == h.width)
    && (entry.height == h.height && codec_eq entry.codec h.codec)

same_timing : Header → Assembly → Bool
same_timing h entry =
    option_eq f64_eq entry.capture_time_ms h.capture_time_ms
    && option_eq f32_eq entry.encode_duration_ms h.encode_duration_ms
    && option_eq f64_eq entry.send_start_time_ms h.send_start_time_ms

pub matches_entry : Header → Assembly → Bool
unfolding same_shape same_timing
matches_entry h entry = same_shape h entry && same_timing h entry

-- An empty slot takes the payload.
pub fill_slot : Header → Assembly → Assembly
fill_slot h entry = record entry {
  chunks = set entry.chunks h.chunk_index (some h.payload);
  received = entry.received + 1;
}

pub new_entry : ℕ → Header → Assembly
new_entry now h = record {
  seq = h.seq;
  total_chunks = h.total_chunks;
  width = h.width;
  height = h.height;
  codec = h.codec;
  chunks = set (replicate h.total_chunks none) h.chunk_index (some h.payload);
  received = 1;
  first_packet_at = now;
  capture_time_ms = h.capture_time_ms;
  encode_duration_ms = h.encode_duration_ms;
  send_start_time_ms = h.send_start_time_ms;
}

-- What storing a chunk comes to: an entry that disagrees, an index out of range, or a new state.
pub data Stored : Type 0 where
  mismatch panic : Stored
  stored : Decoder → Stored

abbrev pub has_seq : ℕ → Assembly → Bool
has_seq seq entry = entry.seq == seq

pub store_slot : Header → Option (Option (List ℕ)) → Decoder → Stored
unfolding fill_slot
store_slot h none d = panic
store_slot h (some none) d =
    stored (record d { assemblies = update_first (has_seq h.seq) (fill_slot h) d.assemblies })
store_slot h (some (some payload)) d =
    stored (record d { ignored_packets = wrapping_add_64 d.ignored_packets 1 })

-- At the limit the oldest entry goes.
pub evict : Decoder → Decoder
evict d =
    if length d.assemblies == max_in_flight
    then record d {
      assemblies = drop 1 d.assemblies;
      dropped_evicted = wrapping_add_64 d.dropped_evicted 1;
    }
    else d

pub store_chunk : ℕ → Header → Option Assembly → Decoder → Stored
unfolding store_slot matches_entry evict new_entry
store_chunk now h (some entry) d =
    if matches_entry h entry
    then store_slot h (get_elem? entry.chunks h.chunk_index) d
    else mismatch
store_chunk now h none d =
    let room = evict d in
    stored (record room { assemblies = room.assemblies ++ new_entry now h ∷ [] })

abbrev pub is_complete : ℕ → Assembly → Bool
is_complete seq entry = entry.seq == seq && entry.received == entry.total_chunks

-- The bytes held by the slots; `none` where one is empty.
abbrev pub chunk_lengths : List (Option (List ℕ)) → ℕ
chunk_lengths [] = 0
chunk_lengths (none ∷ chunks) = chunk_lengths chunks
chunk_lengths (some bytes ∷ chunks) = length bytes + chunk_lengths chunks

abbrev pub join_chunks : List (Option (List ℕ)) → Option (List ℕ)
join_chunks [] = some []
join_chunks (none ∷ chunks) = none
join_chunks (some bytes ∷ chunks) = elim (join_chunks chunks) [
  | none ↦ none
  | some rest ↦ some (bytes ++ rest)
]

-- A call returns a frame or none, with the new state, or panics.
pub data Outcome : Type 0 where
  done : Option VideoFrame → Decoder → Outcome
  panicked : Outcome

pub ignored : Decoder → Outcome
ignored d = done none (record d { ignored_packets = wrapping_add_64 d.ignored_packets 1 })

abbrev pub frame_of : ℕ → Assembly → List ℕ → VideoFrame
frame_of clock e bytes = record {
  seq = e.seq;
  width = e.width;
  height = e.height;
  codec = some e.codec;
  access_unit = bytes;
  first_packet_at = e.first_packet_at;
  capture_time_ms = e.capture_time_ms;
  encode_duration_ms = e.encode_duration_ms;
  send_start_time_ms = e.send_start_time_ms;
  receiver_complete_time_ms = elim e.send_start_time_ms [ none ↦ none | some t ↦ some clock ];
}

-- The sequence number advances, and older entries are purged.
pub purge : ℕ → Assembly → Decoder → Decoder
purge seq e d = record d {
  last_completed_seq = e.seq;
  assemblies = retain (λ entry. ltb e.seq entry.seq) (remove_first (is_complete seq) d.assemblies);
}

pub emit : ℕ → Assembly → Option (List ℕ) → Decoder → Outcome
emit clock e none d = done none d
emit clock e (some bytes) d =
    done (some (frame_of clock e bytes))
      (record d { stats_completed = wrapping_add_64 d.stats_completed 1 })

pub complete : ℕ → ℕ → Option Assembly → Decoder → Outcome
unfolding purge emit ignored
complete clock seq none d = done none d
complete clock seq (some e) d =
    if chunk_lengths e.chunks == 0 || ltb max_access_unit_bytes (chunk_lengths e.chunks)
    then ignored (purge seq e d)
    else emit clock e (join_chunks e.chunks) (purge seq e d)

pub finish : ℕ → Header → Decoder → Stored → Outcome
unfolding complete ignored
finish clock h d mismatch = ignored d
finish clock h d panic = panicked
finish clock h d (stored d') = complete clock h.seq (find (is_complete h.seq) d'.assemblies) d'

-- From the lock on the assemblies to the end.
pub assemble : ℕ → ℕ → ℕ → Header → Decoder → Outcome
unfolding drop_expired finish store_chunk
assemble now clock last_seq h d =
    let kept = drop_expired now last_seq d in
    finish clock h kept (store_chunk now h (find (has_seq h.seq) kept.assemblies) kept)

pub count_chunk : Decoder → Decoder
count_chunk d = record d { stats_chunks = wrapping_add_64 d.stats_chunks 1 }

pub route : ℕ → ℕ → ℕ → Decoder → Option Decoder → Option Header → Outcome
unfolding assemble ignored
route now clock last_seq d none header = ignored d
route now clock last_seq d (some checked) none = ignored checked
route now clock last_seq d (some checked) (some h) = assemble now clock last_seq h checked

pub process_coded : ℕ → ℕ → List ℕ → Decoder → Option Codec → Outcome
unfolding route check_sequence ignored
process_coded now clock packet d none = ignored d
process_coded now clock packet d (some codec) =
    route now clock d.last_completed_seq d (check_sequence (sequence_of packet) d)
      (parse_header codec packet)

-- `now` is `Instant::now()`, `clock` the bits of `clock::monotonic_epoch_ms()`.
pub process_udp_chunk : ℕ → ℕ → List ℕ → Decoder → Outcome
unfolding process_coded reset_decoder_pipeline ignored count_chunk
process_udp_chunk now clock packet d =
    if is_stop packet
    then done (some (stop_frame now)) (reset_decoder_pipeline d)
    else if leb (length packet) legacy_packet_header_bytes
    then ignored d
    else process_coded now clock packet (count_chunk d) (codec_of (take 4 packet))
