-- ===== src/Reassembly/Assemble/Tests.antt =====
-- Runs of the reassembly on concrete packets, and the theorems at inputs that meet their hypotheses.
-- An H265 packet, as the tests of src/v4l2_decoder.rs build one.
use llrdc_casting.Prelude.Bytes.{u32_to_be_bytes, u16_to_be_bytes}
use llrdc_casting.Reassembly.Tag
use llrdc_casting.Reassembly.Assemble.Sequence.{Advances, process_udp_chunk-Advances}
use llrdc_casting.Reassembly.Assemble.{process_udp_chunk, Header}
use llrdc_casting.Reassembly.Header.{parse_header, is_stop, sequence_of, codec_of}
use llrdc_casting.Reassembly.Assemble.Safety.{Holds, Safe, process_udp_chunk-Safe}
use llrdc_casting.Reassembly.Types.{Decoder, VideoFrame, initial, hevc, h264}
use llrdc_casting.Reassembly.Assemble.Invariant.{WellFormed}
use llrdc_casting.Reassembly.Assemble.Streams.{
  receive, RunIsWhole, Arrival, CarriesParts, receive-IsWhole,
}
use llrdc_casting.Prelude.{
  ℕ, List, Option, ◌∷◌, arith, [], some, ◌≡◌, map, none, refl, subst, ◌++◌, length, get_elem?,
}

abbrev packet : ℕ → ℕ → ℕ → List ℕ → List ℕ
packet seq index total payload =
    Tag.h265
    ++ u32_to_be_bytes seq
    ++ u16_to_be_bytes index
    ++ u16_to_be_bytes total
    ++ u16_to_be_bytes 3840
    ++ u16_to_be_bytes 2160
    ++ payload

abbrev hello : List ℕ
hello = b'h' ∷ b'i' ∷ []

abbrev world : List ℕ
world = b'y' ∷ b'o' ∷ b'u' ∷ []

abbrev arrivals : List Arrival
arrivals =
    record { now = 5; clock = 0; packet = packet 7 1 2 world }
    ∷ record { now = 6; clock = 0; packet = packet 7 1 2 world }
    ∷ record { now = 9; clock = 0; packet = packet 7 0 2 hello }
    ∷ []

units : Option (List VideoFrame × Decoder) → Option (List (List ℕ))
units none = none
units (some (frames, d)) = some (map (λ (f : VideoFrame). f.access_unit) frames)

reassembles_out_of_order : units (receive arrivals initial) ≡ some ((hello ++ world) ∷ [])
unfolding units receive process_udp_chunk is_stop codec_of sequence_of parse_header
reassembles_out_of_order = refl

initial-WellFormed : WellFormed initial
initial-WellFormed = record { bounded = omega arith; sound = tt; pending = tt; distinct = tt }

-- A decoder that has completed frame 9 and holds one chunk of frame 10.
abbrev busy : Decoder
busy = record {
  last_completed_seq = 9;
  stats_chunks = 20;
  stats_completed = 9;
  dropped_timeout = 0;
  dropped_evicted = 0;
  ignored_packets = 0;
  assemblies =
      record {
        seq = 10;
        total_chunks = 2;
        width = 3840;
        height = 2160;
        codec = hevc;
        chunks = some hello ∷ none ∷ [];
        received = 1;
        first_packet_at = 0;
        capture_time_ms = none;
        encode_duration_ms = none;
        send_start_time_ms = none;
      }
      ∷ [];
}

busy-WellFormed : WellFormed busy
busy-WellFormed = record {
  bounded = omega arith;
  sound = (
    record {
      indexed = refl;
      counted = refl;
      total = omega arith;
      fits_width = omega arith;
      fits_height = omega arith;
      sized = (omega arith, (tt, tt));
    },
    tt,
  );
  pending = (omega arith, tt);
  distinct = (tt, tt);
}

process_udp_chunk-Safe_example : Holds Safe (process_udp_chunk 5 0 (packet 10 1 2 world) busy)
process_udp_chunk-Safe_example =
    process_udp_chunk-Safe 5 0 (packet 10 1 2 world) busy busy-WellFormed

process_udp_chunk-Advances_example :
    Holds
      (Advances (sequence_of (packet 10 1 2 world)))
      (process_udp_chunk 5 0 (packet 10 1 2 world) busy)
process_udp_chunk-Advances_example =
    process_udp_chunk-Advances 5 0 (packet 10 1 2 world) busy busy-WellFormed

-- What an accepted packet carries.
abbrev Carried : List (List ℕ) → Option Header → Type 0
Carried parts none = Unit
Carried parts (some h) =
    (h.total_chunks ≡ length parts) × (get_elem? parts h.chunk_index ≡ some h.payload)

abbrev hello_world : List (List ℕ)
hello_world = hello ∷ world ∷ []

carries_world :
    (t : ℕ)
    → CarriesParts 7 hello_world (record { now = t; clock = 0; packet = packet 7 1 2 world })
unfolding parse_header sequence_of
carries_world t hevc h e q = subst (Carried hello_world) e (refl, refl)
carries_world t h264 h e q = subst (Carried hello_world) e tt

carries_hello :
    (t : ℕ)
    → CarriesParts 7 hello_world (record { now = t; clock = 0; packet = packet 7 0 2 hello })
unfolding parse_header sequence_of
carries_hello t hevc h e q = subst (Carried hello_world) e (refl, refl)
carries_hello t h264 h e q = subst (Carried hello_world) e tt

receive-IsWhole_example : RunIsWhole 7 hello_world (receive arrivals initial)
receive-IsWhole_example =
    receive-IsWhole 7 hello_world arrivals initial initial-WellFormed tt
      (carries_world 5, (carries_world 6, (carries_hello 9, tt)))

-- A late packet of frame 3 with no chunks: it is refused, and the frame in flight is lost.
stale_resets :
    Holds
      (λ frame d'. (frame ≡ none) × (d'.last_completed_seq ≡ 0) × (d'.assemblies ≡ []))
      (process_udp_chunk 5 0 (packet 3 0 0 hello) busy)
unfolding process_udp_chunk is_stop codec_of sequence_of parse_header
stale_resets = (refl, refl, refl)
