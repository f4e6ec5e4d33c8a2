-- ===== src/Reassembly/Assemble/Streams.antt =====
-- Runs of packets: the receive loops of webtransport_server.rs call `process_udp_chunk` on each
-- packet in turn and send on each frame that it returns.
use llrdc_casting.Reassembly.Header.Laws.{parse_header-IsGood}
use llrdc_casting.Reassembly.Assemble.Safety.{
  Holds, check_sequence-cases, Safe, process_udp_chunk-Safe, store_chunk-Keeps,
  check_sequence-WellFormed, WellFormed-same,
}
use llrdc_casting.Reassembly.Assemble.Integrity.{
  IsAuthentic, IsGenuine, Faithful, IsWhole, finish-Faithful, store_chunk-IsAuthentic,
}
use llrdc_casting.Reassembly.Assemble.Entries.{IsGood}
use llrdc_casting.Reassembly.Assemble.Invariant.{WellFormed, drop_expired-WellFormed}
use llrdc_casting.Reassembly.Assemble.{
  Outcome, VideoFrame, Decoder, Codec, assemble, route, check_sequence, process_udp_chunk, Header,
  drop_expired, ignored, reset_decoder_pipeline, process_coded, done, parse_header, count_chunk,
  panicked, is_retained, is_stop, sequence_of, legacy_packet_header_bytes,
}
use llrdc_casting.Prelude.{
  ℕ, Option, List, some, none, ◌∷◌, All, ◌≡◌, [], All-retain, refl, ◌<◌, Bool-cases, inl, length,
  subst, inr, leb, arith,
}

pub record Arrival : Type 0 where
  pub now : ℕ
  pub clock : ℕ
  pub packet : List ℕ

-- The frames, oldest first, and the last state; `none` is a panic.
abbrev pub with_frame : Option VideoFrame → List VideoFrame → List VideoFrame
with_frame none frames = frames
with_frame (some f) frames = f ∷ frames

abbrev pub after :
    Outcome → (Decoder → Option (List VideoFrame × Decoder)) → Option (List VideoFrame × Decoder)
after panicked continue = none
after (done frame d) continue = elim (continue d) [
  | none ↦ none
  | some (frames, d') ↦ some (with_frame frame frames, d')
]

unfoldable pub receive : List Arrival → Decoder → Option (List VideoFrame × Decoder)
receive [] d = some ([], d)
receive (a ∷ arrivals) d = after (process_udp_chunk a.now a.clock a.packet d) (receive arrivals)

module _ (seq : ℕ) (parts : List (List ℕ)) where
  -- Every packet that parses to a header of the sequence number carries a part of the unit.
  abbrev pub CarriesParts : Arrival → Type 0
  CarriesParts a =
      (codec : Codec) (h : Header) → parse_header codec a.packet ≡ some h → IsGenuine seq parts h

  assemble-Faithful :
      (now clock last_seq : ℕ) (h : Header) (d : Decoder)
      → WellFormed d
      → IsGood h
      → IsGenuine seq parts h
      → All (IsAuthentic seq parts) d.assemblies
      → Holds (Faithful seq parts) (assemble now clock last_seq h d)
  unfolding assemble drop_expired
  assemble-Faithful now clock last_seq h d w good g a =
      let kept =
        All-retain (IsAuthentic seq parts) (IsAuthentic seq parts) (is_retained now last_seq)
          d.assemblies (λ x _ k. k) a in
      finish-Faithful seq parts clock h _ _ kept
        (store_chunk-Keeps now h _ _ (drop_expired-WellFormed now last_seq d w) good refl)
        (store_chunk-IsAuthentic seq parts now h _ _ g refl kept)

  route-Faithful :
      (now clock last_seq : ℕ) (d : Decoder) (checked : Option Decoder) (header : Option Header)
      → All (IsAuthentic seq parts) d.assemblies
      → ((d' : Decoder)
          → checked ≡ some d'
          → WellFormed d' × All (IsAuthentic seq parts) d'.assemblies)
      → ((h : Header) → header ≡ some h → IsGood h × IsGenuine seq parts h)
      → Holds (Faithful seq parts) (route now clock last_seq d checked header)
  unfolding route ignored
  route-Faithful now clock last_seq d none header a c g = (a, tt)
  route-Faithful now clock last_seq d (some d') none a c g = ((c d' refl).1, tt)
  route-Faithful now clock last_seq d (some d') (some h) a c g =
      assemble-Faithful now clock last_seq h d' (c d' refl).0 (g h refl).0 (g h refl).1
        (c d' refl).1

  check_sequence-IsAuthentic :
      (s : ℕ) (d d' : Decoder)
      → All (IsAuthentic seq parts) d.assemblies
      → check_sequence s d ≡ some d'
      → All (IsAuthentic seq parts) d'.assemblies
  unfolding reset_decoder_pipeline
  check_sequence-IsAuthentic s d d' a e =
      let P : Decoder → Type 0 = λ x. All (IsAuthentic seq parts) x.assemblies in
      elim (check_sequence-cases s d d' e) [
        | inl same ↦ subst P same a
        | inr reset ↦ subst P reset tt
      ]

  process_coded-Faithful :
      (a : Arrival) (d : Decoder) (codec : Option Codec)
      → WellFormed d
      → 16 < length a.packet
      → CarriesParts a
      → All (IsAuthentic seq parts) d.assemblies
      → Holds (Faithful seq parts) (process_coded a.now a.clock a.packet d codec)
  unfolding process_coded ignored
  process_coded-Faithful a d none w long g k = (k, tt)
  process_coded-Faithful a d (some codec) w long g k =
      route-Faithful a.now a.clock d.last_completed_seq d _ _ k
        (λ d' e. (
          check_sequence-WellFormed (sequence_of a.packet) d d' w e,
          check_sequence-IsAuthentic (sequence_of a.packet) d d' k e,
        ))
        (λ h e. (parse_header-IsGood codec a.packet h long e, g codec h e))

  process_udp_chunk-Faithful :
      (a : Arrival) (d : Decoder)
      → WellFormed d
      → CarriesParts a
      → All (IsAuthentic seq parts) d.assemblies
      → Holds (Faithful seq parts) (process_udp_chunk a.now a.clock a.packet d)
  unfolding process_udp_chunk reset_decoder_pipeline ignored
  process_udp_chunk-Faithful a d w g k = elim (Bool-cases (is_stop a.packet)) [
    | inl stop ↦ rw stop (tt, λ n _. absurd (n refl))
    | inr other ↦ rw other (elim (Bool-cases (leb (length a.packet) legacy_packet_header_bytes)) [
      | inl short ↦ rw short (k, tt)
      | inr long ↦ rw long (
          process_coded-Faithful a (count_chunk d) _
            (WellFormed-same d _ (unfold count_chunk in refl) w) (ground arith) g
            (unfold count_chunk in k))
    ])
  ]

  -- What a run ends with: no panic, a well-formed decoder, and whole frames only.
  abbrev pub RunIsWhole : Option (List VideoFrame × Decoder) → Type 0
  RunIsWhole none = ⊥
  RunIsWhole (some (frames, d)) = WellFormed d × All (λ f. IsWhole seq parts (some f)) frames

  after-IsWhole :
      (frame : Option VideoFrame) (r : Option (List VideoFrame × Decoder))
      → IsWhole seq parts frame
      → RunIsWhole r
      → RunIsWhole (elim r [ none ↦ none | some (frames, d') ↦ some (with_frame frame frames, d') ])
  after-IsWhole frame none f r = r
  after-IsWhole none (some (frames, d)) f r = r
  after-IsWhole (some x) (some (frames, d)) f r = (r.0, (f, r.1))

  continue-IsWhole :
      (o : Outcome) (continue : Decoder → Option (List VideoFrame × Decoder))
      → Holds Safe o
      → Holds (Faithful seq parts) o
      → ((d : Decoder)
          → WellFormed d
          → All (IsAuthentic seq parts) d.assemblies
          → RunIsWhole (continue d))
      → RunIsWhole (after o continue)
  continue-IsWhole panicked continue s f go = s
  continue-IsWhole (done frame d) continue s f go =
      after-IsWhole frame (continue d) f.1 (go d s.0 f.0)

  -- Whatever arrives, in whatever order and with whatever repetitions, the run does not panic, and
  -- each frame of a sequence number whose packets carry the parts of one access unit is that unit,
  -- if the decoder starts well formed and holds no other chunk of the number.
  pub receive-IsWhole :
      (arrivals : List Arrival) (d : Decoder)
      → WellFormed d
      → All (IsAuthentic seq parts) d.assemblies
      → All CarriesParts arrivals
      → RunIsWhole (receive arrivals d)
  unfolding receive
  receive-IsWhole [] d w k g = (w, tt)
  receive-IsWhole (a ∷ arrivals) d w k g =
      continue-IsWhole (process_udp_chunk a.now a.clock a.packet d) (receive arrivals)
        (process_udp_chunk-Safe a.now a.clock a.packet d w) (process_udp_chunk-Faithful a d w g.0 k)
        (λ d' w' k'. receive-IsWhole arrivals d' w' k' g.1)
