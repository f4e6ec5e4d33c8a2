-- ===== src/Reassembly/Assemble/Sequence.antt =====
-- Sequence numbers: what a call that emits a frame leaves.
-- A frame other than the stop frame has the call's number, which becomes the last completed one,
-- and every assembly left is newer.
use llrdc_casting.Reassembly.Header.Laws.{parse_header-IsGood, parse_header-seq}
use llrdc_casting.Reassembly.Assemble.Entries.{IsGood}
use llrdc_casting.Reassembly.Assemble.Safety.{
  Holds, check_sequence-WellFormed, store_chunk-Keeps, WellFormed-same,
}
use llrdc_casting.Reassembly.Assemble.Invariant.{Keeps, WellFormed, drop_expired-WellFormed}
use llrdc_casting.Reassembly.Assemble.{
  complete, finish, process_udp_chunk, purge, ignored, Codec, process_coded, VideoFrame, Decoder,
  Header, route, Assembly, Stored, sequence_of, is_complete, count_chunk, emit, stored, is_stop,
  mismatch, panic, codec_of, chunk_lengths, max_access_unit_bytes, join_chunks, assemble,
  legacy_packet_header_bytes,
}
use llrdc_casting.Prelude.{
  ℕ, Option, List, some, ◌≡◌, ◌≢◌, find, none, arith, All, ◌<◌, ==_iff, and-left, length, ◌==◌,
  refl, find-holds, take, Bool-cases, [], ltb→lt, ◌||◌, ltb, inl, inr, ◌∷◌, All-retain, leb,
  remove_first, subst,
}

abbrev pub Advances : ℕ → Option VideoFrame → Decoder → Type 0
Advances seq none d = Unit
Advances seq (some f) d =
    f.codec ≢ none
    → (f.seq ≡ seq) × (d.last_completed_seq ≡ seq) × All (λ e. seq < e.seq) d.assemblies

All-trivial : (es : List Assembly) → All (λ _. Unit {0}) es
All-trivial [] = tt
All-trivial (e ∷ es) = (tt, All-trivial es)

emit-Advances :
    (clock seq : ℕ) (e : Assembly) (d : Decoder) (o : Option (List ℕ))
    → e.seq ≡ seq
    → Holds (Advances seq) (emit clock e o (purge seq e d))
unfolding emit purge
emit-Advances clock seq e d none own = tt
emit-Advances clock seq e d (some bytes) own = λ _. (
  own,
  own,
  All-retain (λ _. Unit {0}) (λ x. seq < x.seq) (λ x. ltb e.seq x.seq)
      (remove_first (is_complete seq) d.assemblies)
      (λ x later _. omega (arith, own, ltb→lt e.seq x.seq later))
      (All-trivial (remove_first (is_complete seq) d.assemblies)),
)

complete-Advances :
    (clock seq : ℕ) (d : Decoder) (o : Option Assembly)
    → find (is_complete seq) d.assemblies ≡ o
    → Holds (Advances seq) (complete clock seq o d)
unfolding complete purge ignored
complete-Advances clock seq d none found = tt
complete-Advances clock seq d (some e) found =
    let own : e.seq ≡ seq = (==_iff e.seq seq).0 (
      and-left (e.seq == seq) (e.received == e.total_chunks)
        (find-holds (is_complete seq) d.assemblies found)) in
    elim (Bool-cases
      (chunk_lengths e.chunks == 0 || ltb max_access_unit_bytes (chunk_lengths e.chunks))) [
        | inl out ↦ rw out tt
        | inr fits ↦ rw fits (emit-Advances clock seq e d (join_chunks e.chunks) own)
      ]

finish-Advances :
    (clock : ℕ) (h : Header) (d : Decoder) (r : Stored)
    → Keeps h.seq r
    → Holds (Advances h.seq) (finish clock h d r)
unfolding finish ignored
finish-Advances clock h d mismatch k = tt
finish-Advances clock h d panic k = k
finish-Advances clock h d (stored d') k = complete-Advances clock h.seq d' _ refl

assemble-Advances :
    (now clock last_seq : ℕ) (h : Header) (d : Decoder)
    → WellFormed d
    → IsGood h
    → Holds (Advances h.seq) (assemble now clock last_seq h d)
unfolding assemble
assemble-Advances now clock last_seq h d w g =
    finish-Advances clock h _ _
      (store_chunk-Keeps now h _ _ (drop_expired-WellFormed now last_seq d w) g refl)

route-Advances :
    (now clock last_seq seq : ℕ) (d : Decoder) (checked : Option Decoder) (header : Option Header)
    → ((d' : Decoder) → checked ≡ some d' → WellFormed d')
    → ((h : Header) → header ≡ some h → IsGood h × (h.seq ≡ seq))
    → Holds (Advances seq) (route now clock last_seq d checked header)
unfolding route ignored
route-Advances now clock last_seq seq d none header c g = tt
route-Advances now clock last_seq seq d (some d') none c g = tt
route-Advances now clock last_seq seq d (some d') (some h) c g =
    subst (λ n. Holds (Advances n) (assemble now clock last_seq h d')) (g h refl).1
      (assemble-Advances now clock last_seq h d' (c d' refl) (g h refl).0)

-- A call that returns a frame other than the stop frame, from a well-formed decoder, returns the
-- frame of its packet's sequence number, makes that the last completed one, and leaves only newer
-- assemblies in flight.
pub process_udp_chunk-Advances :
    (now clock : ℕ) (packet : List ℕ) (d : Decoder)
    → WellFormed d
    → Holds (Advances (sequence_of packet)) (process_udp_chunk now clock packet d)
unfolding process_udp_chunk process_coded ignored
process_udp_chunk-Advances now clock packet d w = elim (Bool-cases (is_stop packet)) [
  | inl stop ↦ rw stop (λ n. absurd (n refl))
  | inr other ↦ rw other (elim (Bool-cases (leb (length packet) legacy_packet_header_bytes)) [
    | inl short ↦ rw short tt
    | inr long ↦ rw long (coded (codec_of (take 4 packet)) (ground arith))
  ])
]
  where
    coded :
        (codec : Option Codec)
        → 16 < length packet
        → Holds
            (Advances (sequence_of packet))
            (process_coded now clock packet (count_chunk d) codec)
    coded none long = tt
    coded (some codec) long =
        route-Advances now clock (count_chunk d).last_completed_seq (sequence_of packet)
          (count_chunk d) _ _
          (λ d' e.
            check_sequence-WellFormed (sequence_of packet) (count_chunk d) d'
              (WellFormed-same d (count_chunk d) (unfold count_chunk in refl) w) e)
          (λ h e. (parse_header-IsGood codec packet h long e, parse_header-seq codec packet h e))
