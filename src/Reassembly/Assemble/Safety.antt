-- ===== src/Reassembly/Assemble/Safety.antt =====
-- Every call keeps the decoder well formed, does not panic, and returns frames within the limits.
use llrdc_casting.Reassembly.Header.Laws.{parse_header-IsGood}
use llrdc_casting.Reassembly.Assemble.Entries.{
  IsSound, filled-le-length, IsGood, join_chunks-filled,
}
use llrdc_casting.Reassembly.Types.{max_width, max_height}
use llrdc_casting.Reassembly.Assemble.Invariant.{
  WellFormed, IsStored, All-find-none, IsPending, Distinct-retain, Distinct-remove_first, Keeps,
  drop_expired-WellFormed, store_slot-Keeps, evict-WellFormed, append_entry-IsStored,
}
use llrdc_casting.Reassembly.Assemble.{
  purge, complete, process_udp_chunk, VideoFrame, Assembly, emit, Decoder, ignored, Outcome, Codec,
  is_complete, done, panicked, max_access_unit_bytes, matches_entry, evict, reset_decoder_pipeline,
  store_chunk, finish, assemble, check_sequence, route, process_coded, chunk_lengths, Header,
  sequence_of, Stored, is_stop, max_in_flight, has_seq, join_chunks, stored, mismatch,
  legacy_packet_header_bytes, panic, count_chunk, same_shape, same_timing,
}
use llrdc_casting.Prelude.{
  Option, ℕ, List, some, All, ◌≡◌, [], false, remove_first, find, ◌≤◌, ◌≢◌, Bool, ltb, none, arith,
  ◌<◌, ◌∷◌, length-retain-le, length, length-remove_first-le, All-retain, All-remove_first, ltb→lt,
  find-holds, if◌then◌else◌, All-find, Bool-cases, ◌==◌, true, inl, ◌||◌, refl, All-drop, inr, leb,
  ◌&&◌, and-left, get_elem?, subst, All-map, ◌⊎◌,
}

abbrev pub Holds : (Option VideoFrame → Decoder → Type 0) → Outcome → Type 0
Holds P (done frame d) = P frame d
Holds P panicked = ⊥

-- A frame is the stop frame, or has a codec, dimensions within it and 1 byte to 8 MiB of data.
abbrev pub IsFrame : Option VideoFrame → Type 0
IsFrame none = Unit
IsFrame (some f) = FrameFits f.codec f
  where
    FrameFits : Option Codec → VideoFrame → Type 0
    FrameFits none f = (f.seq ≡ 0) × (f.access_unit ≡ [])
    FrameFits (some c) f =
        (f.width ≤ max_width c)
        × (f.height ≤ max_height c)
        × (0 < length f.access_unit)
        × (length f.access_unit ≤ max_access_unit_bytes)

abbrev pub Safe : Option VideoFrame → Decoder → Type 0
Safe frame d = WellFormed d × IsFrame frame

IsPending-of_incomplete :
    (seq : ℕ) (es : List Assembly)
    → All (λ e. is_complete seq e ≡ false) es
    → All (λ e. e.seq ≢ seq → IsPending e) es
    → All IsSound es
    → All IsPending es
IsPending-of_incomplete seq [] incomplete others sound = tt
IsPending-of_incomplete seq (e ∷ es) incomplete others sound = (
  grind
      (arith, incomplete.0, others.0, sound.0.counted, sound.0.indexed, filled-le-length e.chunks),
  IsPending-of_incomplete seq es incomplete.1 others.1 sound.1,
)

-- The counters play no part in the invariant.
pub WellFormed-same : (d d' : Decoder) → d'.assemblies ≡ d.assemblies → WellFormed d → WellFormed d'
WellFormed-same d d' same w = record {
  bounded = rw same w.bounded;
  sound = rw same w.sound;
  pending = rw same w.pending;
  distinct = rw same w.distinct;
}

purge-WellFormed :
    (seq : ℕ) (e : Assembly) (d : Decoder)
    → e.seq ≡ seq
    → IsStored seq d
    → WellFormed (purge seq e d)
unfolding purge
purge-WellFormed seq e d own s =
    let left = remove_first (is_complete seq) d.assemblies in
    let newer : Assembly → Bool = λ entry. ltb e.seq entry.seq in
    record {
      bounded = omega (
        arith,
        s.bounded,
        length-retain-le newer left,
        length-remove_first-le (is_complete seq) d.assemblies,
      );
      sound =
          All-retain IsSound IsSound newer left (λ x _ k. k)
            (All-remove_first IsSound (is_complete seq) d.assemblies s.sound);
      pending =
          All-retain (λ x. x.seq ≢ seq → IsPending x) IsPending newer left
            (λ x later k. k (λ q. omega (arith, ltb→lt e.seq x.seq later)))
            (All-remove_first _ (is_complete seq) d.assemblies s.pending);
      distinct =
          Distinct-retain newer left
            (Distinct-remove_first (is_complete seq) d.assemblies s.distinct);
    }

-- The branch taken once a complete entry is found.
emit_or_ignore-Safe :
    (clock : ℕ) (e : Assembly) (d : Decoder)
    → IsSound e
    → e.received ≡ e.total_chunks
    → WellFormed d
    → Holds Safe (
        if chunk_lengths e.chunks == 0 || ltb max_access_unit_bytes (chunk_lengths e.chunks)
        then ignored d
        else emit clock e (join_chunks e.chunks) d)
unfolding emit ignored
emit_or_ignore-Safe clock e d sound whole w =
    let (bytes, joined, size) =
      join_chunks-filled e.chunks (omega (arith, sound.counted, sound.indexed)) in
    elim (Bool-cases
      (chunk_lengths e.chunks == 0 || ltb max_access_unit_bytes (chunk_lengths e.chunks))) [
        | inl out ↦ rw out (WellFormed-same d _ refl w, tt)
        | inr fits ↦
            rw (fits, joined)
              (
                WellFormed-same d _ refl w,
                (sound.fits_width, sound.fits_height, ground arith, ground arith),
              )
      ]

complete-Safe :
    (clock seq : ℕ) (d : Decoder) (o : Option Assembly)
    → IsStored seq d
    → find (is_complete seq) d.assemblies ≡ o
    → Holds Safe (complete clock seq o d)
unfolding complete emit ignored
complete-Safe clock seq d none s found = (
  record {
    bounded = s.bounded;
    sound = s.sound;
    pending =
        IsPending-of_incomplete seq d.assemblies
          (All-find-none (is_complete seq) d.assemblies found) s.pending s.sound;
    distinct = s.distinct;
  },
  tt,
)
complete-Safe clock seq d (some e) s found =
    let test = find-holds (is_complete seq) d.assemblies found in
    let own : e.seq ≡ seq = ground arith in
    let whole : e.received ≡ e.total_chunks = ground arith in
    let sound = All-find IsSound (is_complete seq) d.assemblies found s.sound in
    let kept = purge-WellFormed seq e d own s in
    emit_or_ignore-Safe clock e (purge seq e d) sound whole kept

matches_entry-index :
    (h : Header) (e : Assembly)
    → IsGood h
    → matches_entry h e ≡ true
    → IsSound e
    → h.chunk_index < length e.chunks
unfolding matches_entry same_shape
matches_entry-index h e g same s =
    let shape = and-left (same_shape h e) (same_timing h e) same in
    let total : e.total_chunks ≡ h.total_chunks = ground arith in
    omega (arith, total, g.index, s.indexed)

evict-fresh :
    (seq : ℕ) (d : Decoder)
    → All (λ x. x.seq ≢ seq) d.assemblies
    → All (λ x. x.seq ≢ seq) (evict d).assemblies
unfolding evict
evict-fresh seq d h = elim (Bool-cases (length d.assemblies == max_in_flight)) [
  | inl full ↦ rw full (All-drop (λ x. x.seq ≢ seq) 1 d.assemblies h)
  | inr room ↦ rw room h
]

pub reset-WellFormed : (d : Decoder) → WellFormed (reset_decoder_pipeline d)
unfolding reset_decoder_pipeline
reset-WellFormed d = record { bounded = omega arith; sound = tt; pending = tt; distinct = tt }

pub store_chunk-Keeps :
    (now : ℕ) (h : Header) (d : Decoder) (o : Option Assembly)
    → WellFormed d
    → IsGood h
    → find (has_seq h.seq) d.assemblies ≡ o
    → Keeps h.seq (store_chunk now h o d)
unfolding store_chunk
store_chunk-Keeps now h d (some e) w g found = elim (Bool-cases (matches_entry h e)) [
  | inl same ↦ rw same (
      store_slot-Keeps h e d (get_elem? e.chunks h.chunk_index) w g found
        (matches_entry-index h e g same
          (All-find IsSound (has_seq h.seq) d.assemblies found w.sound))
        refl)
  | inr other ↦ rw other tt
]
store_chunk-Keeps now h d none w g found =
    let (kept, room) = evict-WellFormed d w in
    append_entry-IsStored now h (evict d) kept room g (
      evict-fresh h.seq d (
        All-map (λ e. has_seq h.seq e ≡ false) (λ x. x.seq ≢ h.seq) d.assemblies
          (λ x f. ground arith) (All-find-none (has_seq h.seq) d.assemblies found)))

finish-Safe :
    (clock : ℕ) (h : Header) (d : Decoder) (r : Stored)
    → WellFormed d
    → Keeps h.seq r
    → Holds Safe (finish clock h d r)
unfolding finish ignored
finish-Safe clock h d mismatch w k = (WellFormed-same d _ refl w, tt)
finish-Safe clock h d panic w k = k
finish-Safe clock h d (stored d') w k = complete-Safe clock h.seq d' _ k refl

assemble-Safe :
    (now clock last_seq : ℕ) (h : Header) (d : Decoder)
    → WellFormed d
    → IsGood h
    → Holds Safe (assemble now clock last_seq h d)
unfolding assemble
assemble-Safe now clock last_seq h d w g =
    let kept = drop_expired-WellFormed now last_seq d w in
    finish-Safe clock h _ _ kept (store_chunk-Keeps now h _ _ kept g refl)

-- The sequence check keeps the decoder or resets it.
pub check_sequence-cases :
    (seq : ℕ) (d d' : Decoder)
    → check_sequence seq d ≡ some d'
    → (d ≡ d') ⊎ (reset_decoder_pipeline d ≡ d')
unfolding check_sequence
check_sequence-cases seq d d' e =
    elim (Bool-cases (leb seq d.last_completed_seq && ltb 0 d.last_completed_seq)) [
      | inl behind ↦ elim (Bool-cases (leb seq 5 || ltb seq d.last_completed_seq)) [
        | inl restart ↦ inr (cc (rw (behind, restart) at e))
        | inr stale ↦ let q : ⊥ = cc (rw (behind, stale) at e) in absurd q
      ]
      | inr ahead ↦ inl (cc (rw ahead at e))
    ]

pub check_sequence-WellFormed :
    (seq : ℕ) (d d' : Decoder) → WellFormed d → check_sequence seq d ≡ some d' → WellFormed d'
check_sequence-WellFormed seq d d' w e = elim (check_sequence-cases seq d d' e) [
  | inl same ↦ subst WellFormed same w
  | inr reset ↦ subst WellFormed reset (reset-WellFormed d)
]

route-Safe :
    (now clock last_seq : ℕ) (d : Decoder) (checked : Option Decoder) (header : Option Header)
    → WellFormed d
    → ((d' : Decoder) → checked ≡ some d' → WellFormed d')
    → ((h : Header) → header ≡ some h → IsGood h)
    → Holds Safe (route now clock last_seq d checked header)
unfolding route ignored
route-Safe now clock last_seq d none header w c g = (WellFormed-same d _ refl w, tt)
route-Safe now clock last_seq d (some d') none w c g = (WellFormed-same d' _ refl (c d' refl), tt)
route-Safe now clock last_seq d (some d') (some h) w c g =
    assemble-Safe now clock last_seq h d' (c d' refl) (g h refl)

process_coded-Safe :
    (now clock : ℕ) (packet : List ℕ) (d : Decoder) (codec : Option Codec)
    → WellFormed d
    → 16 < length packet
    → Holds Safe (process_coded now clock packet d codec)
unfolding process_coded ignored
process_coded-Safe now clock packet d none w long = (WellFormed-same d _ refl w, tt)
process_coded-Safe now clock packet d (some codec) w long =
    route-Safe now clock d.last_completed_seq d _ _ w
      (λ d' e. check_sequence-WellFormed (sequence_of packet) d d' w e)
      (λ h e. parse_header-IsGood codec packet h long e)

-- From a well-formed decoder no packet makes a call panic; the new decoder is well formed, and a
-- frame that is returned is the stop frame or is within its codec's dimensions and the size limit.
pub process_udp_chunk-Safe :
    (now clock : ℕ) (packet : List ℕ) (d : Decoder)
    → WellFormed d
    → Holds Safe (process_udp_chunk now clock packet d)
unfolding process_udp_chunk reset_decoder_pipeline ignored
process_udp_chunk-Safe now clock packet d w = elim (Bool-cases (is_stop packet)) [
  | inl stop ↦ rw stop (reset-WellFormed d, (refl, refl))
  | inr other ↦ rw other (elim (Bool-cases (leb (length packet) legacy_packet_header_bytes)) [
    | inl short ↦ rw short (WellFormed-same d _ refl w, tt)
    | inr long ↦ rw long (
        process_coded-Safe now clock packet (count_chunk d) _
          (WellFormed-same d _ (unfold count_chunk in refl) w) (ground arith))
  ])
]
