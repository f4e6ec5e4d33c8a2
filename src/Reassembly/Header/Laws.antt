-- ===== src/Reassembly/Header/Laws.antt =====
-- What an accepted header guarantees.
use llrdc_casting.Reassembly.Assemble.Entries.{IsGood}
use llrdc_casting.Prelude.{
  ℕ, ◌<◌, ◌≡◌, some, List, arith, length, take, length-drop, Option, none, refl, Bool-cases, ap,
  inl, sym, inr,
}
use llrdc_casting.Reassembly.Header.{
  Timing, check_header, parse_timing, parse_header, Header, Codec, with_timing, header_of,
  sequence_of, is_acceptable,
}

pub parse_timing-header_len :
    (tag packet : List ℕ) (t : Timing)
    → 16 < length packet
    → parse_timing tag packet ≡ some t
    → t.header_len < length packet
unfolding parse_timing
parse_timing-header_len tag packet t h e = ground arith

check_header-IsGood : (h k : Header) → 0 < length h.payload → check_header h ≡ some k → IsGood k
unfolding check_header
check_header-IsGood h k p e = ground arith

-- An accepted header is within the limits, and its payload is not empty.
pub parse_header-IsGood :
    (codec : Codec) (packet : List ℕ) (h : Header)
    → 16 < length packet
    → parse_header codec packet ≡ some h
    → IsGood h
unfolding parse_header with_timing
parse_header-IsGood codec packet h long e = go (parse_timing (take 4 packet) packet) refl e
  where
    go :
        (o : Option Timing)
        → parse_timing (take 4 packet) packet ≡ o
        → with_timing codec packet o ≡ some h
        → IsGood h
    go none q r = cc r
    go (some t) q r =
        check_header-IsGood (header_of codec packet t) h
          (omega (
            arith,
            parse_timing-header_len (take 4 packet) packet t long q,
            length-drop t.header_len packet,
          ))
          r

check_header-eq : (h k : Header) → check_header h ≡ some k → h ≡ k
unfolding check_header
check_header-eq h k e = elim (Bool-cases (is_acceptable h)) [
  | inl yes' ↦ cc (rw yes' at e)
  | inr no' ↦ cc (rw no' at e)
]

-- The sequence number that a header carries is the one at bytes 4 to 7 of its packet.
pub parse_header-seq :
    (codec : Codec) (packet : List ℕ) (h : Header)
    → parse_header codec packet ≡ some h
    → h.seq ≡ sequence_of packet
unfolding parse_header with_timing
parse_header-seq codec packet h e = go (parse_timing (take 4 packet) packet) e
  where
    go : (o : Option Timing) → with_timing codec packet o ≡ some h → h.seq ≡ sequence_of packet
    go none r = cc r
    go (some t) r =
        ap (λ (k : Header). k.seq) (sym (check_header-eq (header_of codec packet t) h r))
