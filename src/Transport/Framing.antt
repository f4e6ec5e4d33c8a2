-- ===== src/Transport/Framing.antt =====
-- Length-prefixed messages on a stream: how they are read and how they are written. The bytes of a
-- stream are a list, and a read that the end of the stream cuts short fails.
pub mod RoundTrip
use llrdc_casting.Prelude.Bytes.{from_be_bytes, u32_to_be_bytes}
use llrdc_casting.Prelude.{
  ℕ, ◌*◌, List, Option, ◌+◌, if◌then◌else◌, some, [], length, ltb, suc, none, ◌==◌, ◌^◌, take, ◌||◌,
  ◌∷◌, drop, ◌++◌, zero,
}

abbrev pub length_prefix_bytes : ℕ
length_prefix_bytes = 4

abbrev pub max_control_message_bytes : ℕ
max_control_message_bytes = 64 * 1024

-- MAX_ACCESS_UNIT_BYTES and a header of 36 bytes.
abbrev pub max_uni_stream_message_bytes : ℕ
max_uni_stream_message_bytes = 8 * 1024 * 1024 + 36

-- `read_exact`: the bytes and what follows them.
abbrev read_exact : ℕ → List ℕ → Option (List ℕ × List ℕ)
read_exact n bytes = if ltb (length bytes) n then none else some (take n bytes, drop n bytes)

unfoldable pub read_body : ℕ → Option (List ℕ × List ℕ) → Option (List ℕ × List ℕ)
read_body limit none = none
read_body limit (some (prefix, rest)) =
    let size = from_be_bytes prefix in
    if size == 0 || ltb limit size then none else read_exact size rest

-- One message, unless the stream ends or its length is refused.
unfoldable pub read_message : ℕ → List ℕ → Option (List ℕ × List ℕ)
unfolding read_body
read_message limit bytes = read_body limit (read_exact length_prefix_bytes bytes)

-- The messages until a read fails. Each takes four bytes at least, so the length is fuel enough.
messages_from : ℕ → ℕ → List ℕ → List (List ℕ)
messages_from zero limit bytes = []
messages_from (suc fuel) limit bytes = elim (read_message limit bytes) [
  | none ↦ []
  | some p ↦ p.0 ∷ messages_from fuel limit p.1
]

pub read_messages : ℕ → List ℕ → List (List ℕ)
unfolding messages_from
read_messages limit bytes = messages_from (length bytes) limit bytes

-- `write_control_message`, which fails on a length beyond 32 bits.
unfoldable pub write_control_message : List ℕ → Option (List ℕ)
write_control_message payload =
    if ltb (length payload) (2 ^ 32)
    then some (u32_to_be_bytes (length payload) ++ payload)
    else none
