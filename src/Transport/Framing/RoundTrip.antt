-- ===== src/Transport/Framing/RoundTrip.antt =====
-- Messages that are written are read back, and the fuel of the loop of reads is enough.
use llrdc_casting.Transport.Framing.{
  read_body, read_exact, read_message, messages_from, read_messages, write_control_message,
  length_prefix_bytes,
}
use llrdc_casting.Prelude.Bytes.{from_be_bytes, u32_to_be_bytes, from_be_bytes-u32_to_be_bytes}
use llrdc_casting.Prelude.{
  append_assoc, ℕ, List, ltb, Option, length, ◌≡◌, false, some, drop, ◌≤◌, ◌<◌, ◌+◌, none,
  length-drop, arith, zero, suc, Bool-cases, Option-cases, [], ap, ◌∙◌, ◌∷◌, All, ◌++◌, inl,
  length-append, sym, ◌==◌, ◌^◌, refl, inr, take-length-append, ltb→lt, ◌||◌, drop-length-append,
}

read_exact-some :
    (n : ℕ) (xs m rest : List ℕ) → read_exact n xs ≡ some (m, rest) → length rest + n ≡ length xs
read_exact-some n xs m rest h = elim (Bool-cases (ltb (length xs) n)) [
  | inl short ↦ cc (rw short at h)
  | inr long ↦
      let same : rest ≡ drop n xs = cc (rw long at h) in
      rw (same, length-drop n xs) (ground (arith, long))
]

read_exact-append : (xs ys : List ℕ) → read_exact (length xs) (xs ++ ys) ≡ some (xs, ys)
read_exact-append xs ys = rw (long, take-length-append xs ys, drop-length-append xs ys) refl
  where
    long : ltb (length (xs ++ ys)) (length xs) ≡ false
    long = rw (length-append xs ys) (ground arith)

read_body-shorter :
    (limit : ℕ) (prefix after m rest : List ℕ)
    → read_body limit (some (prefix, after)) ≡ some (m, rest)
    → length rest ≤ length after
unfolding read_body
read_body-shorter limit prefix after m rest h =
    elim (Bool-cases (from_be_bytes prefix == 0 || ltb limit (from_be_bytes prefix))) [
      | inl refused ↦ cc (rw refused at h)
      | inr fine ↦
          let sum = read_exact-some (from_be_bytes prefix) after m rest (rw fine at h) in
          omega (arith, sum)
    ]

-- A message takes its prefix off the stream at least.
read_message-shorter :
    (limit : ℕ) (bytes m rest : List ℕ)
    → read_message limit bytes ≡ some (m, rest)
    → length rest < length bytes
unfolding read_message
read_message-shorter limit bytes m rest h =
    elim (Option-cases (read_exact length_prefix_bytes bytes)) [
      | inl ended ↦ cc (rw ended at h)
      | inr (p, found) ↦
          let sum = read_exact-some length_prefix_bytes bytes p.0 p.1 found in
          let body = read_body-shorter limit p.0 p.1 m rest (rw found at h) in
          omega (arith, sum, body)
    ]

-- What a round of the loop gives for the outcome of its read.
abbrev round : ℕ → ℕ → Option (List ℕ × List ℕ) → List (List ℕ)
round f limit none = []
round f limit (some p) = p.0 ∷ messages_from f limit p.1

messages_from-round :
    (f limit : ℕ) (bytes : List ℕ) {o : Option (List ℕ × List ℕ)}
    → read_message limit bytes ≡ o
    → messages_from (suc f) limit bytes ≡ round f limit o
unfolding messages_from
messages_from-round f limit bytes h = ap (round f limit) h

messages_from-empty :
    (f limit : ℕ) (bytes : List ℕ) → length bytes ≤ 0 → messages_from f limit bytes ≡ []
unfolding messages_from
messages_from-empty zero limit bytes h = refl
messages_from-empty (suc f) limit bytes h = elim (Option-cases (read_message limit bytes)) [
  | inl ended ↦ messages_from-round f limit bytes ended
  | inr (p, found) ↦
      let shorter = read_message-shorter limit bytes p.0 p.1 found in
      absurd (omega (arith, shorter, h))
]

-- Two amounts of fuel that reach the length of the stream give the same messages.
messages_from-enough :
    (f g limit : ℕ) (bytes : List ℕ)
    → length bytes ≤ f
    → length bytes ≤ g
    → messages_from f limit bytes ≡ messages_from g limit bytes
messages_from-enough zero g limit bytes hf hg =
    messages_from-empty zero limit bytes hf ∙ sym (messages_from-empty g limit bytes hf)
messages_from-enough (suc f) zero limit bytes hf hg =
    messages_from-empty (suc f) limit bytes hg ∙ sym (messages_from-empty zero limit bytes hg)
messages_from-enough (suc f) (suc g) limit bytes hf hg =
    elim (Option-cases (read_message limit bytes)) [
      | inl ended ↦
          messages_from-round f limit bytes ended ∙ sym (messages_from-round g limit bytes ended)
      | inr (p, found) ↦
          let shorter = read_message-shorter limit bytes p.0 p.1 found in
          messages_from-round f limit bytes found
          ∙ ap (◌∷◌ p.0)
              (messages_from-enough f g limit p.1 (omega (arith, shorter)) (omega (arith, shorter)))
          ∙ sym (messages_from-round g limit bytes found)
    ]

-- The loop stops because a read fails, never for want of fuel.
read_messages-step :
    (limit : ℕ) (bytes m rest : List ℕ)
    → read_message limit bytes ≡ some (m, rest)
    → read_messages limit bytes ≡ m ∷ read_messages limit rest
unfolding read_messages
read_messages-step limit bytes m rest h =
    let shorter = read_message-shorter limit bytes m rest h in
    messages_from-enough (length bytes) (suc (length bytes)) limit bytes (omega arith) (omega arith)
    ∙ messages_from-round (length bytes) limit bytes h
    ∙ ap (◌∷◌ m) (
        messages_from-enough (length bytes) (length rest) limit rest (omega (arith, shorter))
          (omega arith))

read_body-exact :
    (limit : ℕ) (payload tail prefix : List ℕ)
    → from_be_bytes prefix ≡ length payload
    → 0 < length payload
    → length payload ≤ limit
    → read_body limit (some (prefix, payload ++ tail)) ≡ some (payload, tail)
unfolding read_body
read_body-exact limit payload tail prefix size positive fits =
    rw (size, fine) (read_exact-append payload tail)
  where
    fine : (length payload == 0 || ltb limit (length payload)) ≡ false
    fine = ground arith

read_message-write_control_message :
    (limit : ℕ) (payload written tail : List ℕ)
    → write_control_message payload ≡ some written
    → 0 < length payload
    → length payload ≤ limit
    → read_message limit (written ++ tail) ≡ some (payload, tail)
unfolding write_control_message read_message
read_message-write_control_message limit payload written tail h positive fits =
    elim (Bool-cases (ltb (length payload) (2 ^ 32))) [
      | inl small ↦
          let same : written ≡ (prefix ++ payload) = cc (rw small at h) in
          rw same (
            ap (read_body limit) (read_exact-append prefix (payload ++ tail))
            ∙ read_body-exact limit payload tail prefix
                (from_be_bytes-u32_to_be_bytes (length payload) (ltb→lt _ _ small)) positive fits)
      | inr big ↦ cc (rw big at h)
    ]
  where
    prefix : List ℕ
    prefix = u32_to_be_bytes (length payload)

abbrev join_written : Option (List ℕ) → Option (List ℕ) → Option (List ℕ)
join_written (some a) (some b) = some (a ++ b)
join_written _ _ = none

join_written-some :
    (x y : Option (List ℕ)) {w : List ℕ}
    → join_written x y ≡ some w
    → (a b : List ℕ) × (x ≡ some a) × (y ≡ some b) × (w ≡ (a ++ b))
join_written-some (some a) (some b) h = (a, b, refl, refl, cc h)
join_written-some (some a) none h = cc h
join_written-some none y h = cc h

-- The messages of a writer, one after the other, unless one is too long.
abbrev pub write_all : List (List ℕ) → Option (List ℕ)
write_all [] = some []
write_all (p ∷ ps) = join_written (write_control_message p) (write_all ps)

abbrev pub Fits : ℕ → List ℕ → Type 0
Fits limit p = (0 < length p) × (length p ≤ limit)

-- Whatever the messages, if each has a byte at least and is within the reader's limit, what is
-- written of them is read back as they were, followed by what the rest of the stream holds.
pub read_messages-write_all :
    (limit : ℕ) (ps : List (List ℕ)) (written tail : List ℕ)
    → All (Fits limit) ps
    → write_all ps ≡ some written
    → read_messages limit (written ++ tail) ≡ (ps ++ read_messages limit tail)
read_messages-write_all limit [] written tail fit h =
    let nothing : written ≡ [] = cc h in rw nothing refl
read_messages-write_all limit (p ∷ ps) written tail fit h =
    let (a, b, first, rest, whole) = join_written-some (write_control_message p) (write_all ps) h in
    let here = read_message-write_control_message limit p a (b ++ tail) first fit.0.0 fit.0.1 in
    rw whole (
      ap (read_messages limit) (append_assoc a b tail)
      ∙ read_messages-step limit (a ++ (b ++ tail)) p (b ++ tail) here
      ∙ ap (◌∷◌ p) (read_messages-write_all limit ps b tail fit.1 rest))
