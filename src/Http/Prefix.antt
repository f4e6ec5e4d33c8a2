-- ===== src/Http/Prefix.antt =====
-- Reads of a stream of which some bytes have been read ahead.
use llrdc_casting.Http.{
  PrefixStream, poll_read, read_prefixed, take, [], drop, min, ◌∷◌, some, leb, length,
}
use llrdc_casting.Prelude.{
  take-drop, ℕ, List, Option, unwrap_or, ◌++◌, ◌≡◌, ap, Bool-cases, append_assoc, ◌∙◌, refl, inl,
  inr, sym, none,
}

-- What the stream still has to give.
pub contents : PrefixStream → List ℕ
contents s = unwrap_or s.prefix [] ++ s.inner

-- The bytes of a run of reads, each with its room and with what the stream below gives at most,
-- and the stream after them.
pub read_all : List (ℕ × ℕ) → PrefixStream → List ℕ × PrefixStream
read_all [] s = ([], s)
read_all ((n, gives) ∷ reads) s =
    let (bytes, after) = poll_read n gives s in
    let (more, last) = read_all reads after in (bytes ++ more, last)

read_prefixed-contents :
    (o : Option (List ℕ)) (n gives : ℕ) (inner : List ℕ)
    → ((read_prefixed o n gives inner).0 ++ contents (read_prefixed o n gives inner).1)
      ≡ (unwrap_or o [] ++ inner)
unfolding read_prefixed contents
read_prefixed-contents none n gives inner = take-drop (min n gives) inner
read_prefixed-contents (some []) n gives inner = take-drop (min n gives) inner
read_prefixed-contents (some (b ∷ bytes)) n gives inner =
    elim (Bool-cases (leb (length (b ∷ bytes)) n)) [
      | inl all_of_it ↦ rw all_of_it refl
      | inr part ↦ rw part (
          sym (append_assoc (take n (b ∷ bytes)) (drop n (b ∷ bytes)) inner)
          ∙ ap (λ xs. xs ++ inner) (take-drop n (b ∷ bytes)))
    ]

-- Whatever the sizes of the reads and however much the stream below gives at a time, what they have
-- read, followed by what is left, is what there was: the bytes read ahead, then those of the
-- stream below, none lost, none twice and none out of order.
pub read_all-contents :
    (reads : List (ℕ × ℕ)) (s : PrefixStream)
    → ((read_all reads s).0 ++ contents (read_all reads s).1) ≡ contents s
unfolding read_all poll_read contents
read_all-contents [] s = refl
read_all-contents ((n, gives) ∷ reads) s =
    append_assoc (poll_read n gives s).0 (read_all reads (poll_read n gives s).1).0 _
    ∙ ap ((poll_read n gives s).0 ++◌) (read_all-contents reads (poll_read n gives s).1)
    ∙ read_prefixed-contents s.prefix n gives s.inner
