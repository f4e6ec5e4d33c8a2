-- ===== src/Admin/Reading/Whole.antt =====
-- A request that is read is a piece of the stream, however the stream came in chunks.
use llrdc_casting.Admin.{Headers, headers_from, max_request_bytes, false}
use llrdc_casting.Admin.Reading.{
  Incoming, Head, found, too_large, closed, gone, refused, read, separator, read_head, read_content,
  content_length, with_body, after_head, read_request, request_of, first_of, rest_of, suc,
}
use llrdc_casting.Http.{lines_from}
use llrdc_casting.Prelude.{
  ℕ, ◌+◌, ◌≤◌, ◌≡◌, refl, sym, ◌∙◌, ap, List, [], ◌∷◌, ◌++◌, take, drop, length, if_cases, ltb,
  append_assoc, arith, subst, take-drop, length-take, length-drop, take-length-append, ltb_false→le,
}
use llrdc_casting.Admin.Reading.Heads.{
  concat_all, HeadOf, Extends, read_head-HeadOf, read_content-Extends,
}

drop-separator :
    (before after : List ℕ) → drop (length before + 4) (before ++ (separator ++ after)) ≡ after
drop-separator [] after = refl
drop-separator (b ∷ before) after =
    let step : suc (length before) + 4 ≡ suc (length before + 4) = omega arith in
    rw step (drop-separator before after)

-- A request that is read: the stream is its header, an empty line, its body and the rest. The
-- headers are those of the header's lines, and the body has the length that they give.
pub IsPiece : List ℕ → Incoming → Type 0
IsPiece stream gone = Unit
IsPiece stream (refused answer) = Unit
IsPiece stream (read request) =
    (before rest : List ℕ) × (stream ≡ (before ++ (separator ++ (request.body ++ rest))))
    × (request.headers ≡ headers_from [] (rest_of (lines_from [] before)))
    × (length request.body ≡ content_length request.headers)
    × (content_length request.headers ≤ max_request_bytes)

-- Where there are enough bytes, the body has its size.
length_of_body :
    (start : ℕ) (full : List ℕ) (size : ℕ)
    → ltb (length full) (start + size) ≡ false
    → length (take size (drop start full)) ≡ size
length_of_body start full size enough =
    let room : start + size ≤ length full = ground arith in
    omega (arith, length-take size (drop start full), length-drop start full)

module _ (stream before after request : List ℕ)
    (split : request ≡ (before ++ (separator ++ after))) where
  full_split :
      (full more : List ℕ)
      → full ≡ (request ++ more)
      → full ≡ (before ++ (separator ++ (after ++ more)))
  full_split full more longer =
      longer ∙ ap (λ xs. xs ++ more) split ∙ append_assoc before (separator ++ after) more

  after_separator :
      (full more : List ℕ)
      → full ≡ (request ++ more)
      → drop (length before + 4) full ≡ (after ++ more)
  after_separator full more longer =
      ap (drop (length before + 4)) (full_split full more longer)
      ∙ drop-separator before (after ++ more)

  -- The body is cut out of what follows the empty line.
  with_body-IsPiece :
      (size : ℕ) (line : List ℕ) (headers : Headers) (full : List ℕ)
      → headers ≡ headers_from [] (rest_of (lines_from [] before))
      → size ≡ content_length headers
      → size ≤ max_request_bytes
      → Extends request stream full
      → IsPiece stream (with_body (length before + 4) size line headers full)
  unfolding with_body request_of IsPiece Extends
  with_body-IsPiece size line headers full same sized fits (more, rest, longer, whole) =
      if_cases (IsPiece stream) (ltb (length full) (length before + 4 + size)) (λ short. tt)
        (λ enough. (
          before,
          drop size (after ++ more) ++ rest,
          sym whole
              ∙ ap (λ xs. xs ++ rest) (full_split full more longer)
              ∙ append_assoc before (separator ++ (after ++ more)) rest
              ∙ ap (λ xs. before ++ (separator ++ xs))
                  (ap (λ xs. xs ++ rest) (sym (take-drop size (after ++ more)))
                    ∙ append_assoc (take size (after ++ more)) (drop size (after ++ more)) rest
                    ∙ ap (λ xs. take size xs ++ (drop size (after ++ more) ++ rest))
                        (sym (after_separator full more longer))),
          same,
          length_of_body (length before + 4) full size enough ∙ sized,
          subst (λ n. n ≤ max_request_bytes) sized fits,
        ))

at_end :
    (stream before after request : List ℕ) (chunks : List (List ℕ))
    → request ≡ (before ++ (separator ++ after))
    → (request ++ concat_all chunks) ≡ stream
    → IsPiece stream (after_head (found (length before) request chunks))
unfolding after_head
at_end stream before after request chunks split whole =
    let header : take (length before) request ≡ before =
      ap (take (length before)) split ∙ take-length-append before (separator ++ after) in
    let headers_of : List ℕ → Headers = λ text. headers_from [] (rest_of (lines_from [] text)) in
    let headers = headers_of (take (length before) request) in
    let size = content_length headers in
    if_cases (IsPiece stream) (ltb max_request_bytes size) (λ large. unfold IsPiece in tt)
      (λ fits.
        with_body-IsPiece stream before after request split size
          (first_of (lines_from [] (take (length before) request)) []) headers _
          (ap headers_of header) refl (ltb_false→le _ _ fits)
          (subst (λ s. Extends request s (read_content (length before + 4 + size) request chunks))
            whole (read_content-Extends (length before + 4 + size) request chunks)))

after_head-IsPiece :
    (stream : List ℕ) (head : Head) → HeadOf stream head → IsPiece stream (after_head head)
unfolding after_head
after_head-IsPiece stream too_large h = unfold IsPiece in tt
after_head-IsPiece stream closed h = unfold IsPiece in tt
after_head-IsPiece stream (found index request chunks) h = go (unfold HeadOf in h)
  where
    go :
        (before after : List ℕ) × (request ≡ (before ++ (separator ++ after)))
          × (length before ≡ index)
          × ((request ++ concat_all chunks) ≡ stream)
        → IsPiece stream (after_head (found index request chunks))
    go (before, after, split, size, whole) =
        subst (λ k. IsPiece stream (after_head (found k request chunks))) size
          (at_end stream before after request chunks split whole)

-- However a stream comes in chunks, a request that is read from it stands in it: the stream is the
-- request's header, an empty line, the body and a rest. The headers are those of the header's
-- lines, and the body has the length that they give, which is at most the limit.
pub read_request-IsPiece :
    (first : List ℕ) (chunks : List (List ℕ))
    → IsPiece (first ++ concat_all chunks) (read_request first chunks)
unfolding read_request
read_request-IsPiece first chunks =
    after_head-IsPiece (first ++ concat_all chunks) (read_head first chunks)
      (read_head-HeadOf first chunks)
