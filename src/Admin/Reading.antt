-- ===== src/Admin/Reading.antt =====
-- How the portal reads a request (src/admin.rs, the first half of `handle_http`): the reads up to
-- the empty line, the headers, and the reads of a body of the length that they give. The reads of a
-- connection are a list of chunks; an empty chunk, the end of the list and a failed read alike end it.
pub mod Heads
pub mod Whole
use llrdc_casting.Admin.{
  Headers, Request, Answer, get_header, headers_from, max_request_bytes, json, text, error,
}
use llrdc_casting.Config.{parse_unsigned}
use llrdc_casting.Http.{lines_from, words_from}
use llrdc_casting.Prelude.Slices.{starts_with}
use llrdc_casting.Prelude.Text.{codes}
use mathlib.Core.Option
use llrdc_casting.Prelude.{
  ℕ, suc, ◌+◌, ◌-◌, ◌^◌, ◌==◌, ltb, leb, List, [], ◌∷◌, ◌++◌, Option, none, some, if◌then◌else◌,
  length, take, drop, unwrap_or,
}

abbrev pub separator : List ℕ
separator = 13 ∷ 10 ∷ 13 ∷ 10 ∷ []

-- The place of the first empty line.
header_end : List ℕ → Option ℕ
header_end [] = none
header_end (c ∷ cs) =
    if starts_with separator (c ∷ cs) then some 0 else Option.map suc (header_end cs)

pub data Head : Type 0 where
  found : ℕ → List ℕ → List (List ℕ) → Head
  too_large : Head
  closed : Head

-- The loop that looks for the empty line, with what has been read.
pub read_head : List ℕ → List (List ℕ) → Head
unfolding header_end
read_head request [] = elim (header_end request) [
  | some i ↦ found i request []
  | none ↦ if leb max_request_bytes (length request) then too_large else closed
]
read_head request (chunk ∷ chunks) = elim (header_end request) [
  | some i ↦ found i request (chunk ∷ chunks)
  | none ↦
      if leb max_request_bytes (length request)
      then too_large
      else if length chunk == 0
      then closed
      else read_head (request ++ chunk) chunks
]

-- The loop that reads until there are `total` bytes.
pub read_content : ℕ → List ℕ → List (List ℕ) → List ℕ
read_content total request [] = request
read_content total request (chunk ∷ chunks) =
    let rest = read_content total (request ++ chunk) chunks in
    if ltb (length request) total then (if length chunk == 0 then request else rest) else request

first_of : List (List ℕ) → List ℕ → List ℕ
first_of [] fallback = fallback
first_of (x ∷ xs) fallback = x

rest_of : List (List ℕ) → List (List ℕ)
rest_of [] = []
rest_of (x ∷ xs) = xs

-- The length of the body: zero where the header is missing or is no number.
content_length : Headers → ℕ
unfolding get_header parse_unsigned
content_length headers =
    unwrap_or
      (elim (get_header (codes "content-length") headers) [
        | none ↦ none
        | some value ↦ parse_unsigned (2 ^ 64 - 1) value
      ])
      0

pub data Incoming : Type 0 where
  gone : Incoming
  refused : Answer → Incoming
  read : Request → Incoming

request_of : List ℕ → Headers → List ℕ → Request
unfolding first_of rest_of words_from
request_of line headers body = record {
  method = first_of (words_from [] line) [];
  path = first_of (rest_of (words_from [] line)) (codes "/");
  headers = headers;
  body = body;
}

-- What follows once the body has been waited for.
with_body : ℕ → ℕ → List ℕ → Headers → List ℕ → Incoming
unfolding request_of
with_body body_start size line headers request =
    if ltb (length request) (body_start + size)
    then refused (json "400 Bad Request" (error "incomplete_body"))
    else read (request_of line headers (take size (drop body_start request)))

after_head : Head → Incoming
unfolding lines_from first_of rest_of headers_from content_length read_content with_body
after_head closed = gone
after_head too_large = refused (text "413 Payload Too Large" "Payload Too Large")
after_head (found index request chunks) =
    let lines = lines_from [] (take index request) in
    let headers = headers_from [] (rest_of lines) in
    let size = content_length headers in
    if ltb max_request_bytes size
    then refused (json "413 Payload Too Large" (error "payload_too_large"))
    else with_body (index + 4) size (first_of lines []) headers
        (read_content (index + 4 + size) request chunks)

-- A request whose first chunk has been read.
unfoldable pub read_request : List ℕ → List (List ℕ) → Incoming
unfolding read_head after_head
read_request first chunks = after_head (read_head first chunks)
