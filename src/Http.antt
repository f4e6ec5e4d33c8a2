-- ===== src/Http.antt =====
-- The HTTP server (src/http_server.rs): a stream that first gives what has been read of it already,
-- and the place that a plain request is redirected to. Requests are lists of code points. Sockets,
-- TLS and the WebSocket library are input and output.
pub mod Prefix
pub mod Pages
pub mod Redirect
mod Tests
use llrdc_casting.Prelude.Ascii.{eq_ignore_ascii_case}
use llrdc_casting.Prelude.Text.{codes, decimal}
use mathlib.Core.List.{reverse}
use llrdc_casting.Prelude.{
  true, false, ℕ, List, Option, take, Bool, if◌then◌else◌, drop_while, none, [], some, ◌∷◌, min,
  leb, ltb, length, ◌++◌, or_else, not, ◌*◌, false, ◌&&◌, drop, ◌||◌, ◌==◌, ◌+◌, is_some, all, ◌-◌,
  is_some_and, suc, ◌/◌, ◌%◌, zero,
}

-- The bytes read ahead, if some may be left, and the bytes of the stream below.
pub record PrefixStream : Type 0 where
  pub prefix : Option (List ℕ)
  pub inner : List ℕ

read_prefixed : Option (List ℕ) → ℕ → ℕ → List ℕ → List ℕ × PrefixStream
read_prefixed none n gives inner =
    (take (min n gives) inner, record { prefix = none; inner = drop (min n gives) inner })
read_prefixed (some []) n gives inner =
    (take (min n gives) inner, record { prefix = none; inner = drop (min n gives) inner })
read_prefixed (some (b ∷ bytes)) n gives inner =
    if leb (length (b ∷ bytes)) n
    then (b ∷ bytes, record { prefix = none; inner = inner })
    else (take n (b ∷ bytes), record { prefix = some (drop n (b ∷ bytes)); inner = inner })

-- A read with room for `n` bytes; the stream below gives `gives` at most.
unfoldable pub poll_read : ℕ → ℕ → PrefixStream → List ℕ × PrefixStream
unfolding read_prefixed
poll_read n gives s = read_prefixed s.prefix n gives s.inner

-- The property White_Space of Unicode.
unfoldable pub is_whitespace : ℕ → Bool
is_whitespace c =
    (leb 9 c && leb c 13)
    || c == 32
    || c == 133
    || c == 160
    || c == 5760
    || (leb 8192 c && leb c 8202)
    || c == 8232
    || c == 8233
    || c == 8239
    || c == 8287
    || c == 12288

-- The general category Cc.
is_control : ℕ → Bool
is_control c = ltb c 32 || (leb 127 c && leb c 159)

-- `lines`, whose ends are line feeds; one carriage return before a line feed is dropped.
unfoldable pub lines_from : List ℕ → List ℕ → List (List ℕ)
lines_from line [] = if length line == 0 then [] else line ∷ []
lines_from line (c ∷ cs) = elim (c == 10) [
  | true ↦ without_return line ∷ lines_from [] cs
  | false ↦ lines_from (line ++ (c ∷ [])) cs
]
  where
    without_return : List ℕ → List ℕ
    without_return [] = []
    without_return (d ∷ []) = if d == 13 then [] else d ∷ []
    without_return (d ∷ e ∷ es) = d ∷ without_return (e ∷ es)

-- `split_whitespace`, with the word read so far.
unfoldable pub words_from : List ℕ → List ℕ → List (List ℕ)
unfolding is_whitespace
words_from word [] = if length word == 0 then [] else word ∷ []
words_from word (c ∷ cs) = elim (is_whitespace c) [
  | true ↦ if length word == 0 then words_from [] cs else word ∷ words_from [] cs
  | false ↦ words_from (word ++ (c ∷ [])) cs
]

unfoldable pub trim_start : List ℕ → List ℕ
unfolding is_whitespace
trim_start cs = drop_while is_whitespace cs

unfoldable pub trim : List ℕ → List ℕ
unfolding trim_start
trim cs = reverse (trim_start (reverse (trim_start cs)))

-- `split_once(':')`, with the part before it read so far.
unfoldable pub split_colon : List ℕ → List ℕ → Option (List ℕ × List ℕ)
split_colon before [] = none
split_colon before (c ∷ cs) =
    let rest = split_colon (before ++ (c ∷ [])) cs in if c == b':' then some (before, cs) else rest

-- The value of a line that names the host.
host_value : List ℕ → Option (List ℕ)
unfolding trim split_colon
host_value line = elim (split_colon [] line) [
  | none ↦ none
  | some (name, value) ↦
      if eq_ignore_ascii_case (trim name) (codes "host") then some (trim value) else none
]

find_host : List (List ℕ) → Option (List ℕ)
unfolding host_value
find_host [] = none
find_host (line ∷ lines) = or_else (host_value line) (find_host lines)

is_usable_host : List ℕ → Bool
unfolding is_control
is_usable_host host = not (length host == 0) && all (λ c. not (is_control c)) host

host_of : Option (List ℕ) → List ℕ
unfolding is_usable_host
host_of none = codes "localhost"
host_of (some host) = if is_usable_host host then host else codes "localhost"

-- `rsplit_once(':')`, the part after the last colon.
after_last_colon : List ℕ → Option (List ℕ)
after_last_colon [] = none
after_last_colon (c ∷ cs) = or_else (after_last_colon cs) (if c == b':' then some cs else none)

-- The digits of a number, with the value read so far; none stands for what is no number or beyond.
digits_value : ℕ → List ℕ → Option ℕ
digits_value n [] = some n
digits_value n (c ∷ cs) =
    let rest = digits_value (n * 10 + (c - 48)) cs in
    if leb 48 c && leb c 57 && leb (n * 10 + (c - 48)) 65535 then rest else none

-- Whether `parse::<u16>` accepts a text, which may have a plus sign.
is_port : List ℕ → Bool
unfolding digits_value
is_port [] = false
is_port (c ∷ []) = is_some (digits_value 0 (c ∷ []))
is_port (c ∷ d ∷ ds) =
    if c == b'+' then is_some (digits_value 0 (d ∷ ds)) else is_some (digits_value 0 (c ∷ d ∷ ds))

has_bracket_port : List ℕ → Bool
has_bracket_port [] = false
has_bracket_port (c ∷ []) = false
has_bracket_port (c ∷ d ∷ ds) = (c == b']' && d == b':') || has_bracket_port (d ∷ ds)

starts_with_byte : ℕ → List ℕ → Bool
starts_with_byte b [] = false
starts_with_byte b (c ∷ cs) = c == b

-- The digits of a port, which has five at most.
port_digits : ℕ → ℕ → List ℕ
port_digits zero n = []
port_digits (suc fuel) n =
    let rest = port_digits fuel (n / 10) in
    if ltb n 10 then (48 + n) ∷ [] else rest ++ ((48 + n % 10) ∷ [])

-- Whether a host names its port already.
has_port : List ℕ → Bool
unfolding starts_with_byte has_bracket_port after_last_colon is_port
has_port host =
    (starts_with_byte b'[' host && has_bracket_port host)
    || is_some_and (after_last_colon host) is_port

authority_of : ℕ → List ℕ → List ℕ
unfolding has_port port_digits
authority_of port host = if has_port host then host else host ++ (codes ":" ++ port_digits 5 port)

-- The second word of the request line, if it is a path.
path_of : List (List ℕ) → List ℕ
unfolding starts_with_byte
path_of (method ∷ path ∷ rest) = if starts_with_byte b'/' path then path else codes "/"
path_of _ = codes "/"

unfoldable pub first_line : List (List ℕ) → List ℕ
first_line [] = []
first_line (line ∷ lines) = line

unfoldable pub https_redirect_location : List ℕ → ℕ → List ℕ
unfolding lines_from words_from path_of first_line find_host host_of authority_of
https_redirect_location request https_port =
    let lines = lines_from [] request in
    codes "https://"
    ++ (authority_of https_port (host_of (find_host lines))
        ++ path_of (words_from [] (first_line lines)))
