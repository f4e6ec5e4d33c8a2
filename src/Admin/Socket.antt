-- ===== src/Admin/Socket.antt =====
-- The manager's Unix socket and its client (src/admin.rs, `run_unix_server` and `run_client`): one
-- line asks for the pairing code, and the client takes an answer of four letters or digits.
pub mod Codes
use llrdc_casting.Http.{trim}
use llrdc_casting.Prelude.Ascii.{is_ascii_alphanumeric}
use llrdc_casting.Prelude.Bytes.{bytes_eq}
use llrdc_casting.Prelude.Result.{Result, ok, err}
use llrdc_casting.Prelude.Slices.{starts_with}
use llrdc_casting.Prelude.Text.{codes}
use llrdc_casting.Prelude.{
  ℕ, List, [], ◌∷◌, ◌++◌, Option, Bool, not, if◌then◌else◌, length, ◌==◌, ◌||◌, all, drop,
  is_some_and,
}

-- The result of the manager's call, or the refusal of another command.
asked : List ℕ → Result (List ℕ) (List ℕ) → Result (List ℕ) (List ℕ)
unfolding trim
asked request code =
    if bytes_eq (trim request) (codes "pairing-code")
    then code
    else err (codes "invalid admin command")

text_of : Result (List ℕ) (List ℕ) → List ℕ
text_of (ok code) = code
text_of (err error) = codes "ERROR " ++ error

-- The line that answers a request.
unfoldable pub serve_line : List ℕ → Result (List ℕ) (List ℕ) → List ℕ
unfolding asked text_of
serve_line request code = text_of (asked request code) ++ (10 ∷ [])

-- What the client makes of the whole answer, which is UTF-8.
read_answer : List ℕ → Result (List ℕ) (List ℕ)
read_answer response =
    if starts_with (codes "ERROR ") response
    then err (drop 6 response)
    else if not (length response == 4) || not (all is_ascii_alphanumeric response)
    then err (codes "manager returned invalid pairing code")
    else ok response

unfoldable pub read_response : List ℕ → Result (List ℕ) (List ℕ)
unfolding trim read_answer
read_response response = read_answer (trim response)

-- The client's request, and what it prints; `served` stands for the socket.
unfoldable pub run_client : Option (List ℕ) → Bool → (List ℕ → List ℕ) → Result (List ℕ) (List ℕ)
unfolding read_response
run_client command has_extra_arguments served =
    if not (is_some_and command (λ c. bytes_eq c (codes "pairing-code"))) || has_extra_arguments
    then err (codes "usage: llrdc-management admin pairing-code")
    else read_response (served (codes "pairing-code" ++ (10 ∷ [])))
