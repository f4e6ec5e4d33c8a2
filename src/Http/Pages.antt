-- ===== src/Http/Pages.antt =====
-- The pages of the HTTP server (src/http_server.rs, `serve_http_request`), the choice between them
-- and the control socket (`handle_connection`), the control socket itself
-- (`handle_websocket_connection`), and what a new connection is taken for (`run_server`).
use llrdc_casting.Control.{ControlCommand, get_status}
use llrdc_casting.Http.{https_redirect_location, lines_from, words_from, first_line, suc}
use llrdc_casting.Prelude.Ascii.{to_ascii_lowercase}
use llrdc_casting.Prelude.Bytes.{bytes_eq}
use llrdc_casting.Prelude.Slices.{contains}
use llrdc_casting.Prelude.Text.{codes, decimal}
use llrdc_casting.Prelude.{
  ℕ, List, [], ◌∷◌, ◌++◌, Option, none, some, Bool, true, false, not, ◌&&◌, ◌||◌, ◌==◌,
  if◌then◌else◌, length, String, zero,
}

-- What the pages are made of: the embedded page, the hash of the certificate, and two settings.
pub record Site : Type 0 where
  pub index_html : List ℕ
  pub cert_hash : List ℕ
  pub local_pairing_code_required : Bool
  pub webtransport_port : ℕ

pub record Page : Type 0 where
  pub status : List ℕ
  pub content_type : List ℕ
  pub body : List ℕ

abbrev line_end : List ℕ
line_end = 13 ∷ 10 ∷ []

bool_text : Bool → List ℕ
bool_text true = codes "true"
bool_text false = codes "false"

pairing_config_body : Site → List ℕ
unfolding bool_text
pairing_config_body site =
    codes "{\"required\":"
    ++ (bool_text site.local_pairing_code_required
        ++ (codes ",\"webtransport_port\":"
            ++ (codes (decimal site.webtransport_port) ++ codes "}")))

abbrev page : String → String → List ℕ → Page
page status content_type body = record {
  status = codes status;
  content_type = codes content_type;
  body = body;
}

page_at : Site → List ℕ → Page
unfolding pairing_config_body
page_at site path =
    if bytes_eq path (codes "/") || bytes_eq path (codes "/index.html")
    then page "200 OK" "text/html; charset=utf-8" site.index_html
    else if bytes_eq path (codes "/cert_hash")
    then page "200 OK" "text/plain; charset=utf-8" site.cert_hash
    else if bytes_eq path (codes "/pairing-config")
    then page "200 OK" "application/json; charset=utf-8" (pairing_config_body site)
    else if bytes_eq path (codes "/health")
    then page "200 OK" "text/plain; charset=utf-8" (codes "OK")
    else if bytes_eq path (codes "/favicon.ico")
    then page "204 No Content" "image/x-icon" []
    else page "404 Not Found" "text/plain; charset=utf-8" (codes "Not Found")

response_headers : Page → List ℕ
response_headers p =
    (codes "HTTP/1.1 " ++ (p.status ++ line_end))
    ++ ((codes "Content-Type: " ++ (p.content_type ++ line_end))
        ++ ((codes "Content-Length: " ++ (codes (decimal (length p.body)) ++ line_end))
            ++ ((codes "Access-Control-Allow-Origin: *" ++ line_end)
                ++ ((codes "Cache-Control: no-store" ++ line_end)
                    ++ ((codes "Connection: close" ++ line_end) ++ line_end)))))

method_not_allowed : List ℕ
method_not_allowed =
    (codes "HTTP/1.1 405 Method Not Allowed" ++ line_end)
    ++ ((codes "Content-Length: 0" ++ line_end) ++ line_end)

word_at : ℕ → List (List ℕ) → List ℕ
word_at n [] = []
word_at zero (w ∷ ws) = w
word_at (suc n) (w ∷ ws) = word_at n ws

-- The bytes that are written in answer to a request.
unfoldable pub serve_http_request : Site → List ℕ → List ℕ
unfolding words_from lines_from first_line word_at page_at response_headers method_not_allowed
serve_http_request site request =
    let words = words_from [] (first_line (lines_from [] request)) in
    let method = word_at 0 words in
    let p = page_at site (word_at 1 words) in
    if not (bytes_eq method (codes "GET")) && not (bytes_eq method (codes "HEAD"))
    then method_not_allowed
    else if bytes_eq method (codes "HEAD")
    then response_headers p
    else response_headers p ++ p.body

-- The messages of the control socket; a text comes with the command that it decodes to, if any.
pub data SocketMessage : Type 0 where
  text : Option ControlCommand → SocketMessage
  close : SocketMessage
  failed : SocketMessage
  other : SocketMessage

-- The commands that the loop sends on, up to the end of the socket.
commands_of : List SocketMessage → List ControlCommand
commands_of [] = []
commands_of (text none ∷ messages) = commands_of messages
commands_of (text (some command) ∷ messages) = command ∷ commands_of messages
commands_of (close ∷ messages) = []
commands_of (failed ∷ messages) = []
commands_of (other ∷ messages) = commands_of messages

-- A connection asks for the status first; without a handshake it does nothing.
unfoldable pub handle_websocket_connection : Bool → List SocketMessage → List ControlCommand
unfolding commands_of
handle_websocket_connection accepted messages =
    if accepted then get_status ∷ commands_of messages else []

-- What a connection comes to: bytes that are written, or commands that are sent on.
pub data ConnectionOutcome : Type 0 where
  nothing : ConnectionOutcome
  writes : List ℕ → ConnectionOutcome
  sends : List ControlCommand → ConnectionOutcome

pub is_control_socket : List ℕ → Bool
is_control_socket request =
    contains (codes "upgrade: websocket") (to_ascii_lowercase request)
    || contains (codes "/ws") request
    || contains (codes "/control") request

-- A connection whose first read gave `request`.
unfoldable pub handle_connection : Site → Bool → List SocketMessage → List ℕ → ConnectionOutcome
unfolding serve_http_request handle_websocket_connection is_control_socket
handle_connection site accepted messages request =
    if length request == 0
    then nothing
    else if is_control_socket request
    then sends (handle_websocket_connection accepted messages)
    else writes (serve_http_request site request)

redirect_response : List ℕ → List ℕ
redirect_response location =
    (codes "HTTP/1.1 308 Permanent Redirect" ++ line_end)
    ++ ((codes "Location: " ++ (location ++ line_end))
        ++ ((codes "Content-Length: 0" ++ line_end)
            ++ ((codes "Cache-Control: no-store" ++ line_end)
                ++ ((codes "Connection: close" ++ line_end) ++ line_end))))

unfoldable pub redirect_http_to_https : ℕ → List ℕ → List ℕ
unfolding https_redirect_location redirect_response
redirect_http_to_https https_port request =
    if length request == 0
    then []
    else redirect_response (https_redirect_location request https_port)
