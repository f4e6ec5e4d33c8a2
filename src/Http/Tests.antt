-- ===== src/Http/Tests.antt =====
-- Runs of the HTTP server's parts at concrete requests.
use llrdc_casting.Http.Pages.{Site, serve_http_request, handle_connection, sends}
use llrdc_casting.Http.{
  PrefixStream, https_redirect_location, lines_from, words_from, path_of, first_line, find_host,
  host_of, authority_of, has_port, is_whitespace, host_value, split_colon, trim, trim_start,
  is_usable_host, is_control, starts_with_byte, has_bracket_port, after_last_colon, is_port,
  digits_value, port_digits, [], true, length, false,
}
use llrdc_casting.Http.Prefix.{contents, read_all, read_all-contents}
use llrdc_casting.Http.Redirect.{https_redirect_location-All}
use llrdc_casting.Prelude.Ascii.{IsInLine}
use llrdc_casting.Prelude.Text.{codes}
use llrdc_casting.Prelude.{ℕ, List, All, some, ◌++◌, ◌≡◌, refl, ◌∷◌}

abbrev peeked : PrefixStream
peeked = record { prefix = some (1 ∷ 2 ∷ 3 ∷ []); inner = 4 ∷ 5 ∷ [] }

read_all-contents_example :
    ((read_all ((2, 9) ∷ (8, 9) ∷ (8, 1) ∷ []) peeked).0
      ++ contents (read_all ((2, 9) ∷ (8, 9) ∷ (8, 1) ∷ []) peeked).1)
    ≡ contents peeked
read_all-contents_example = read_all-contents ((2, 9) ∷ (8, 9) ∷ (8, 1) ∷ []) peeked

abbrev request : List ℕ
request =
    codes "GET /?pair=1 HTTP/1.1" ++ (13 ∷ 10 ∷ []) ++ codes "Host: a.b:8080" ++ (13 ∷ 10 ∷ [])

https_redirect_location-All_example : All IsInLine (https_redirect_location request 8080)
https_redirect_location-All_example = https_redirect_location-All request 8080

redirected : https_redirect_location request 8080 ≡ codes "https://a.b:8080/?pair=1"
unfolding https_redirect_location lines_from words_from path_of first_line find_host host_of
    authority_of has_port is_whitespace host_value split_colon trim trim_start is_usable_host
    is_control starts_with_byte has_bracket_port after_last_colon is_port digits_value port_digits
redirected = refl

abbrev site : Site
site = record {
  index_html = codes "<html>";
  cert_hash = codes "ab";
  local_pairing_code_required = true;
  webtransport_port = 4433;
}

-- A page of the browser's history is the referrer.
unanswered : handle_connection site false [] (codes "GET / HTTP/1.1, Referer: tv/ws") ≡ sends []
unfolding handle_connection
unanswered = refl

serves_health_length : length (serve_http_request site (codes "HEAD /health HTTP/1.1")) ≡ 155
unfolding serve_http_request
serves_health_length = refl
