-- ===== src/Config/Validation.antt =====
-- What settings that are loaded satisfy.
use llrdc_casting.Prelude.Result.{bind_ok}
use llrdc_casting.Config.{
  ReceiverSettings, port_fields, validate_rest, first_bad, not, ok, all, ports_collide,
  is_ascii_digit, none, false, true, [], Bool, validate, load_settings_at, ConfigError,
  validate_lines, List, Result, validate_ports, Option, String, DeviceConfigDocument, err, some,
  Environment, is_single_line, validated, text_fields, settings_source,
}
use llrdc_casting.Prelude.{ℕ, ◌<◌, ◌≡◌, ◌≢◌, ◌==◌, ◌∷◌, ◌||◌, arith, refl, if◌then◌else◌, subst}

-- Four ports that are positive and distinct, positive times and sizes, and a text for the plane, which
-- may be empty, of digits alone.
pub record Usable (s : ReceiverSettings) : Type 0 where
  pub ports_positive :
      (0 < s.port) × (0 < s.webtransport_port) × (0 < s.http_port) × (0 < s.admin_port)
  pub transport_apart :
      (s.port ≢ s.webtransport_port) × (s.port ≢ s.http_port) × (s.port ≢ s.admin_port)
  pub pages_apart :
      (s.webtransport_port ≢ s.http_port)
      × (s.webtransport_port ≢ s.admin_port)
      × (s.http_port ≢ s.admin_port)
  pub times_positive :
      (0 < s.idle_timeout_sec)
      × (0 < s.sender_liveness_timeout_sec)
      × (0 < s.udp_buffer_size_mb)
      × (0 < s.pairing_code_ttl_sec)
  pub plane_digits : all is_ascii_digit s.drm_plane_id ≡ true

ports-positive :
    (s : ReceiverSettings)
    → first_bad (λ p. not (p == 0)) (port_fields s) ≡ none
    → (0 < s.port) × (0 < s.webtransport_port) × (0 < s.http_port) × (0 < s.admin_port)
unfolding port_fields
ports-positive s h = go s.port s.webtransport_port s.http_port s.admin_port h
  where
    go :
        (a b c d : ℕ)
        → first_bad
            (λ p. not (p == 0))
            (("port", a) ∷ ("webtransport_port", b) ∷ ("http_port", c) ∷ ("admin_port", d) ∷ [])
          ≡ none
        → (0 < a) × (0 < b) × (0 < c) × (0 < d)
    go a b c d h = ground arith

-- A test that was passed, and what came after it.
passed :
    (t : Bool) (e : ConfigError) (r : Result (Unit {0}) ConfigError)
    → (if t then err e else r) ≡ ok tt
    → (t ≡ false) × (r ≡ ok tt)
passed true e r h = cc h
passed false e r h = (refl, h)

negated : (t : Bool) → not t ≡ false → t ≡ true
negated true h = refl
negated false h = cc h

distinct-of_tests :
    (a b c d : ℕ)
    → (a == b || a == c || a == d || b == c || b == d || c == d) ≡ false
    → ((a ≢ b) × (a ≢ c) × (a ≢ d)) × ((b ≢ c) × (b ≢ d) × (c ≢ d))
distinct-of_tests a b c d h = ground arith

positive-of_tests :
    (a b c d : ℕ)
    → (a == 0 || b == 0 || c == 0 || d == 0) ≡ false
    → (0 < a) × (0 < b) × (0 < c) × (0 < d)
positive-of_tests a b c d h = ground arith

validate_rest-Usable :
    (s : ReceiverSettings)
    → validate_rest s ≡ ok tt
    → first_bad (λ p. not (p == 0)) (port_fields s) ≡ none
    → Usable s
unfolding validate_rest ports_collide
validate_rest-Usable s h ports =
    let (apart, h1) = passed _ _ _ h in
    let (timely, h2) = passed _ _ _ h1 in
    let (connector, h3) = passed _ _ _ h2 in
    let (plane, h4) = passed _ _ _ h3 in
    let distinct = distinct-of_tests s.port s.webtransport_port s.http_port s.admin_port apart in
    record {
      ports_positive = ports-positive s ports;
      transport_apart = distinct.0;
      pages_apart = distinct.1;
      times_positive =
          positive-of_tests s.idle_timeout_sec s.sender_liveness_timeout_sec s.udp_buffer_size_mb
            s.pairing_code_ttl_sec timely;
      plane_digits = negated _ plane;
    }

validate-Usable : (s : ReceiverSettings) → validate s ≡ ok tt → Usable s
unfolding validate validate_lines validate_ports
validate-Usable s h = lines (first_bad is_single_line (text_fields s)) h
  where
    ports :
        (o : Option String)
        → first_bad (λ p. not (p == 0)) (port_fields s) ≡ o
        → validate_ports o s ≡ ok tt
        → Usable s
    ports none e h = validate_rest-Usable s h e
    ports (some name) e h = cc h

    lines : (o : Option String) → validate_lines o s ≡ ok tt → Usable s
    lines none h = ports (first_bad (λ p. not (p == 0)) (port_fields s)) refl h
    lines (some name) h = cc h

-- Settings that are loaded, from a file or from the environment, are usable: their four ports are
-- positive and distinct, their times and sizes positive, and the text that names their plane, which
-- may be empty, has no character but digits.
pub load_settings_at-Usable :
    (parse_document : List ℕ → Option DeviceConfigDocument) (env : Environment)
    (contents : Option (List ℕ)) (s : ReceiverSettings)
    → load_settings_at parse_document env contents ≡ ok s
    → Usable s
unfolding load_settings_at
load_settings_at-Usable parse_document env contents s loaded =
    let (found, e, checked) = bind_ok (settings_source parse_document env contents) _ loaded in
    go found (validate found) refl checked
  where
    go :
        (found : ReceiverSettings) (r : Result (Unit {0}) ConfigError)
        → validate found ≡ r
        → validated found r ≡ ok s
        → Usable s
    go found (err e) passes h = cc h
    go found (ok u) passes h =
        let same : found ≡ s = cc h in subst Usable same (validate-Usable found passes)
