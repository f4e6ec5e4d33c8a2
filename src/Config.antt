-- ===== src/Config.antt =====
-- Settings of the receiver (src/config.rs): defaults, the environment's overrides, validation and
-- loading. A text is the list of its bytes. The document's parser is serde_json and a line format
-- behind it, a parameter of `load_settings_at`.
pub mod Validation
mod Tests
use llrdc_casting.Prelude.Bytes.{bytes_eq}
use llrdc_casting.Prelude.Ascii.{is_ascii_digit, bytes_eq-eq}
use llrdc_casting.Prelude.Result.{Result, err, ok, ◌>>=◌}
use llrdc_casting.Prelude.{
  ℕ, List, [], Option, String, ◌^◌, Bool, ◌∷◌, some, if◌then◌else◌, unwrap_or, ◌-◌, all, none, ◌==◌,
  true, leb, length, any, not, ◌||◌, false, ◌*◌, ◌+◌, ◌&&◌,
}

pub record ReceiverSettings : Type 0 where
  pub port : ℕ
  pub webtransport_port : ℕ
  pub http_port : ℕ
  pub admin_bind_address : List ℕ
  pub admin_port : ℕ
  pub drm_connector_id : List ℕ
  pub drm_plane_id : List ℕ
  pub idle_dashboard : Bool
  pub idle_dashboard_mode : List ℕ
  pub idle_timeout_sec : ℕ
  pub sender_liveness_timeout_sec : ℕ
  pub udp_buffer_size_mb : ℕ
  pub cert_dir : List ℕ
  pub pairing_worker_url : List ℕ
  pub cloud_discovery_enabled : Bool
  pub receiver_id : List ℕ
  pub pairing_code_ttl_sec : ℕ
  pub local_pairing_code_required : Bool
  pub pairing_token_public_key_file : List ℕ

pub record DeviceConfigDocument : Type 0 where
  pub version : ℕ
  pub server : ReceiverSettings

pub default_settings : ReceiverSettings
default_settings = record {
  port = 4434;
  webtransport_port = 4433;
  http_port = 8080;
  admin_bind_address = [];
  admin_port = 9090;
  drm_connector_id = (b'a' ∷ b'u' ∷ b't' ∷ b'o' ∷ []);
  drm_plane_id = (b'3' ∷ b'3' ∷ []);
  idle_dashboard = true;
  idle_dashboard_mode = (b'r' ∷ b'a' ∷ b'w' ∷ []);
  idle_timeout_sec = 30;
  sender_liveness_timeout_sec = 90;
  udp_buffer_size_mb = 8;
  cert_dir = (b'/' ∷ b'c' ∷ b'e' ∷ b'r' ∷ b't' ∷ b's' ∷ []);
  pairing_worker_url =
      (b'h' ∷ b't' ∷ b't' ∷ b'p' ∷ b's' ∷ b':' ∷ b'/' ∷ b'/' ∷ b'c' ∷ b'a' ∷ b's' ∷ b't' ∷ b'.'
        ∷ b'l' ∷ b'l' ∷ b'r' ∷ b'd' ∷ b'c' ∷ b'.' ∷ b'c' ∷ b'o' ∷ b'm' ∷ []);
  cloud_discovery_enabled = false;
  receiver_id = [];
  pairing_code_ttl_sec = 3600;
  local_pairing_code_required = true;
  pairing_token_public_key_file =
      (b'/' ∷ b'p' ∷ b'a' ∷ b'i' ∷ b'r' ∷ b'i' ∷ b'n' ∷ b'g' ∷ b'/' ∷ b'p' ∷ b'u' ∷ b'b' ∷ b'l'
        ∷ b'i' ∷ b'c' ∷ b'.' ∷ b'p' ∷ b'e' ∷ b'm' ∷ []);
}

abbrev xor : Bool → Bool → Bool
xor true b = not b
xor false b = b

-- The derived `PartialEq`.
unfoldable pub settings_eq : ReceiverSettings → ReceiverSettings → Bool
settings_eq a b =
    a.port == b.port
    && a.webtransport_port == b.webtransport_port
    && a.http_port == b.http_port
    && bytes_eq a.admin_bind_address b.admin_bind_address
    && a.admin_port == b.admin_port
    && bytes_eq a.drm_connector_id b.drm_connector_id
    && bytes_eq a.drm_plane_id b.drm_plane_id
    && not (xor a.idle_dashboard b.idle_dashboard)
    && bytes_eq a.idle_dashboard_mode b.idle_dashboard_mode
    && a.idle_timeout_sec == b.idle_timeout_sec
    && a.sender_liveness_timeout_sec == b.sender_liveness_timeout_sec
    && a.udp_buffer_size_mb == b.udp_buffer_size_mb
    && bytes_eq a.cert_dir b.cert_dir
    && bytes_eq a.pairing_worker_url b.pairing_worker_url
    && not (xor a.cloud_discovery_enabled b.cloud_discovery_enabled)
    && bytes_eq a.receiver_id b.receiver_id
    && a.pairing_code_ttl_sec == b.pairing_code_ttl_sec
    && not (xor a.local_pairing_code_required b.local_pairing_code_required)
    && bytes_eq a.pairing_token_public_key_file b.pairing_token_public_key_file

-- The value of decimal digits, after the value read so far.
digits_value : ℕ → List ℕ → Option ℕ
digits_value acc [] = some acc
digits_value acc (c ∷ cs) =
    if is_ascii_digit c then digits_value (10 * acc + (c - b'0')) cs else none

skip_plus : List ℕ → List ℕ
skip_plus [] = []
skip_plus (c ∷ cs) = if c == b'+' then cs else c ∷ cs

at_most : ℕ → Option ℕ → Option ℕ
at_most limit none = none
at_most limit (some n) = if leb n limit then some n else none

-- `str::parse` of an unsigned type with the greatest value `limit`.
unfoldable pub parse_unsigned : ℕ → List ℕ → Option ℕ
unfolding digits_value skip_plus at_most
parse_unsigned limit text =
    let digits = skip_plus text in
    if length digits == 0 then none else at_most limit (digits_value 0 digits)

abbrev pub Environment : Type 0
Environment = String → Option (List ℕ)

abbrev yes_words : List (List ℕ)
yes_words =
    (b'1' ∷ [])
    ∷ (b't' ∷ b'r' ∷ b'u' ∷ b'e' ∷ [])
    ∷ (b'T' ∷ b'R' ∷ b'U' ∷ b'E' ∷ [])
    ∷ (b'y' ∷ b'e' ∷ b's' ∷ [])
    ∷ (b'Y' ∷ b'E' ∷ b'S' ∷ [])
    ∷ []

abbrev no_words : List (List ℕ)
no_words =
    (b'0' ∷ [])
    ∷ (b'f' ∷ b'a' ∷ b'l' ∷ b's' ∷ b'e' ∷ [])
    ∷ (b'F' ∷ b'A' ∷ b'L' ∷ b'S' ∷ b'E' ∷ [])
    ∷ (b'n' ∷ b'o' ∷ [])
    ∷ (b'N' ∷ b'O' ∷ [])
    ∷ []

module _ (env : Environment) where
  parsed : ℕ → Option (List ℕ) → Option ℕ
  unfolding parse_unsigned
  parsed limit none = none
  parsed limit (some text) = parse_unsigned limit text

  env_or : ℕ → String → ℕ → ℕ
  unfolding parsed
  env_or limit name fallback = unwrap_or (parsed limit (env name)) fallback

  env_string_or : String → List ℕ → List ℕ
  env_string_or name fallback = unwrap_or (env name) fallback

  truth : Option (List ℕ) → Bool → Bool
  truth none fallback = fallback
  truth (some text) fallback =
      if any (bytes_eq text) yes_words
      then true
      else if any (bytes_eq text) no_words
      then false
      else fallback

  env_bool_or : String → Bool → Bool
  unfolding truth
  env_bool_or name fallback = truth (env name) fallback

  unfoldable pub from_environment : ReceiverSettings
  unfolding env_or env_string_or env_bool_or default_settings
  from_environment = record {
    port = env_or 65535 "BOARD_PORT" default_settings.port;
    webtransport_port = env_or 65535 "WEBTRANSPORT_PORT" default_settings.webtransport_port;
    http_port = env_or 65535 "HTTP_PORT" default_settings.http_port;
    admin_bind_address = env_string_or "ADMIN_BIND_ADDR" default_settings.admin_bind_address;
    admin_port = env_or 65535 "ADMIN_PORT" default_settings.admin_port;
    drm_connector_id = env_string_or "DRM_CONNECTOR_ID" default_settings.drm_connector_id;
    drm_plane_id = env_string_or "DRM_PLANE_ID" default_settings.drm_plane_id;
    idle_dashboard = env_bool_or "IDLE_DASHBOARD" default_settings.idle_dashboard;
    idle_dashboard_mode = env_string_or "IDLE_DASHBOARD_MODE" default_settings.idle_dashboard_mode;
    idle_timeout_sec = env_or (2 ^ 64 - 1) "IDLE_TIMEOUT_SEC" default_settings.idle_timeout_sec;
    sender_liveness_timeout_sec =
        env_or (2 ^ 64 - 1) "SENDER_LIVENESS_TIMEOUT_SEC"
          default_settings.sender_liveness_timeout_sec;
    udp_buffer_size_mb =
        env_or (2 ^ 64 - 1) "UDP_BUFFER_SIZE_MB" default_settings.udp_buffer_size_mb;
    cert_dir = env_string_or "CERTS_DIR" default_settings.cert_dir;
    pairing_worker_url = env_string_or "PAIRING_WORKER_URL" default_settings.pairing_worker_url;
    cloud_discovery_enabled =
        env_bool_or "CLOUD_DISCOVERY_ENABLED" default_settings.cloud_discovery_enabled;
    receiver_id = env_string_or "RECEIVER_ID" default_settings.receiver_id;
    pairing_code_ttl_sec =
        env_or (2 ^ 64 - 1) "PAIRING_CODE_TTL_SEC" default_settings.pairing_code_ttl_sec;
    local_pairing_code_required =
        env_bool_or "LOCAL_PAIRING_CODE_REQUIRED" default_settings.local_pairing_code_required;
    pairing_token_public_key_file =
        env_string_or "PAIRING_TOKEN_PUBLIC_KEY_FILE"
          default_settings.pairing_token_public_key_file;
  }

is_single_line : List ℕ → Bool
is_single_line text = all (λ c. not (c == 10 || c == 13)) text

-- The name of the first entry that fails the test.
abbrev first_bad {ℓ} : {A : Type ℓ} → (A → Bool) → List (String × A) → Option String
first_bad good [] = none
first_bad good ((name, value) ∷ entries) = if good value then first_bad good entries else some name

text_fields : ReceiverSettings → List (String × List ℕ)
text_fields s =
    ("admin_bind_address", s.admin_bind_address)
    ∷ ("drm_connector_id", s.drm_connector_id)
    ∷ ("drm_plane_id", s.drm_plane_id)
    ∷ ("idle_dashboard_mode", s.idle_dashboard_mode)
    ∷ ("cert_dir", s.cert_dir)
    ∷ ("pairing_worker_url", s.pairing_worker_url)
    ∷ ("receiver_id", s.receiver_id)
    ∷ ("pairing_token_public_key_file", s.pairing_token_public_key_file)
    ∷ []

pub port_fields : ReceiverSettings → List (String × ℕ)
port_fields s =
    ("port", s.port)
    ∷ ("webtransport_port", s.webtransport_port)
    ∷ ("http_port", s.http_port)
    ∷ ("admin_port", s.admin_port)
    ∷ []

pub ports_collide : ReceiverSettings → Bool
ports_collide s =
    s.port == s.webtransport_port
    || s.port == s.http_port
    || s.port == s.admin_port
    || s.webtransport_port == s.http_port
    || s.webtransport_port == s.admin_port
    || s.http_port == s.admin_port

pub data ConfigError : Type 0 where
  not_single_line : String → ConfigError
  port_out_of_range : String → ConfigError
  ports_not_unique timeout_not_positive connector_malformed plane_malformed : ConfigError
  mode_unknown unreadable : ConfigError
  unsupported_version : ℕ → ConfigError

abbrev auto_word : List ℕ
auto_word = (b'a' ∷ b'u' ∷ b't' ∷ b'o' ∷ [])

abbrev dashboard_modes : List (List ℕ)
dashboard_modes = (b'r' ∷ b'a' ∷ b'w' ∷ []) ∷ (b'h' ∷ b'e' ∷ b'v' ∷ b'c' ∷ []) ∷ []

-- The tests after those of the single fields.
pub validate_rest : ReceiverSettings → Result (Unit {0}) ConfigError
unfolding ports_collide
validate_rest s =
    if ports_collide s
    then err ports_not_unique
    else if s.idle_timeout_sec == 0
        || s.sender_liveness_timeout_sec == 0
        || s.udp_buffer_size_mb == 0
        || s.pairing_code_ttl_sec == 0
    then err timeout_not_positive
    else if not (bytes_eq s.drm_connector_id auto_word)
        && not (all is_ascii_digit s.drm_connector_id)
    then err connector_malformed
    else if not (all is_ascii_digit s.drm_plane_id)
    then err plane_malformed
    else if not (any (bytes_eq s.idle_dashboard_mode) dashboard_modes)
    then err mode_unknown
    else ok tt

validate_ports : Option String → ReceiverSettings → Result (Unit {0}) ConfigError
unfolding validate_rest
validate_ports (some name) s = err (port_out_of_range name)
validate_ports none s = validate_rest s

validate_lines : Option String → ReceiverSettings → Result (Unit {0}) ConfigError
unfolding validate_ports port_fields
validate_lines (some name) s = err (not_single_line name)
validate_lines none s = validate_ports (first_bad (λ p. not (p == 0)) (port_fields s)) s

unfoldable pub validate : ReceiverSettings → Result (Unit {0}) ConfigError
unfolding validate_lines text_fields is_single_line
validate s = validate_lines (first_bad is_single_line (text_fields s)) s

-- The server's settings of a document of the known version.
versioned : Option DeviceConfigDocument → Result ReceiverSettings ConfigError
versioned none = err unreadable
versioned (some document) =
    if document.version == 1 then ok document.server else err (unsupported_version document.version)

-- `contents` is the text of the file when there is one.
settings_source :
    (List ℕ → Option DeviceConfigDocument)
    → Environment
    → Option (List ℕ)
    → Result ReceiverSettings ConfigError
unfolding from_environment versioned
settings_source parse_document env none = ok (from_environment env)
settings_source parse_document env (some text) = versioned (parse_document text)

abbrev validated :
    ReceiverSettings → Result (Unit {0}) ConfigError → Result ReceiverSettings ConfigError
validated s (ok u) = ok s
validated s (err e) = err e

unfoldable pub load_settings_at :
    (List ℕ → Option DeviceConfigDocument)
    → Environment
    → Option (List ℕ)
    → Result ReceiverSettings ConfigError
unfolding settings_source validate
load_settings_at parse_document env contents =
    settings_source parse_document env contents >>= λ s. validated s (validate s)
