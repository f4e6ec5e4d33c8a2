-- ===== src/Admin.antt =====
-- The management portal (src/admin.rs): its requests and answers, the settings that it lets a client
-- edit, and the test of a request's origin. Requests are lists of code points, which are bytes where
-- a request is ASCII. The decoding of JSON is a parameter; the values that answers are made of stand
-- for their JSON texts.
pub mod Origin
pub mod Reading
pub mod Routes
pub mod Portal
pub mod Socket
mod Tests
use llrdc_casting.Config.{ReceiverSettings, ConfigError}
use llrdc_casting.Http.{lines_from, words_from, trim, split_colon}
use llrdc_casting.Supervisor.{Inner}
use llrdc_casting.Prelude.Ascii.{to_ascii_lowercase, eq_ignore_ascii_case}
use llrdc_casting.Prelude.Bytes.{bytes_eq}
use llrdc_casting.Prelude.Slices.{starts_with, before_first}
use llrdc_casting.Prelude.Text.{codes}
use llrdc_casting.Prelude.{
  ℕ, ◌*◌, List, [], ◌∷◌, ◌++◌, Option, none, some, Bool, true, false, not, ◌&&◌, ◌||◌, String,
  if◌then◌else◌, unwrap_or, is_some_and,
}

abbrev pub max_request_bytes : ℕ
max_request_bytes = 16 * 1024

abbrev pub buffer_bytes : ℕ
buffer_bytes = 8192

pub record CloudSettingRequest : Type 0 where
  pub enabled : Bool
  pub confirm_restart : Bool

pub record RestartRequest : Type 0 where
  pub confirm_restart : Bool

pub record UpdateRequest : Type 0 where
  pub confirm_update : Bool

pub record EditableSettings : Type 0 where
  pub port : ℕ
  pub webtransport_port : ℕ
  pub http_port : ℕ
  pub drm_connector_id : List ℕ
  pub drm_plane_id : List ℕ
  pub idle_dashboard : Bool
  pub idle_dashboard_mode : List ℕ
  pub idle_timeout_sec : ℕ
  pub sender_liveness_timeout_sec : ℕ
  pub udp_buffer_size_mb : ℕ
  pub pairing_code_ttl_sec : ℕ
  pub local_pairing_code_required : Bool
  pub cloud_discovery_enabled : Bool

pub record SettingsRequest : Type 0 where
  pub settings : EditableSettings
  pub confirm_restart : Bool

-- `serde_json::from_slice` at each type of request.
pub record Decoders : Type 0 where
  pub cloud_setting_request : List ℕ → Option CloudSettingRequest
  pub restart_request : List ℕ → Option RestartRequest
  pub update_request : List ℕ → Option UpdateRequest
  pub settings_request : List ℕ → Option SettingsRequest

-- `apply_to`.
unfoldable pub apply_to : EditableSettings → ReceiverSettings → ReceiverSettings
apply_to e settings = record settings {
  port = e.port;
  webtransport_port = e.webtransport_port;
  http_port = e.http_port;
  drm_connector_id = e.drm_connector_id;
  drm_plane_id = e.drm_plane_id;
  idle_dashboard = e.idle_dashboard;
  idle_dashboard_mode = e.idle_dashboard_mode;
  idle_timeout_sec = e.idle_timeout_sec;
  sender_liveness_timeout_sec = e.sender_liveness_timeout_sec;
  udp_buffer_size_mb = e.udp_buffer_size_mb;
  pairing_code_ttl_sec = e.pairing_code_ttl_sec;
  local_pairing_code_required = e.local_pairing_code_required;
  cloud_discovery_enabled = e.cloud_discovery_enabled;
}

unfoldable pub editable_from : ReceiverSettings → Option Bool → EditableSettings
editable_from s cloud = record {
  port = s.port;
  webtransport_port = s.webtransport_port;
  http_port = s.http_port;
  drm_connector_id = s.drm_connector_id;
  drm_plane_id = s.drm_plane_id;
  idle_dashboard = s.idle_dashboard;
  idle_dashboard_mode = s.idle_dashboard_mode;
  idle_timeout_sec = s.idle_timeout_sec;
  sender_liveness_timeout_sec = s.sender_liveness_timeout_sec;
  udp_buffer_size_mb = s.udp_buffer_size_mb;
  pairing_code_ttl_sec = s.pairing_code_ttl_sec;
  local_pairing_code_required = s.local_pairing_code_required;
  cloud_discovery_enabled = unwrap_or cloud s.cloud_discovery_enabled;
}

-- The headers of a request: the newest value of a name stands first.
abbrev pub Headers : Type 0
Headers = List (List ℕ × List ℕ)

pub get_header : List ℕ → Headers → Option (List ℕ)
get_header name [] = none
get_header name ((n, value) ∷ headers) =
    if bytes_eq n name then some value else get_header name headers

with_line : List ℕ → Headers → Headers
unfolding split_colon trim
with_line line headers = elim (split_colon [] line) [
  | none ↦ headers
  | some (name, value) ↦ (to_ascii_lowercase (trim name), trim value) ∷ headers
]

pub headers_from : Headers → List (List ℕ) → Headers
unfolding with_line
headers_from headers [] = headers
headers_from headers (line ∷ lines) = headers_from (with_line line headers) lines

-- Whether a page of the host itself sent the value of `origin` or `referer`.
is_from_host : List ℕ → List ℕ → Bool
is_from_host host value =
    bytes_eq value (codes "https://" ++ host)
    || bytes_eq value (codes "http://" ++ host)
    || starts_with (codes "https://" ++ (host ++ codes "/")) value
    || starts_with (codes "http://" ++ (host ++ codes "/")) value

from_host_or_absent : List ℕ → Option (List ℕ) → Bool
unfolding is_from_host
from_host_or_absent host none = true
from_host_or_absent host (some value) = is_from_host host value

same_host : Option (List ℕ) → Headers → Bool
unfolding from_host_or_absent get_header
same_host none headers = false
same_host (some host) headers =
    from_host_or_absent host (get_header (codes "origin") headers)
    && from_host_or_absent host (get_header (codes "referer") headers)

unfoldable pub request_is_same_origin : Headers → Bool
unfolding get_header same_host
request_is_same_origin headers =
    not (
      is_some_and (get_header (codes "sec-fetch-site") headers)
        (λ value. eq_ignore_ascii_case value (codes "cross-site")))
    && same_host (get_header (codes "host") headers) headers

-- Whether the content is JSON, whatever its parameters.
unfoldable pub json_content : Headers → Bool
unfolding get_header trim
json_content headers = is_some_and (get_header (codes "content-type") headers) (λ value.
    eq_ignore_ascii_case (trim (before_first (codes ";") value)) (codes "application/json"))

-- A request that has been read whole.
pub record Request : Type 0 where
  pub method : List ℕ
  pub path : List ℕ
  pub headers : Headers
  pub body : List ℕ

-- The bodies of answers: fixed bytes, and the values whose JSON text is sent.
pub data Body : Type 0 where
  bytes : List ℕ → Body
  admin_html : Body
  snapshot : Inner → Body
  update_status : Body
  events : ℕ → Body
  diagnostic_zip : Body
  done : Body
  error : String → Body
  target : ℕ → Body
  scheduled : Bool → ℕ → Body
  invalid_settings : ConfigError → Body
  cloud_not_provisioned : List String → Body

pub record Answer : Type 0 where
  pub status : String
  pub content_type : String
  pub body : Body
  pub extra : Option String

-- What a request has the manager do.
pub data Action : Type 0 where
  stop_sharing : Action
  restart : String → Action
  request_update : String → Action

abbrev pub json : String → Body → Answer
json status body = record {
  status = status;
  content_type = "application/json";
  body = body;
  extra = none;
}

abbrev pub text : String → String → Answer
text status body = record {
  status = status;
  content_type = "text/plain";
  body = bytes (codes body);
  extra = none;
}
