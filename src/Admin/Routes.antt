-- ===== src/Admin/Routes.antt =====
-- The routes of the portal (src/admin.rs, the second half of `handle_http`), in the order of its
-- tests. What the outside decides is an argument: whether the supervisor's loop still takes
-- commands, whether the settings can be written, whether the diagnostics can be packed, what the
-- host's updater says to a request, and what the cloud lacks.
pub mod Guarded
pub mod Settings
use llrdc_casting.Admin
use llrdc_casting.Admin.{
  Request, Answer, Action, Body, Decoders, SettingsRequest, apply_to, editable_from,
  request_is_same_origin, json_content, json, text, error, admin_html, update_status, events,
  diagnostic_zip, done, target, scheduled, invalid_settings, cloud_not_provisioned, stop_sharing,
  restart, request_update, RestartRequest, UpdateRequest,
}
use llrdc_casting.Config.{ReceiverSettings, ConfigError, validate, settings_eq, parse_unsigned}
use llrdc_casting.Supervisor.{Inner, is_ready, is_streaming, restart_target, apply_settings}
use llrdc_casting.Prelude.Bytes.{bytes_eq}
use llrdc_casting.Prelude.Result.{Result, ok, err, is_ok}
use llrdc_casting.Prelude.Slices.{starts_with, before_first, after_first}
use llrdc_casting.Prelude.Text.{codes}
use llrdc_casting.Prelude.{
  ℕ, ◌^◌, ◌-◌, min, max, List, [], ◌∷◌, Option, none, some, Bool, true, false, not, ◌&&◌, ◌||◌,
  String, if◌then◌else◌, unwrap_or, is_some, length, ◌==◌,
}

-- The header line of the diagnostics, whose end is the answer's.
abbrev pub attachment : String
attachment = "Content-Disposition: attachment; filename=llrdc-diagnostics.zip"

pub record Outside : Type 0 where
  pub takes_commands : Bool
  pub persists : Bool
  pub packs : Bool
  pub updater : String → Bool
  pub missing : List String

-- The answer, if the handler gives one, the supervisor's state after it, and what it is asked to do.
pub record Outcome : Type 0 where
  pub answer : Option Answer
  pub inner : Inner
  pub actions : List Action

abbrev pub replies : Inner → Answer → Outcome
replies inner answer = record { answer = some answer; inner = inner; actions = [] }

-- The number of log lines that a path asks for.
lines_asked : List ℕ → ℕ
unfolding parse_unsigned
lines_asked path =
    let asked : Option ℕ = elim (after_first (codes "lines=") path) [
      | none ↦ none
      | some value ↦
          parse_unsigned (2 ^ 64 - 1)
            (before_first (codes "&") (before_first (codes "lines=") value))
    ] in
    max 1 (min 2000 (unwrap_or asked 200))

is_at : Request → String → Bool
is_at request path = bytes_eq request.path (codes path)

is_method : Request → String → Bool
is_method request method = bytes_eq request.method (codes method)

-- What the cloud lacks stops a change that turns it on.
lacks_cloud : List String → ReceiverSettings → Inner → Bool
lacks_cloud missing updated inner =
    updated.cloud_discovery_enabled
    && not inner.settings.cloud_discovery_enabled
    && not (length missing == 0)

-- The settings are those in force, and these were loaded without an error.
is_in_force : ReceiverSettings → Inner → Bool
unfolding settings_eq
is_in_force updated inner =
    settings_eq updated inner.settings && not (is_some inner.configuration_error)

module _ (decoders : Decoders) (out : Outside) where
  open decoders use {cloud_setting_request, restart_request, update_request, settings_request}

  -- `supervisor.restart`, whose failure ends the connection without an answer.
  asks_restart : String → Body → Inner → Outcome
  asks_restart reason body inner =
      if out.takes_commands
      then record {
        answer = some (json "202 Accepted" body);
        inner = inner;
        actions = restart reason ∷ [];
      }
      else record { answer = none; inner = inner; actions = [] }

  stop_shared_stream : Inner → Outcome
  unfolding is_ready
  stop_shared_stream inner =
      if is_ready inner && out.takes_commands
      then record {
        answer = some (json "202 Accepted" done);
        inner = inner;
        actions = stop_sharing ∷ [];
      }
      else replies inner (json "503 Service Unavailable" (error "receiver_unavailable"))

  restarted : Option RestartRequest → Inner → Outcome
  unfolding asks_restart restart_target
  restarted none inner = replies inner (json "400 Bad Request" (error "invalid_json"))
  restarted (some asked) inner =
      if asked.confirm_restart
      then asks_restart "manual_restart" (target (restart_target inner)) inner
      else replies inner (json "409 Conflict" (error "restart_confirmation_required"))

  ask_updater : String → Inner → Outcome
  ask_updater action inner =
      if out.updater action
      then record {
        answer = some (json "202 Accepted" done);
        inner = inner;
        actions = request_update action ∷ [];
      }
      else replies inner (json "503 Service Unavailable" (error "updater_unavailable"))

  apply_update : Option UpdateRequest → Inner → Outcome
  unfolding ask_updater is_streaming
  apply_update none inner = replies inner (json "400 Bad Request" (error "invalid_json"))
  apply_update (some asked) inner =
      if not asked.confirm_update
      then replies inner (json "409 Conflict" (error "update_confirmation_required"))
      else if is_streaming inner
      then replies inner (json "409 Conflict" (error "stream_active"))
      else ask_updater "apply" inner

  with_cloud : ReceiverSettings → Option Admin.CloudSettingRequest → Option SettingsRequest
  unfolding editable_from
  with_cloud current none = none
  with_cloud current (some asked) = some (record {
    settings = editable_from current (some asked.enabled);
    confirm_restart = asked.confirm_restart;
  })

  parsed_settings : Request → Inner → Option SettingsRequest
  unfolding with_cloud is_at
  parsed_settings request inner =
      if is_at request "/api/settings/cloud"
      then with_cloud inner.settings (cloud_setting_request request.body)
      else settings_request request.body

  -- The settings are stored, and a restart is asked for.
  store_settings : ReceiverSettings → Inner → Outcome
  unfolding apply_settings asks_restart restart_target
  store_settings updated inner =
      let (result, stored) = apply_settings out.persists updated inner in
      if is_ok result
      then asks_restart "settings_restart" (scheduled true (restart_target stored)) stored
      else replies stored (json "500 Internal Server Error" (error "settings_persist_failed"))

  -- Settings that are valid.
  change_settings : Bool → ReceiverSettings → Inner → Outcome
  unfolding store_settings lacks_cloud is_in_force
  change_settings confirm updated inner =
      if updated.cloud_discovery_enabled
        && not inner.settings.cloud_discovery_enabled
        && not (length out.missing == 0)
      then replies inner (json "422 Unprocessable Entity" (cloud_not_provisioned out.missing))
      else if is_in_force updated inner
      then replies inner (json "200 OK" (scheduled false inner.receiver_generation))
      else if not confirm
      then replies inner (json "409 Conflict" (error "restart_confirmation_required"))
      else store_settings updated inner

  checked_settings : Result (Unit {0}) ConfigError → Bool → ReceiverSettings → Inner → Outcome
  unfolding change_settings
  checked_settings (err detail) confirm updated inner =
      replies inner (json "422 Unprocessable Entity" (invalid_settings detail))
  checked_settings (ok u) confirm updated inner = change_settings confirm updated inner

  put_settings : Option SettingsRequest → Inner → Outcome
  unfolding checked_settings apply_to validate
  put_settings none inner = replies inner (json "400 Bad Request" (error "invalid_json"))
  put_settings (some asked) inner =
      let updated = apply_to asked.settings inner.settings in
      checked_settings (validate updated) asked.confirm_restart updated inner

  not_found : Inner → Outcome
  not_found inner = replies inner (text "404 Not Found" "Not Found")

  health_answer : Inner → Outcome
  unfolding is_ready
  health_answer inner =
      if is_ready inner
      then replies inner (text "200 OK" "OK")
      else replies inner (text "503 Service Unavailable" "RECEIVER UNAVAILABLE")

  -- The requests that only read.
  get : Request → Inner → Outcome
  unfolding is_at lines_asked request_is_same_origin health_answer not_found
  get request inner =
      if is_at request "/" || is_at request "/index.html"
      then replies inner (record {
        status = "200 OK";
        content_type = "text/html; charset=utf-8";
        body = admin_html;
        extra = none;
      })
      else if is_at request "/api/snapshot"
      then replies inner (json "200 OK" (Admin.snapshot inner))
      else if is_at request "/api/update"
      then replies inner (json "200 OK" update_status)
      else if is_at request "/health/manager"
      then replies inner (text "200 OK" "OK")
      else if is_at request "/health"
      then health_answer inner
      else if starts_with (codes "/api/logs?") request.path
      then replies inner (json "200 OK" (events (lines_asked request.path)))
      else if is_at request "/api/logs/download"
      then (if not (request_is_same_origin request.headers)
          then replies inner (json "403 Forbidden" (error "cross_origin"))
          else if out.packs
          then replies inner (record {
            status = "200 OK";
            content_type = "application/zip";
            body = diagnostic_zip;
            extra = some attachment;
          })
          else replies inner (json "500 Internal Server Error" (error "diagnostic_export_failed")))
      else not_found inner

  post : Request → Inner → Outcome
  unfolding is_at stop_shared_stream restarted ask_updater apply_update not_found
  post request inner =
      if is_at request "/api/stream/stop"
      then stop_shared_stream inner
      else if is_at request "/api/watchdog/restart"
      then restarted (restart_request request.body) inner
      else if is_at request "/api/update/check"
      then ask_updater "check" inner
      else if is_at request "/api/update/apply"
      then apply_update (update_request request.body) inner
      else not_found inner

  put : Request → Inner → Outcome
  unfolding is_at put_settings parsed_settings not_found
  put request inner =
      if is_at request "/api/settings" || is_at request "/api/settings/cloud"
      then put_settings (parsed_settings request inner) inner
      else not_found inner

  -- A request that may change something comes from a page of the host and carries JSON.
  guarded : Request → Inner → Outcome → Outcome
  unfolding request_is_same_origin json_content
  guarded request inner allowed =
      if not (request_is_same_origin request.headers)
      then replies inner (json "403 Forbidden" (error "cross_origin"))
      else if not (json_content request.headers)
      then replies inner (json "415 Unsupported Media Type" (error "application_json_required"))
      else allowed

  unfoldable pub route_request : Request → Inner → Outcome
  unfolding is_method get guarded post put not_found
  route_request request inner =
      if is_method request "GET"
      then get request inner
      else if is_method request "POST"
      then guarded request inner (post request inner)
      else if is_method request "PUT"
      then guarded request inner (put request inner)
      else not_found inner
