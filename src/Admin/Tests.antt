-- ===== src/Admin/Tests.antt =====
-- Runs of the portal at concrete requests.
use llrdc_casting.Admin.Reading.Heads.{concat_all}
use llrdc_casting.Admin.{Request, Decoders, restart, stop_sharing}
use llrdc_casting.Admin.Portal.{handle_http, is_upgrade, says, closes, SocketEvent}
use llrdc_casting.Admin.Portal.Hijack.{ActsFor, handle_http-ActsFor, handle_http-stops, stops_asked}
use llrdc_casting.Admin.Reading.{read_request}
use llrdc_casting.Admin.Reading.Whole.{IsPiece, read_request-IsPiece}
use llrdc_casting.Admin.Routes.{Outside, route_request}
use llrdc_casting.Admin.Routes.Settings.{Kept, route_request-Kept}
use llrdc_casting.Admin.Socket.{run_client, serve_line}
use llrdc_casting.Admin.Socket.Codes.{run_client-serve_line}
use llrdc_casting.Config.{default_settings}
use llrdc_casting.Supervisor.{Inner, is_ready}
use llrdc_casting.Prelude.Result.{ok}
use llrdc_casting.Prelude.Text.{codes}
use llrdc_casting.Prelude.{
  ℕ, List, [], ◌∷◌, ◌++◌, some, none, true, false, Bool, ◌≡◌, refl, All, length, ◌==◌,
}

-- Decoders that take the body `yes` for a confirmation.
abbrev is_yes : List ℕ → Bool
is_yes body = length body == 3

abbrev decoders : Decoders
decoders = record {
  cloud_setting_request = λ body. some (record { enabled = true; confirm_restart = is_yes body });
  restart_request = λ body. some (record { confirm_restart = is_yes body });
  update_request = λ body. some (record { confirm_update = is_yes body });
  settings_request = λ body. none;
}

abbrev out : Outside
out = record {
  takes_commands = true;
  persists = true;
  packs = true;
  updater = λ action. true;
  missing = [];
}

abbrev line_end : List ℕ
line_end = 13 ∷ 10 ∷ []

abbrev restart_head : List ℕ
restart_head =
    codes "POST /api/watchdog/restart HTTP/1.1" ++ (line_end ++ (codes "Host: tv" ++ line_end))

abbrev restart_tail : List ℕ
restart_tail =
    codes "Origin: https://tv"
    ++ (line_end
        ++ (codes "Content-Type: application/json"
            ++ (line_end
                ++ (codes "Content-Length: 3" ++ (line_end ++ (line_end ++ codes "yes"))))))

abbrev inner : Inner
inner = record {
  manager_started = 0;
  receiver_started = some 1;
  receiver_state = "ready";
  receiver_generation = 4;
  receiver_pid = some 9;
  restart_count = 0;
  consecutive_failures = 0;
  next_retry = none;
  last_failure = none;
  configuration_error = none;
  settings = default_settings;
  management = none;
  pairing = record {
    code = none;
    local_status = "UNAVAILABLE";
    cloud_status = "UNAVAILABLE";
    cloud_ip = none;
  };
  ring = [];
  seen_events = 0;
  seen_sessions = [];
}

read_request-IsPiece_example :
    IsPiece
      (restart_head ++ concat_all (restart_tail ∷ []))
      (read_request restart_head (restart_tail ∷ []))
read_request-IsPiece_example = read_request-IsPiece restart_head (restart_tail ∷ [])

is_plain : is_upgrade restart_head ≡ false
unfolding is_upgrade
is_plain = refl

handle_http-ActsFor_example :
    ActsFor decoders out inner
      (read_request restart_head (restart_tail ∷ []))
      (handle_http decoders out true [] restart_head (restart_tail ∷ []) inner).actions
handle_http-ActsFor_example =
    handle_http-ActsFor decoders out inner true [] restart_head (restart_tail ∷ []) refl is_plain

restarts_by_request :
    (handle_http decoders out true [] restart_head (restart_tail ∷ []) inner).actions
    ≡ restart "manual_restart" ∷ []
unfolding handle_http
restarts_by_request = refl

abbrev cloud_on : Request
cloud_on = record {
  method = codes "PUT";
  path = codes "/api/settings/cloud";
  headers = [];
  body = codes "yes";
}

route_request-Kept_example : Kept inner (route_request decoders out cloud_on inner).inner
route_request-Kept_example = route_request-Kept inner decoders out cloud_on

-- A page of another site opens a WebSocket.
abbrev foreign : List ℕ
foreign =
    codes "GET / HTTP/1.1"
    ++ (line_end
        ++ (codes "Upgrade: websocket" ++ (line_end ++ (codes "Origin: https://evil" ++ line_end))))

is_foreign_upgrade : is_upgrade foreign ≡ true
unfolding is_upgrade
is_foreign_upgrade = refl

is_inner_ready : is_ready inner ≡ true
unfolding is_ready
is_inner_ready = refl

abbrev asks : List SocketEvent
asks = says (codes "stop") ∷ closes ∷ []

handle_http-stops_example :
    (length (handle_http decoders out true asks foreign [] inner).actions ≡ stops_asked asks)
    × All
        (λ action. action ≡ stop_sharing)
        (handle_http decoders out true asks foreign [] inner).actions
handle_http-stops_example =
    handle_http-stops inner is_inner_ready decoders out asks foreign [] refl refl is_foreign_upgrade

run_client-serve_line_example :
    run_client (some (codes "pairing-code")) false (λ line. serve_line line (ok (codes "A1B2")))
    ≡ ok (codes "A1B2")
run_client-serve_line_example = run_client-serve_line b'A' b'1' b'B' b'2' refl
