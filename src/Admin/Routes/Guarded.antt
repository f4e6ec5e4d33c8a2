-- ===== src/Admin/Routes/Guarded.antt =====
-- Whatever a request has the manager do was asked for by a page of the host, as JSON, and confirmed
-- where a confirmation is due.
use llrdc_casting.Admin.{
  Request, Action, Decoders, SettingsRequest, request_is_same_origin, json_content, stop_sharing,
  restart, request_update, Body, UpdateRequest, apply_to, RestartRequest, not,
}
use llrdc_casting.Admin.Routes.{
  Outside, Outcome, route_request, get, post, put, guarded, stop_shared_stream, ask_updater,
  apply_update, put_settings, parsed_settings, checked_settings, change_settings, store_settings,
  asks_restart, health_answer, not_found, restarted, is_ok, apply_settings, lacks_cloud, is_at,
  is_method, is_in_force,
}
use llrdc_casting.Config.{ReceiverSettings, ConfigError, validate}
use llrdc_casting.Supervisor.{Inner, is_ready, is_streaming}
use llrdc_casting.Prelude.Result.{Result, ok, err}
use llrdc_casting.Prelude.Slices.{starts_with}
use llrdc_casting.Prelude.Text.{codes}
use llrdc_casting.Prelude.{
  [], ◌∷◌, Option, none, some, true, false, ◌≡◌, refl, ◌⊎◌, inl, inr, All, String, if_holds,
  if_cases, not-false, and-left, ◌&&◌, All-map, ◌||◌, subst, sym,
}
use llrdc_casting.Admin.Origin.{OwnPage, request_is_same_origin-OwnPage}

-- A predicate of every action of an outcome.
pub record Each (P : Action → Type 0) (o : Outcome) : Type 0 where
  pub all : All P o.actions

none_of : {P : Action → Type 0} (o : Outcome) → o.actions ≡ [] → Each P o
none_of {P} o e = record { all = subst (All P) (sym e) tt }

one_of :
    {P : Action → Type 0} (o : Outcome) {action : Action}
    → o.actions ≡ action ∷ []
    → P action
    → Each P o
one_of {P} o e h = record { all = subst (All P) (sym e) (h, tt) }

module _ (decoders : Decoders) (out : Outside) (request : Request) (inner : Inner) where
  -- The body confirms the action, and the receiver is in a state for it.
  pub Confirmed : Action → Type 0
  Confirmed stop_sharing = is_ready inner ≡ true
  Confirmed (restart reason) =
      ((asked : _) × (decoders.restart_request request.body ≡ some asked)
        × (asked.confirm_restart ≡ true))
      ⊎ ((asked : SettingsRequest) × (parsed_settings decoders out request inner ≡ some asked)
          × (asked.confirm_restart ≡ true))
  Confirmed (request_update action) =
      (action ≡ "check")
      ⊎ ((asked : _) × (decoders.update_request request.body ≡ some asked)
          × (asked.confirm_update ≡ true)
          × (is_streaming inner ≡ false))

  abbrev Holds : Outcome → Type 0
  Holds = Each Confirmed

  asks_restart-Holds :
      (reason : String) (body : Body) (stored : Inner)
      → Confirmed (restart reason)
      → Holds (asks_restart decoders out reason body stored)
  unfolding asks_restart
  asks_restart-Holds reason body stored h =
      if_holds Holds out.takes_commands (one_of _ refl h) (none_of _ refl)

  stop_shared_stream-Holds : Holds (stop_shared_stream decoders out inner)
  unfolding stop_shared_stream Confirmed
  stop_shared_stream-Holds =
      if_cases Holds (is_ready inner && out.takes_commands) (λ e. one_of _ refl (and-left _ _ e))
        (λ e. none_of _ refl)

  restarted-Holds :
      (o : Option RestartRequest)
      → decoders.restart_request request.body ≡ o
      → Holds (restarted decoders out o inner)
  unfolding restarted Confirmed
  restarted-Holds none e = none_of _ refl
  restarted-Holds (some asked) e =
      if_cases Holds asked.confirm_restart
        (λ confirmed. asks_restart-Holds _ _ inner (inl (asked, e, confirmed)))
        (λ refused. none_of _ refl)

  ask_updater-Holds :
      (action : String)
      → Confirmed (request_update action)
      → Holds (ask_updater decoders out action inner)
  unfolding ask_updater
  ask_updater-Holds action h =
      if_holds Holds (out.updater action) (one_of _ refl h) (none_of _ refl)

  apply_update-Holds :
      (o : Option UpdateRequest)
      → decoders.update_request request.body ≡ o
      → Holds (apply_update decoders out o inner)
  unfolding apply_update Confirmed
  apply_update-Holds none e = none_of _ refl
  apply_update-Holds (some asked) e =
      if_cases Holds (not asked.confirm_update) (λ refused. none_of _ refl)
        (λ confirmed.
          if_cases Holds (is_streaming inner) (λ streams. none_of _ refl)
            (λ idle. ask_updater-Holds "apply" (inr (asked, e, not-false _ confirmed, idle))))

  store_settings-Holds :
      (updated : ReceiverSettings)
      → Confirmed (restart "settings_restart")
      → Holds (store_settings decoders out updated inner)
  unfolding store_settings
  store_settings-Holds updated h =
      if_holds Holds (is_ok (apply_settings out.persists updated inner).0)
        (asks_restart-Holds _ _ _ h) (none_of _ refl)

  change_settings-Holds :
      (asked : SettingsRequest) (updated : ReceiverSettings)
      → parsed_settings decoders out request inner ≡ some asked
      → Holds (change_settings decoders out asked.confirm_restart updated inner)
  unfolding change_settings Confirmed
  change_settings-Holds asked updated e =
      if_holds Holds (lacks_cloud out.missing updated inner) (none_of _ refl) (
        if_holds Holds (is_in_force updated inner) (none_of _ refl) (
          if_cases Holds (not asked.confirm_restart) (λ refused. none_of _ refl)
            (λ confirmed. store_settings-Holds updated (inr (asked, e, not-false _ confirmed)))))

  put_settings-Holds :
      (o : Option SettingsRequest)
      → parsed_settings decoders out request inner ≡ o
      → Holds (put_settings decoders out o inner)
  unfolding put_settings
  put_settings-Holds none e = none_of _ refl
  put_settings-Holds (some asked) e = checked (validate (apply_to asked.settings inner.settings))
    where
      checked :
          (r : Result (Unit {0}) ConfigError)
          → Holds (
              checked_settings decoders out r asked.confirm_restart
                (apply_to asked.settings inner.settings)
                inner)
      checked (err detail) = unfold checked_settings in none_of _ refl
      checked (ok u) = change_settings-Holds asked _ e

  post-Holds : Holds (post decoders out request inner)
  unfolding post not_found Confirmed
  post-Holds = if_holds Holds (is_at request "/api/stream/stop") stop_shared_stream-Holds (
      if_holds Holds (is_at request "/api/watchdog/restart")
        (restarted-Holds (decoders.restart_request request.body) refl)
        (if_holds Holds (is_at request "/api/update/check") (ask_updater-Holds "check" (inl refl)) (
          if_holds Holds (is_at request "/api/update/apply")
            (apply_update-Holds (decoders.update_request request.body) refl) (none_of _ refl))))

  put-Holds : Holds (put decoders out request inner)
  unfolding put not_found
  put-Holds =
      if_holds Holds (is_at request "/api/settings" || is_at request "/api/settings/cloud")
        (put_settings-Holds (parsed_settings decoders out request inner) refl) (none_of _ refl)

  -- What is done comes from a page of the host, as JSON, with its confirmation.
  pub Granted : Action → Type 0
  Granted action =
      OwnPage request.headers × (json_content request.headers ≡ true) × Confirmed action

  abbrev Grants : Outcome → Type 0
  Grants = Each Granted

  guarded-Grants : (o : Outcome) → Holds o → Grants (guarded decoders out request inner o)
  unfolding guarded Granted
  guarded-Grants o h =
      if_cases Grants (not (request_is_same_origin request.headers)) (λ foreign. none_of _ refl)
        (λ own.
          if_cases Grants (not (json_content request.headers)) (λ other. none_of _ refl)
            (λ is_json. record {
              all =
                  All-map Confirmed Granted o.actions
                    (λ action c. (
                      request_is_same_origin-OwnPage request.headers (not-false _ own),
                      not-false _ is_json,
                      c,
                    ))
                    h.all;
            }))

  get-Grants : Grants (get decoders out request inner)
  unfolding get health_answer not_found
  get-Grants = if_holds Grants (is_at request "/" || is_at request "/index.html") (none_of _ refl) (
      if_holds Grants (is_at request "/api/snapshot") (none_of _ refl) (
        if_holds Grants (is_at request "/api/update") (none_of _ refl) (
          if_holds Grants (is_at request "/health/manager") (none_of _ refl) (
            if_holds Grants (is_at request "/health")
              (if_holds Grants (is_ready inner) (none_of _ refl) (none_of _ refl))
              (if_holds Grants (starts_with (codes "/api/logs?") request.path) (none_of _ refl) (
                if_holds Grants (is_at request "/api/logs/download")
                  (if_holds Grants (not (request_is_same_origin request.headers)) (none_of _ refl)
                    (if_holds Grants out.packs (none_of _ refl) (none_of _ refl)))
                  (none_of _ refl)))))))

  pub route_request-Grants : Grants (route_request decoders out request inner)
  unfolding route_request not_found
  route_request-Grants = if_holds Grants (is_method request "GET") get-Grants (
      if_holds Grants (is_method request "POST") (guarded-Grants _ post-Holds)
        (if_holds Grants (is_method request "PUT") (guarded-Grants _ put-Holds) (none_of _ refl)))
