-- ===== src/Admin/Routes/Settings.antt =====
-- What a request can do to the settings: nothing, or a valid change of those that the portal edits.
use llrdc_casting.Admin.{
  Request, Body, Decoders, SettingsRequest, EditableSettings, apply_to, not, Option, String, some,
  RestartRequest, UpdateRequest, starts_with, request_is_same_origin, codes, json_content,
}
use llrdc_casting.Admin.Routes.{
  Outside, Outcome, route_request, get, post, put, guarded, stop_shared_stream, restarted,
  ask_updater, apply_update, put_settings, parsed_settings, checked_settings, change_settings,
  store_settings, asks_restart, health_answer, not_found, is_at, is_method, lacks_cloud,
  is_in_force, is_streaming,
}
use llrdc_casting.Config.{ReceiverSettings, ConfigError, validate}
use llrdc_casting.Supervisor.{Inner, apply_settings, after_validation, persisted, is_ready}
use llrdc_casting.Prelude.Result.{Result, ok, err, is_ok}
use llrdc_casting.Prelude.{Bool, true, false, ◌≡◌, refl, if_holds, none, ◌||◌, ◌&&◌}

-- The fields that the portal does not edit are as before.
pub record Protected (before after : ReceiverSettings) : Type 0 where
  pub same_bind_address : after.admin_bind_address ≡ before.admin_bind_address
  pub same_port : after.admin_port ≡ before.admin_port
  pub same_certificates : after.cert_dir ≡ before.cert_dir
  pub same_worker : after.pairing_worker_url ≡ before.pairing_worker_url
  pub same_receiver : after.receiver_id ≡ before.receiver_id
  pub same_key : after.pairing_token_public_key_file ≡ before.pairing_token_public_key_file

-- The supervisor's state is as before, or holds other settings, which are valid, and no error.
pub data Kept (before after : Inner) : Type 0 where
  same : after ≡ before → Kept before after
  changed :
      (settings : ReceiverSettings)
      → after ≡ record before { settings = settings; configuration_error = none }
      → validate settings ≡ ok tt
      → Protected before.settings settings
      → Kept before after

module _ (inner : Inner) where
  record Keeps (o : Outcome) : Type 0 where
    kept : Kept inner o.inner

  unchanged : (o : Outcome) → o.inner ≡ inner → Keeps o
  unchanged o e = record { kept = same e }

  apply_to-Protected : (e : EditableSettings) (s : ReceiverSettings) → Protected s (apply_to e s)
  unfolding apply_to
  apply_to-Protected e s = record {
    same_bind_address = refl;
    same_port = refl;
    same_certificates = refl;
    same_worker = refl;
    same_receiver = refl;
    same_key = refl;
  }

  persisted-Kept :
      (persist : Bool) (updated : ReceiverSettings)
      → validate updated ≡ ok tt
      → Protected inner.settings updated
      → Kept inner (persisted persist updated inner).1
  unfolding persisted
  persisted-Kept false updated valid kept = same refl
  persisted-Kept true updated valid kept = changed updated refl valid kept

  after_validation-Kept :
      (persist : Bool) (updated : ReceiverSettings)
      → validate updated ≡ ok tt
      → Protected inner.settings updated
      → Kept inner (after_validation (validate updated) persist updated inner).1
  unfolding after_validation is_in_force
  after_validation-Kept persist updated valid kept = rw valid (
      if_holds (λ (p : Result Bool ConfigError × Inner). Kept inner p.1) (is_in_force updated inner)
        (same refl) (persisted-Kept persist updated valid kept))

  module _ (decoders : Decoders) (out : Outside) (request : Request) where
    asks_restart-Keeps :
        (reason : _) (body : Body) (stored : Inner)
        → Kept inner stored
        → Keeps (asks_restart decoders out reason body stored)
    unfolding asks_restart
    asks_restart-Keeps reason body stored k =
        if_holds Keeps out.takes_commands (record { kept = k }) (record { kept = k })

    store_settings-Keeps :
        (updated : ReceiverSettings)
        → validate updated ≡ ok tt
        → Protected inner.settings updated
        → Keeps (store_settings decoders out updated inner)
    unfolding store_settings
    store_settings-Keeps updated valid kept =
        let k : Kept inner (apply_settings out.persists updated inner).1 =
          unfold apply_settings in after_validation-Kept out.persists updated valid kept in
        if_holds Keeps (is_ok (apply_settings out.persists updated inner).0)
          (asks_restart-Keeps _ _ _ k) (record { kept = k })

    change_settings-Keeps :
        (confirm : Bool) (updated : ReceiverSettings)
        → validate updated ≡ ok tt
        → Protected inner.settings updated
        → Keeps (change_settings decoders out confirm updated inner)
    unfolding change_settings
    change_settings-Keeps confirm updated valid kept =
        if_holds Keeps (lacks_cloud out.missing updated inner) (unchanged _ refl) (
          if_holds Keeps (is_in_force updated inner) (unchanged _ refl) (
            if_holds Keeps (not confirm) (unchanged _ refl)
              (store_settings-Keeps updated valid kept)))

    checked_settings-Keeps :
        (r : Result (Unit {0}) ConfigError) (confirm : Bool) (updated : ReceiverSettings)
        → validate updated ≡ r
        → Protected inner.settings updated
        → Keeps (checked_settings decoders out r confirm updated inner)
    unfolding checked_settings
    checked_settings-Keeps (err detail) confirm updated e kept = unchanged _ refl
    checked_settings-Keeps (ok u) confirm updated e kept =
        change_settings-Keeps confirm updated e kept

    put_settings-Keeps : (o : Option SettingsRequest) → Keeps (put_settings decoders out o inner)
    unfolding put_settings
    put_settings-Keeps none = unchanged _ refl
    put_settings-Keeps (some asked) =
        checked_settings-Keeps _ asked.confirm_restart _ refl
          (apply_to-Protected asked.settings inner.settings)

    put-Keeps : Keeps (put decoders out request inner)
    unfolding put not_found
    put-Keeps =
        if_holds Keeps (is_at request "/api/settings" || is_at request "/api/settings/cloud")
          (put_settings-Keeps (parsed_settings decoders out request inner)) (unchanged _ refl)

    restarted-Keeps : (o : Option RestartRequest) → Keeps (restarted decoders out o inner)
    unfolding restarted
    restarted-Keeps none = unchanged _ refl
    restarted-Keeps (some asked) =
        if_holds Keeps asked.confirm_restart (asks_restart-Keeps _ _ inner (same refl))
          (unchanged _ refl)

    ask_updater-Keeps : (action : String) → Keeps (ask_updater decoders out action inner)
    unfolding ask_updater
    ask_updater-Keeps action =
        if_holds Keeps (out.updater action) (unchanged _ refl) (unchanged _ refl)

    apply_update-Keeps : (o : Option UpdateRequest) → Keeps (apply_update decoders out o inner)
    unfolding apply_update
    apply_update-Keeps none = unchanged _ refl
    apply_update-Keeps (some asked) =
        if_holds Keeps (not asked.confirm_update) (unchanged _ refl)
          (if_holds Keeps (is_streaming inner) (unchanged _ refl) (ask_updater-Keeps "apply"))

    post-Keeps : Keeps (post decoders out request inner)
    unfolding post not_found stop_shared_stream
    post-Keeps =
        if_holds Keeps (is_at request "/api/stream/stop")
          (if_holds Keeps (is_ready inner && out.takes_commands) (unchanged _ refl)
            (unchanged _ refl))
          (if_holds Keeps (is_at request "/api/watchdog/restart")
            (restarted-Keeps (decoders.restart_request request.body))
            (if_holds Keeps (is_at request "/api/update/check") (ask_updater-Keeps "check") (
              if_holds Keeps (is_at request "/api/update/apply")
                (apply_update-Keeps (decoders.update_request request.body)) (unchanged _ refl))))

    get-Keeps : Keeps (get decoders out request inner)
    unfolding get health_answer not_found
    get-Keeps =
        if_holds Keeps (is_at request "/" || is_at request "/index.html") (unchanged _ refl) (
          if_holds Keeps (is_at request "/api/snapshot") (unchanged _ refl) (
            if_holds Keeps (is_at request "/api/update") (unchanged _ refl) (
              if_holds Keeps (is_at request "/health/manager") (unchanged _ refl) (
                if_holds Keeps (is_at request "/health")
                  (if_holds Keeps (is_ready inner) (unchanged _ refl) (unchanged _ refl))
                  (if_holds Keeps (starts_with (codes "/api/logs?") request.path) (unchanged _ refl)
                    (if_holds Keeps (is_at request "/api/logs/download")
                      (if_holds Keeps (not (request_is_same_origin request.headers))
                        (unchanged _ refl)
                        (if_holds Keeps out.packs (unchanged _ refl) (unchanged _ refl)))
                      (unchanged _ refl)))))))

    guarded-Keeps : (o : Outcome) → Keeps o → Keeps (guarded decoders out request inner o)
    unfolding guarded
    guarded-Keeps o k =
        if_holds Keeps (not (request_is_same_origin request.headers)) (unchanged _ refl)
          (if_holds Keeps (not (json_content request.headers)) (unchanged _ refl) k)

    route_request-Keeps : Keeps (route_request decoders out request inner)
    unfolding route_request not_found
    route_request-Keeps = if_holds Keeps (is_method request "GET") get-Keeps (
        if_holds Keeps (is_method request "POST") (guarded-Keeps _ post-Keeps)
          (if_holds Keeps (is_method request "PUT") (guarded-Keeps _ put-Keeps) (unchanged _ refl)))

    -- A request leaves the supervisor's state as it is, or it stores settings that pass the
    -- validation, clears the configuration error and changes nothing else; the address and port of
    -- the portal, the certificates, the worker, the receiver's name and the key file stay.
    pub route_request-Kept : Kept inner (route_request decoders out request inner).inner
    route_request-Kept = route_request-Keeps.kept
