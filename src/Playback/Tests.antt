-- ===== src/Playback/Tests.antt =====
-- Runs of the playback's parts at concrete requests.
use llrdc_casting.Playback.{
  PlaybackEngine, ensure_configuration, is_configured, normalize_codec, rect_eq,
  start_persistent_playback, replace,
}
use llrdc_casting.Playback.Switching.{ensure_configuration-settles, ensure_configuration-stranded}
use llrdc_casting.Prelude.{none, [], ◌≡◌, refl, true, false}

abbrev dashboard : PlaybackEngine
dashboard = record {
  running = true;
  args = [];
  capacity = 2;
  current_codec = "raw";
  width = 1920;
  height = 1080;
  render_rect = none;
  aspect_mode = "dashboard";
}

hevc_settled :
    ensure_configuration "33" true "h265" "54" none "composed"
      (ensure_configuration "33" true "hevc" "54" none "composed" dashboard).1
    ≡ (true, (ensure_configuration "33" true "hevc" "54" none "composed" dashboard).1)
unfolding ensure_configuration is_configured normalize_codec rect_eq replace
    start_persistent_playback
hevc_settled = refl

hevc_switched :
    ensure_configuration "33" true "hevc" "54" none "composed" dashboard
    ≡ (true, (ensure_configuration "33" true "hevc" "54" none "composed" dashboard).1)
unfolding ensure_configuration is_configured normalize_codec rect_eq replace
    start_persistent_playback
hevc_switched = refl

ensure_configuration-settles_example :
    ensure_configuration "33" false "hevc" "54" none "composed"
      (ensure_configuration "33" true "hevc" "54" none "composed" dashboard).1
    ≡ (true, (ensure_configuration "33" true "hevc" "54" none "composed" dashboard).1)
ensure_configuration-settles_example =
    ensure_configuration-settles "33" true "hevc" "54" "composed" none dashboard
      (ensure_configuration "33" true "hevc" "54" none "composed" dashboard).1 hevc_switched false

raw_normal : normalize_codec "raw" ≡ "raw"
unfolding normalize_codec
raw_normal = refl

hevc_differs : is_configured "hevc" none "composed" dashboard ≡ false
unfolding is_configured normalize_codec
hevc_differs = refl

ensure_configuration-stranded_example :
    ensure_configuration "33" true "raw" "54" none "dashboard"
      (ensure_configuration "33" false "hevc" "54" none "composed" dashboard).1
    ≡ (true, record dashboard { running = false })
ensure_configuration-stranded_example =
    ensure_configuration-stranded "33" true "hevc" "54" "composed" none dashboard raw_normal
      hevc_differs true
