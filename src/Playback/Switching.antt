-- ===== src/Playback/Switching.antt =====
-- The switch of the pipeline from one configuration to another.
use llrdc_casting.Prelude.{String, Option, List, Bool-cases, inl, inr, ◌∙◌, sym, ◌||◌}
use llrdc_casting.Prelude.Text.{eq_refl}
use llrdc_casting.Playback.{
  ensure_configuration, is_configured, normalize_codec, PlaybackEngine, replace,
  start_persistent_playback, rect_eq, Bool, true, false, some, ℕ, bytes_eq, to_ascii_lowercase,
  codes, contains,
}
use llrdc_casting.Prelude.{String, Option, ◌≡◌, none, refl}

abbrev lower : String → List ℕ
lower codec = to_ascii_lowercase (codes codec)

normalize_codec_idem :
    (codec : String) → normalize_codec (normalize_codec codec) ≡ normalize_codec codec
unfolding normalize_codec
normalize_codec_idem codec =
    elim (Bool-cases (
      bytes_eq (lower codec) (codes "raw")
      || bytes_eq (lower codec) (codes "bgra")
      || bytes_eq (lower codec) (codes "dashboard"))) [
        | inl raw ↦ rw raw refl
        | inr encoded ↦ elim (Bool-cases (contains (codes "264") (lower codec))) [
          | inl h264 ↦ rw (encoded, h264) refl
          | inr h265 ↦ rw (encoded, h265) refl
        ]
      ]

rect_eq_refl : (o : Option String) → rect_eq o o ≡ true
unfolding rect_eq
rect_eq_refl none = refl
rect_eq_refl (some a) = eq_refl a

is_configured_self :
    (codec aspect_mode : String) (rect : Option String) (engine : PlaybackEngine)
    → engine.current_codec ≡ normalize_codec codec
    → engine.render_rect ≡ rect
    → engine.aspect_mode ≡ aspect_mode
    → is_configured codec rect aspect_mode engine ≡ true
unfolding is_configured
is_configured_self codec aspect_mode rect engine c r a =
    rw (c, r, a, eq_refl (normalize_codec codec), rect_eq_refl rect, eq_refl aspect_mode) refl

start-configured :
    (plane : String) (starts : Bool) (codec connector aspect_mode : String) (rect : Option String)
    (width height : ℕ) (engine : PlaybackEngine)
    → start_persistent_playback plane starts codec connector rect aspect_mode width height
      ≡ some engine
    → (engine.current_codec ≡ normalize_codec codec)
      × (engine.render_rect ≡ rect)
      × (engine.aspect_mode ≡ aspect_mode)
unfolding start_persistent_playback
start-configured plane true codec connector aspect_mode rect width height engine h =
    (cc h, cc h, cc h)
start-configured plane false codec connector aspect_mode rect width height engine h = cc h

replace-true :
    (o : Option PlaybackEngine) (engine after : PlaybackEngine)
    → replace o engine ≡ (true, after)
    → o ≡ some after
unfolding replace
replace-true none engine after h = cc h
replace-true (some e) engine after h = cc h

module _ (plane : String) (starts : Bool) where
  -- After a request for a configuration that succeeds, the same request succeeds again and leaves
  -- the engine as it is, whether its own process would start or not.
  pub ensure_configuration-settles :
      (codec connector aspect_mode : String) (rect : Option String) (engine after : PlaybackEngine)
      → ensure_configuration plane starts codec connector rect aspect_mode engine ≡ (true, after)
      → (again : Bool)
      → ensure_configuration plane again codec connector rect aspect_mode after ≡ (true, after)
  unfolding ensure_configuration
  ensure_configuration-settles codec connector aspect_mode rect engine after h again =
      elim (Bool-cases (is_configured codec rect aspect_mode engine)) [
        | inl same ↦ let kept : after ≡ engine = cc (rw same at h) in rw (kept, same) refl
        | inr other ↦
            let started = replace-true _ engine after (rw other at h) in
            let (c, r, a) =
              start-configured plane starts (normalize_codec codec) connector aspect_mode rect
                engine.width engine.height after started in
            rw
              (is_configured_self codec aspect_mode rect after (c ∙ normalize_codec_idem codec) r a)
              refl
      ]

  -- A switch whose process does not start leaves the engine stopped under the name of the old
  -- configuration, and a request for that one is then answered without a process.
  pub ensure_configuration-stranded :
      (codec connector aspect_mode : String) (rect : Option String) (engine : PlaybackEngine)
      → normalize_codec engine.current_codec ≡ engine.current_codec
      → is_configured codec rect aspect_mode engine ≡ false
      → (later : Bool)
      → (ensure_configuration plane later engine.current_codec connector engine.render_rect
            engine.aspect_mode
            (ensure_configuration plane false codec connector rect aspect_mode engine).1
          ≡ (true, record engine { running = false }))
  unfolding ensure_configuration
  ensure_configuration-stranded codec connector aspect_mode rect engine norm other later =
      let own =
        is_configured_self engine.current_codec engine.aspect_mode engine.render_rect
          (record engine { running = false }) (sym norm) refl refl in
      rw (other, own) refl
