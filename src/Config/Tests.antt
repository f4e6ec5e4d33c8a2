-- ===== src/Config/Tests.antt =====
-- The default settings load.
use llrdc_casting.Config.Validation.{Usable, load_settings_at-Usable}
use llrdc_casting.Config.{
  Environment, load_settings_at, none, Option, settings_source, default_settings,
  DeviceConfigDocument, versioned, some, validate, validate_lines, [], validate_ports,
  validate_rest, text_fields, port_fields, is_single_line, ports_collide, ok,
}
use llrdc_casting.Prelude.{ℕ, List, ◌≡◌, refl}

abbrev no_environment : Environment
no_environment name = none

abbrev document_of : List ℕ → Option DeviceConfigDocument
document_of text = some (record { version = 1; server = default_settings })

defaults_load : load_settings_at document_of no_environment (some []) ≡ ok default_settings
unfolding load_settings_at settings_source versioned validate validate_lines validate_ports
    validate_rest text_fields port_fields is_single_line ports_collide default_settings
defaults_load = refl

load_settings_at-Usable_example : Usable default_settings
load_settings_at-Usable_example =
    load_settings_at-Usable document_of no_environment (some []) default_settings defaults_load
