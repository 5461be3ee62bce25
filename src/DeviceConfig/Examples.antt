-- ===== src/DeviceConfig/Examples.antt =====
-- The theorems about the device configuration of tools/src/profiles.c at concrete inputs.
use lg_magic.DeviceConfig.{
  DeviceConfig, device_config_init, str_field, calib_of, airmouse_field, parse_button, parse_map,
  map_field, num_field, profile_parse_fields, read_profile, parse_profile, parse_profiles,
  profiles_field, validate_profiles, active_defined, device_config_validate, from_table,
  device_config_from_toml, profile_ensure,
}
use lg_magic.DeviceConfig.Reading.{IsWellFormed, device_config_from_toml-IsWellFormed}
use lg_magic.DeviceConfig.RoundTrip.{IsCanonicalConfig, device_config_round_trip}
use lg_magic.DeviceConfig.Writing.{device_config_to_toml}
use lg_magic.Keymap.{name_to_code, code_of, code_to_name, name_of}
use lg_magic.Prelude.{◌≡◌, refl, true, false, none, some, [], ◌∷◌, arith}
use lg_magic.Prelude.Float.{whole}
use lg_magic.Prelude.Int.{pos, negsuc}
use lg_magic.Prelude.Result.{ok}
use lg_magic.Profile.{
  Profile, set_entry, find_profile, known_keycode, validate_map, profile_init, profile_validate,
}
use lg_magic.Profile.Buttons.{mapped}
use lg_magic.Toml.{Toml, str, int, table, nil, entry, table_get_short}

-- profile = "tv", and [profiles.tv] with scroll_speed = 2 and UP and DOWN exchanged.
abbrev document : Toml whole.Double
document = table (
    entry "profile" (str "tv") (
      entry "profiles"
        (table (
          entry "tv"
            (table (
              entry "scroll_speed" (int (pos 2)) (
                entry "button_map"
                  (table (entry "KEY_UP" (str "KEY_DOWN") (entry "KEY_DOWN" (str "KEY_UP") nil)))
                  nil)))
            nil))
        nil))

abbrev pub tv : Profile whole.Double
tv = record {
  name = "tv";
  scroll_speed = pos 2;
  sensitivity = pos 30;
  lpf_alpha = negsuc 0;
  has_scroll = true;
  has_sens = false;
  has_lpf = false;
  map = record { from = 103; to = 108 } ∷ record { from = 108; to = 103 } ∷ [];
}

abbrev pub config : DeviceConfig whole.Double
config = record {
  profile = "tv";
  calib = none;
  airmouse = true;
  has_airmouse = false;
  profiles = tv ∷ [];
}

program : Unit {0}
unfolding device_config_init str_field calib_of airmouse_field parse_button parse_map map_field
    num_field profile_parse_fields read_profile parse_profile parse_profiles profiles_field
    validate_profiles active_defined device_config_validate from_table device_config_from_toml
    profile_ensure name_to_code code_of code_to_name name_of set_entry find_profile known_keycode
    validate_map profile_init profile_validate table_get_short mapped
program = tt

document_read :
    device_config_from_toml whole (some document) (device_config_init whole.Double) ≡ ok config
unfolding program
document_read = refl

pub config-IsWellFormed : IsWellFormed whole config
unfolding program
config-IsWellFormed =
    device_config_from_toml-IsWellFormed whole (some document) (device_config_init whole.Double)
      config refl

device_config_from_toml-IsWellFormed_example : IsWellFormed whole config
unfolding program
device_config_from_toml-IsWellFormed_example =
    device_config_from_toml-IsWellFormed whole (some document) (device_config_init whole.Double)
      config refl

config-IsCanonicalConfig : IsCanonicalConfig whole config
unfolding calib_of
config-IsCanonicalConfig = record {
  profiles = (
    record { scroll_speed = λ h. ground arith; sensitivity = λ h. refl; lpf_alpha = λ h. refl },
    tt,
  );
  calib = refl;
  airmouse = λ h. refl;
}

device_config_round_trip_example :
    (t : Toml whole.Double) × (device_config_to_toml config ≡ some t)
    × (device_config_from_toml whole (some t) (device_config_init whole.Double) ≡ ok config)
device_config_round_trip_example =
    device_config_round_trip whole config config-IsWellFormed config-IsCanonicalConfig
