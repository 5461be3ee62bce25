-- ===== src/Config/Examples.antt =====
-- The theorems about tools/src/config.c at concrete inputs.
use lg_magic.Config.{
  x_mouse_scale, config_load, set_defaults, key_bit, set_field, set_key, set_from_value, merge_keys,
  merge_file, merge_named, number_value,
}
use lg_magic.Config.Precedence.{
  setting, number, given, given_named, overlay, config_load_precedence,
}
use lg_magic.Prelude.{ℕ, ◌≡◌, refl, false, none, some}
use lg_magic.Prelude.Float.{whole}
use lg_magic.Prelude.Int.{ℤ, pos}
use lg_magic.Toml.{Toml, int, str, table, entry, nil, table_get_short}

-- The system's file sets a scale, the user's one a text in its place, and the extra file is missing.
abbrev system_file : Toml whole.Double
system_file = table (entry "mouse_scale" (int (pos 12)) nil)

abbrev user_file : Toml whole.Double
user_file = table (entry "mouse_scale" (str "fast") nil)

abbrev decimal : ℕ → ℕ → ℤ
decimal n k = pos n

config_load_precedence_example :
    let st = config_load whole decimal (some system_file) (some (some user_file)) (some none) in
    (setting x_mouse_scale st.config, st.explicit x_mouse_scale)
    ≡ overlay whole (given_named whole x_mouse_scale (some none)) (
        overlay whole (given_named whole x_mouse_scale (some (some user_file))) (
          overlay whole
            (given whole x_mouse_scale (some system_file))
            (setting x_mouse_scale (set_defaults whole decimal), false)))
config_load_precedence_example =
    config_load_precedence whole decimal (some system_file) (some (some user_file)) (some none)
      x_mouse_scale

-- A value of the wrong type hides nothing.
system_scale :
    let st = config_load whole decimal (some system_file) (some (some user_file)) (some none) in
    setting x_mouse_scale st.config ≡ number (pos 12)
unfolding config_load merge_named merge_file merge_keys set_from_value key_bit set_key set_field
    number_value table_get_short
system_scale = refl
