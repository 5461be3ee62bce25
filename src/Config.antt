-- ===== src/Config.antt =====
-- The loading of the settings of tools/src/config.c. A file is the TOML tree that `toml_load_file`
-- makes of it, or `none` where it is missing or cannot be parsed. Allocation does not fail.
pub mod Precedence
mod Examples
use Prim.Native.String.{String}
use lg_magic.Prelude.{ℕ, Bool, true, false, ◌||◌, Option, none, some, List, [], ◌∷◌, if◌then◌else◌}
use lg_magic.Prelude.Float.{Floats}
use lg_magic.Prelude.Int.{pos}
use lg_magic.Prelude.Text.{str_eq}
use lg_magic.Toml.{Toml, str, int, float, bool, arr, table, table_get_short}

-- The bits of the keys.
pub data Key : Type 0 where
  x_imu_device x_hidraw_device x_default_calib : Key
  x_lpf_alpha x_mouse_scale x_madgwick_beta x_alpha x_mouse_k x_gyro_scale : Key

abbrev pub key_eq : Key → Key → Bool
key_eq x_imu_device x_imu_device = true
key_eq x_hidraw_device x_hidraw_device = true
key_eq x_default_calib x_default_calib = true
key_eq x_lpf_alpha x_lpf_alpha = true
key_eq x_mouse_scale x_mouse_scale = true
key_eq x_madgwick_beta x_madgwick_beta = true
key_eq x_alpha x_alpha = true
key_eq x_mouse_k x_mouse_k = true
key_eq x_gyro_scale x_gyro_scale = true
key_eq j k = false

-- `struct config`; NULL is `none`.
pub record Config (D : Type 0) : Type 0 where
  pub imu_device : Option String
  pub hidraw_device : Option String
  pub default_calib : Option String
  pub lpf_alpha : D
  pub mouse_scale : D
  pub madgwick_beta : D
  pub alpha : D
  pub mouse_k : D
  pub gyro_scale_default : D

-- The configuration and `explicit_mask`.
pub record Loaded (D : Type 0) : Type 0 where
  pub config : Config D
  pub explicit : Key → Bool

-- 0 is `none`.
unfoldable pub key_bit : String → Option Key
key_bit key =
    if str_eq key "imu_device"
    then some x_imu_device
    else if str_eq key "hidraw_device"
    then some x_hidraw_device
    else if str_eq key "default_calib"
    then some x_default_calib
    else if str_eq key "lpf_alpha"
    then some x_lpf_alpha
    else if str_eq key "mouse_scale"
    then some x_mouse_scale
    else if str_eq key "madgwick_beta"
    then some x_madgwick_beta
    else if str_eq key "alpha"
    then some x_alpha
    else if str_eq key "mouse_k"
    then some x_mouse_k
    else if str_eq key "gyro_scale_default"
    then some x_gyro_scale
    else none

-- `keys` of `merge_file`.
abbrev pub keys : List String
keys =
    "imu_device" ∷ "hidraw_device" ∷ "default_calib" ∷ "lpf_alpha" ∷ "mouse_scale" ∷ "madgwick_beta"
    ∷ "alpha" ∷ "mouse_k" ∷ "gyro_scale_default" ∷ []

-- The value for a key of text, where its type is right: "" is NULL.
unfoldable pub text_value : {D : Type 0} → Toml D → Option (Option String)
text_value (str s) = some (if str_eq s "" then none else some s)
text_value v = none

module _ (fp : Floats) where
  open fp use {Double, of_int}

  -- The value for a key of a number, where its type is right.
  unfoldable pub number_value : Toml Double → Option Double
  number_value (float d) = some d
  number_value (int n) = some (of_int n)
  number_value v = none

  -- The switch of `set_from_value`; `none` is its early return.
  unfoldable pub set_field : Config Double → Key → Toml Double → Option (Config Double)
  set_field cfg x_imu_device v = elim (text_value v) [
    | none ↦ none
    | some s ↦ some (record cfg { imu_device = s })
  ]
  set_field cfg x_hidraw_device v = elim (text_value v) [
    | none ↦ none
    | some s ↦ some (record cfg { hidraw_device = s })
  ]
  set_field cfg x_default_calib v = elim (text_value v) [
    | none ↦ none
    | some s ↦ some (record cfg { default_calib = s })
  ]
  set_field cfg x_lpf_alpha v = elim (number_value v) [
    | none ↦ none
    | some d ↦ some (record cfg { lpf_alpha = d })
  ]
  set_field cfg x_mouse_scale v = elim (number_value v) [
    | none ↦ none
    | some d ↦ some (record cfg { mouse_scale = d })
  ]
  set_field cfg x_madgwick_beta v = elim (number_value v) [
    | none ↦ none
    | some d ↦ some (record cfg { madgwick_beta = d })
  ]
  set_field cfg x_alpha v = elim (number_value v) [
    | none ↦ none
    | some d ↦ some (record cfg { alpha = d })
  ]
  set_field cfg x_mouse_k v = elim (number_value v) [
    | none ↦ none
    | some d ↦ some (record cfg { mouse_k = d })
  ]
  set_field cfg x_gyro_scale v = elim (number_value v) [
    | none ↦ none
    | some d ↦ some (record cfg { gyro_scale_default = d })
  ]

  -- `set_from_value` behind the test of its key.
  unfoldable pub set_key : Loaded Double → Key → Option (Toml Double) → Loaded Double
  set_key st k none = st
  set_key st k (some v) = elim (set_field st.config k v) [
    | none ↦ st
    | some cfg ↦ record { config = cfg; explicit = λ j. key_eq k j || st.explicit j }
  ]

  unfoldable pub set_from_value : Loaded Double → String → Option (Toml Double) → Loaded Double
  set_from_value st key v = elim (key_bit key) [ none ↦ st | some k ↦ set_key st k v ]

  -- The loop of `merge_file`.
  unfoldable pub merge_keys : Loaded Double → List String → Toml Double → Loaded Double
  merge_keys st [] root = st
  merge_keys st (key ∷ rest) root =
      merge_keys (set_from_value st key (table_get_short root key)) rest root

  unfoldable pub merge_file : Loaded Double → Option (Toml Double) → Loaded Double
  merge_file st none = st
  merge_file st (some root) = merge_keys st keys root

  -- A file that is merged if it is named.
  unfoldable pub merge_named : Loaded Double → Option (Option (Toml Double)) → Loaded Double
  merge_named st none = st
  merge_named st (some file) = merge_file st file

  -- `decimal n k` is the literal n * 10^-k.
  module _ (decimal : ℕ → ℕ → Double) where
    unfoldable pub set_defaults : Config Double
    set_defaults = record {
      imu_device = none;
      hidraw_device = none;
      default_calib = none;
      lpf_alpha = decimal 2 1;
      mouse_scale = of_int (pos 30);
      madgwick_beta = decimal 1 1;
      alpha = decimal 2 1;
      mouse_k = decimal 5 1;
      gyro_scale_default = decimal 7 2;
    }

    abbrev pub nothing_loaded : Loaded Double
    nothing_loaded = record { config = set_defaults; explicit = λ j. false }

    -- `config_load` with the system's file, the user's file if HOME is set, and the extra file if
    -- one is named.
    unfoldable pub config_load :
        Option (Toml Double)
        → Option (Option (Toml Double))
        → Option (Option (Toml Double))
        → Loaded Double
    config_load system user extra =
        merge_named (merge_named (merge_file nothing_loaded system) user) extra

    unfoldable pub config_load_daemon : Option (Toml Double) → Loaded Double
    config_load_daemon file = merge_file nothing_loaded file

unfoldable pub config_is_explicit : {D : Type 0} → Loaded D → String → Bool
config_is_explicit st key = elim (key_bit key) [ none ↦ false | some k ↦ st.explicit k ]
