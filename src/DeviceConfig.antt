-- ===== src/DeviceConfig.antt =====
-- The device configuration of tools/src/profiles.c: reading it from a TOML tree, its check, its
-- change over the bus and its writing. An error of the source drops the half-read configuration
-- here; strings are never NULL but `calib`, and allocation does not fail.
pub mod Reading
pub mod Writing
pub mod MapRoundTrip
pub mod ProfileRoundTrip
pub mod ProfilesRoundTrip
pub mod RoundTrip
pub mod Examples
use Prim.Native.String.{String}
use mathlib.Core.Option
use lg_magic.Keymap.{name_to_code, code_to_name}
use lg_magic.Prelude.{
  ℕ, Bool, true, false, ◌||◌, ◌&&◌, not, Option, none, some, List, [], ◌∷◌, ◌++◌, ◌==◌,
  if◌then◌else◌,
}
use lg_magic.Prelude.Float.{Floats}
use lg_magic.Prelude.Result.{Result, ok, err, ◌>>=◌, ◌>>◌, fail_if}
use lg_magic.Prelude.Text.{str_eq}
use lg_magic.Profile.{
  Profile, ButtonMapEntry, Error, set_entry, find_profile, profile_init, profile_validate,
  must_be_number, must_be_string, button_map_not_table, button_map_not_strings, unknown_key_name,
  root_not_table, airmouse_not_boolean, profiles_not_table, profile_not_table, duplicate_profile,
  active_name_empty, active_not_defined,
}
use lg_magic.Toml.{
  Toml, Entries, str, int, float, bool, arr, table, nil, entry, table_get_short, add,
}

-- `struct device_config`; a NULL `calib` is `none`.
pub record DeviceConfig (D : Type 0) : Type 0 where
  pub profile : String
  pub calib : Option String
  pub airmouse : Bool
  pub has_airmouse : Bool
  pub profiles : List (Profile D)

unfoldable pub device_config_init : (D : Type 0) → DeviceConfig D
device_config_init D = record {
  profile = "default";
  calib = none;
  airmouse = true;
  has_airmouse = false;
  profiles = [];
}

-- `str_field` for a field whose old value is `old`.
unfoldable pub str_field : {D A : Type 0} → Toml D → String → A → (String → A) → Result Error A
str_field t key old new = elim (table_get_short t key) [
  | none ↦ ok old
  | some (str s) ↦ ok (new s)
  | _ ↦ err (must_be_string key)
]

-- `dc->calib` where "" stands for the default calibration.
unfoldable pub calib_of : Option String → Option String
calib_of none = none
calib_of (some path) = if str_eq path "" then none else some path

-- The `airmouse` key: its value, and whether the key was there.
unfoldable pub airmouse_field : {D : Type 0} → Toml D → Bool × Bool → Result Error (Bool × Bool)
airmouse_field t old = elim (table_get_short t "airmouse") [
  | none ↦ ok old
  | some (bool b) ↦ ok (b, true)
  | _ ↦ err airmouse_not_boolean
]

-- An entry of `button_map`: its two keycodes.
unfoldable pub parse_button : {D : Type 0} → String → Toml D → Result Error (ℕ × ℕ)
parse_button key (str s) = elim (name_to_code (some key)) [
  | none ↦ err (unknown_key_name key)
  | some from ↦ elim (name_to_code (some s)) [
    | none ↦ err (unknown_key_name s)
    | some to ↦ ok (from, to)
  ]
]
parse_button key (int n) = err button_map_not_strings
parse_button key (float d) = err button_map_not_strings
parse_button key (bool b) = err button_map_not_strings
parse_button key (arr xs) = err button_map_not_strings
parse_button key (table es) = err button_map_not_strings

-- The loop over `button_map`.
unfoldable pub parse_map :
    {D : Type 0} → Entries D → List ButtonMapEntry → Result Error (List ButtonMapEntry)
parse_map nil map = ok map
parse_map (entry key v rest) map = do
  (from, to) ← parse_button key v
  parse_map rest (set_entry map from to)

unfoldable pub map_field :
    {D : Type 0} → Toml D → List ButtonMapEntry → Result Error (List ButtonMapEntry)
map_field t map = elim (table_get_short t "button_map") [
  | none ↦ ok map
  | some (table es) ↦ parse_map es map
  | _ ↦ err button_map_not_table
]

-- The last two tests of `device_config_validate`.
unfoldable pub active_defined : {D : Type 0} → DeviceConfig D → Result Error (Unit {0})
active_defined dc = elim (find_profile dc.profiles dc.profile) [
  | none ↦ fail_if (not (str_eq dc.profile "default")) (active_not_defined dc.profile)
  | some _ ↦ ok tt
]

module _ (fp : Floats) where
  open fp use {Double, of_int}

  -- `num_field`: the value and whether it was set, from those before.
  unfoldable pub num_field : Toml Double → String → Double × Bool → Result Error (Double × Bool)
  num_field t key old = elim (table_get_short t key) [
    | none ↦ ok old
    | some (float d) ↦ ok (d, true)
    | some (int n) ↦ ok (of_int n, true)
    | _ ↦ err (must_be_number key)
  ]

  unfoldable pub profile_parse_fields : Profile Double → Toml Double → Result Error (Profile Double)
  profile_parse_fields p t = do
    (scroll_speed, has_scroll) ← num_field t "scroll_speed" (p.scroll_speed, p.has_scroll)
    (sensitivity, has_sens) ← num_field t "sensitivity" (p.sensitivity, p.has_sens)
    (lpf_alpha, has_lpf) ← num_field t "lpf_alpha" (p.lpf_alpha, p.has_lpf)
    map ← map_field t p.map
    ok (record p {
      scroll_speed = scroll_speed;
      has_scroll = has_scroll;
      sensitivity = sensitivity;
      has_sens = has_sens;
      lpf_alpha = lpf_alpha;
      has_lpf = has_lpf;
      map = map;
    })

  -- The body of the loop over `profiles` at a table with a new name.
  unfoldable pub read_profile :
      String → Toml Double → List (Profile Double) → Result Error (List (Profile Double))
  read_profile key t ps = do
    p ← profile_parse_fields (profile_init fp key) t
    profile_validate fp p
    ok (ps ++ p ∷ [])

  unfoldable pub parse_profile :
      String → Toml Double → List (Profile Double) → Result Error (List (Profile Double))
  parse_profile key t ps = elim (find_profile ps key) [
    | some _ ↦ err (duplicate_profile key)
    | none ↦ read_profile key t ps
  ]

  unfoldable pub parse_profiles :
      Entries Double → List (Profile Double) → Result Error (List (Profile Double))
  parse_profiles nil ps = ok ps
  parse_profiles (entry key v rest) ps = elim v [
    | table es ↦ parse_profile key (table es) ps >>= parse_profiles rest
    | _ ↦ err (profile_not_table key)
  ]

  unfoldable pub profiles_field : Toml Double → Result Error (List (Profile Double))
  profiles_field t = elim (table_get_short t "profiles") [
    | none ↦ ok []
    | some (table es) ↦ parse_profiles es []
    | _ ↦ err profiles_not_table
  ]

  unfoldable pub validate_profiles : List (Profile Double) → Result Error (Unit {0})
  validate_profiles [] = ok tt
  validate_profiles (p ∷ ps) = do profile_validate fp p; validate_profiles ps

  unfoldable pub device_config_validate : DeviceConfig Double → Result Error (Unit {0})
  device_config_validate dc = do
    fail_if (str_eq dc.profile "") active_name_empty
    validate_profiles dc.profiles
    active_defined dc

  -- The body of `device_config_from_toml` at a table.
  unfoldable pub from_table : Toml Double → DeviceConfig Double → Result Error (DeviceConfig Double)
  from_table root dc = do
    profile ← str_field root "profile" dc.profile (λ s. s)
    calib ← str_field root "calib" dc.calib some
    (airmouse, has_airmouse) ← airmouse_field root (dc.airmouse, dc.has_airmouse)
    profiles ← profiles_field root
    let read = record dc {
      profile = profile;
      calib = calib_of calib;
      airmouse = airmouse;
      has_airmouse = has_airmouse;
      profiles = profiles;
    }
    device_config_validate read
    ok read

  unfoldable pub device_config_from_toml :
      Option (Toml Double) → DeviceConfig Double → Result Error (DeviceConfig Double)
  device_config_from_toml none dc = err root_not_table
  device_config_from_toml (some t) dc = elim t [
    | table es ↦ from_table (table es) dc
    | _ ↦ err root_not_table
  ]

  -- `device_config_profile_ensure`: the configuration with the profile in it.
  unfoldable pub profile_ensure : DeviceConfig Double → String → DeviceConfig Double
  profile_ensure dc name = elim (find_profile dc.profiles name) [
    | some _ ↦ dc
    | none ↦ record dc { profiles = dc.profiles ++ profile_init fp name ∷ [] }
  ]
