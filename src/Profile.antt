-- ===== src/Profile.antt =====
-- The profiles of tools/src/profiles.c: a profile, its button map, its check and its merge. Strings
-- are never NULL here, and allocation does not fail.
pub mod Buttons
pub mod Merge
mod Examples
use Prim.Native.String.{String}
use lg_magic.Keymap.{code_to_name}
use lg_magic.Prelude.{
  ℕ, Bool, true, false, ◌||◌, ◌&&◌, Option, none, some, List, [], ◌∷◌, ◌==◌, if◌then◌else◌,
}
use lg_magic.Prelude.Float.{Floats}
use lg_magic.Prelude.Int.{pos, negsuc}
use lg_magic.Prelude.Result.{Result, ok, err, ◌>>=◌, ◌>>◌, fail_if}
use lg_magic.Prelude.Text.{str_eq}

-- `struct button_map_entry`.
pub record ButtonMapEntry : Type 0 where
  pub from : ℕ
  pub to : ℕ

-- `struct profile`, over the type of doubles.
pub record Profile (D : Type 0) : Type 0 where
  pub name : String
  pub scroll_speed : D
  pub sensitivity : D
  pub lpf_alpha : D
  pub has_scroll : Bool
  pub has_sens : Bool
  pub has_lpf : Bool
  pub map : List ButtonMapEntry

-- The errors of profiles.c, each with what its text names.
pub data Error : Type 0 where
  name_empty : Error
  scroll_speed_range sensitivity_range lpf_alpha_range : String → Error
  unknown_keycode : String → ℕ → Error
  must_be_number must_be_string : String → Error
  button_map_not_table button_map_not_strings : Error
  unknown_key_name : String → Error
  root_not_table airmouse_not_boolean profiles_not_table : Error
  profile_not_table duplicate_profile : String → Error
  active_name_empty : Error
  active_not_defined : String → Error

-- The loop of `profile_set_button` over the map, and the entry that it appends.
unfoldable pub set_entry : List ButtonMapEntry → ℕ → ℕ → List ButtonMapEntry
set_entry [] from to = record { from = from; to = to } ∷ []
set_entry (e ∷ es) from to =
    if e.from == from then record e { to = to } ∷ es else e ∷ set_entry es from to

unfoldable pub profile_set_button : {D : Type 0} → Profile D → ℕ → ℕ → Profile D
profile_set_button p from to = record p { map = set_entry p.map from to }

unfoldable pub profile_clear_buttons : {D : Type 0} → Profile D → Profile D
profile_clear_buttons p = record p { map = [] }

-- The two tests of `profile_validate` on an entry of the map; `name` is for the error.
unfoldable pub known_keycode : String → ℕ → Result Error (Unit {0})
known_keycode name code = elim (code_to_name code) [
  | none ↦ err (unknown_keycode name code)
  | some _ ↦ ok tt
]

-- The loop of `profile_validate` over the button map.
unfoldable pub validate_map : String → List ButtonMapEntry → Result Error (Unit {0})
validate_map name [] = ok tt
validate_map name (e ∷ es) = do
  known_keycode name e.from
  known_keycode name e.to
  validate_map name es

-- The loop of `profile_merge`.
unfoldable pub merge_map : List ButtonMapEntry → List ButtonMapEntry → List ButtonMapEntry
merge_map dst [] = dst
merge_map dst (e ∷ src) = merge_map (set_entry dst e.from e.to) src

-- The loop that the pipeline and the device configuration share: the profile of a name.
unfoldable pub find_profile : {D : Type 0} → List (Profile D) → String → Option (Profile D)
find_profile [] name = none
find_profile (p ∷ ps) name = if str_eq p.name name then some p else find_profile ps name

module _ (fp : Floats) where
  open fp use {Double, of_int, dlt, dle}

  unfoldable pub profile_init : String → Profile Double
  profile_init name = record {
    name = name;
    scroll_speed = of_int (pos 1);
    sensitivity = of_int (pos 30);
    lpf_alpha = of_int (negsuc 0);
    has_scroll = false;
    has_sens = false;
    has_lpf = false;
    map = [];
  }

  unfoldable pub profile_validate : Profile Double → Result Error (Unit {0})
  profile_validate p = do
    fail_if (str_eq p.name "") name_empty
    fail_if (dle p.scroll_speed (of_int (pos 0)) || dlt (of_int (pos 100)) p.scroll_speed)
        (scroll_speed_range p.name)
    fail_if (dle p.sensitivity (of_int (pos 0)) || dlt (of_int (pos 10000)) p.sensitivity)
        (sensitivity_range p.name)
    fail_if (p.has_lpf && (dlt p.lpf_alpha (of_int (pos 0)) || dlt (of_int (pos 1)) p.lpf_alpha))
        (lpf_alpha_range p.name)
    validate_map p.name p.map

  -- The `has_` flags of the destination stay as they are.
  unfoldable pub profile_merge : Profile Double → Profile Double → Profile Double
  profile_merge dst src = record dst {
    scroll_speed = if src.has_scroll then src.scroll_speed else dst.scroll_speed;
    sensitivity = if src.has_sens then src.sensitivity else dst.sensitivity;
    lpf_alpha = if src.has_lpf then src.lpf_alpha else dst.lpf_alpha;
    map = merge_map dst.map src.map;
  }
