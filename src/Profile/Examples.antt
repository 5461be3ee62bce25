-- ===== src/Profile/Examples.antt =====
-- The theorems about the profiles of tools/src/profiles.c at concrete inputs.
use lg_magic.Keymap.{code_to_name, name_of}
use lg_magic.Prelude.{ℕ, ◌≡◌, refl, true, false, [], ◌∷◌}
use lg_magic.Prelude.Float.{whole}
use lg_magic.Prelude.Int.{pos, negsuc}
use lg_magic.Prelude.Result.{ok, err}
use lg_magic.Profile.{
  Profile, scroll_speed_range, unknown_keycode, known_keycode, validate_map, profile_validate,
  profile_merge,
}
use lg_magic.Profile.Buttons.{mapped, or_else}
use lg_magic.Profile.Merge.{profile_merge_lem}

-- UP (103) and DOWN (108) trade places, and the wheel turns twice as fast.
abbrev swapped : Profile whole.Double
swapped = record {
  name = "swapped";
  scroll_speed = pos 2;
  sensitivity = pos 30;
  lpf_alpha = negsuc 0;
  has_scroll = true;
  has_sens = false;
  has_lpf = false;
  map = record { from = 103; to = 108 } ∷ record { from = 108; to = 103 } ∷ [];
}

-- UP is ENTER (28), in a profile whose wheel is too fast.
abbrev hasty : Profile whole.Double
hasty = record swapped {
  name = "hasty";
  scroll_speed = pos 101;
  map = record { from = 103; to = 28 } ∷ [];
}

abbrev plain : Profile whole.Double
plain = record hasty { name = "plain"; scroll_speed = pos 1 }

refused : profile_validate whole hasty ≡ err (scroll_speed_range "hasty")
unfolding profile_validate
refused = refl

unknown :
    profile_validate whole (record plain { map = record { from = 103; to = 5000 } ∷ [] })
    ≡ err (unknown_keycode "plain" 5000)
unfolding profile_validate validate_map known_keycode code_to_name name_of
unknown = refl

profile_merge_lem_example :
    (profile_validate whole (profile_merge whole plain swapped) ≡ ok tt)
    × ((code : ℕ)
        → mapped (profile_merge whole plain swapped).map code
          ≡ or_else (mapped swapped.map code) (mapped plain.map code))
unfolding profile_validate validate_map known_keycode code_to_name name_of mapped
profile_merge_lem_example = profile_merge_lem whole plain swapped refl refl (refl, (refl, tt))
