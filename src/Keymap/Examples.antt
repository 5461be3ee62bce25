-- ===== src/Keymap/Examples.antt =====
-- Runs of the lookups of tools/src/keymap.c, and the theorems about them at concrete inputs.
use lg_magic.Keymap.{code_of, keycode_in, name_to_code, code_to_name, default_keycode}
use lg_magic.Keymap.RoundTrip.{name_to_code-code_to_name_iff}
use lg_magic.Prelude.{◌≡◌, refl, ◌↔◌, some, none}

wheel_press : (default_keycode 0x8044 ≡ some 28) × (default_keycode 0x8020 ≡ none)
unfolding default_keycode keycode_in
wheel_press = (refl, refl)

no_such_key : (name_to_code (some "KEY_F13") ≡ none) × (name_to_code none ≡ none)
unfolding name_to_code code_of
no_such_key = (refl, refl)

name_to_code-code_to_name_iff_example :
    (code_to_name 582 ≡ some "KEY_VOICECOMMAND")
    ↔ (name_to_code (some "KEY_VOICECOMMAND") ≡ some 582)
name_to_code-code_to_name_iff_example = name_to_code-code_to_name_iff 582 "KEY_VOICECOMMAND"
