-- ===== src/Keymap.antt =====
-- tools/src/keymap.c: the names of keycodes, the names of the remote's buttons, and the keycode that
-- the kernel module gives each button. -1 and NULL of the source are `none`; a NULL name is `none`.
pub mod Tables
pub mod RoundTrip
pub mod Defaults
mod Examples
use Prim.Native.String.{String}
use lg_magic.Keymap.Tables.{key_names, lg_button_codes, default_map}
use lg_magic.Prelude.{ℕ, Option, none, some, List, [], ◌∷◌, ◌==◌, if◌then◌else◌}
use lg_magic.Prelude.Text.{str_eq}

-- The loop of the two functions from a name to a code.
unfoldable pub code_of : List (ℕ × String) → String → Option ℕ
code_of [] name = none
code_of ((c, n) ∷ rows) name = if str_eq n name then some c else code_of rows name

-- The loop of the two functions from a code to a name.
unfoldable pub name_of : List (ℕ × String) → ℕ → Option String
name_of [] code = none
name_of ((c, n) ∷ rows) code = if c == code then some n else name_of rows code

unfoldable pub name_to_code : Option String → Option ℕ
name_to_code none = none
name_to_code (some name) = code_of key_names name

unfoldable pub code_to_name : ℕ → Option String
code_to_name code = name_of key_names code

unfoldable pub lg_code_to_name : ℕ → Option String
lg_code_to_name code = name_of lg_button_codes code

unfoldable pub lg_name_to_code : Option String → Option ℕ
lg_name_to_code none = none
lg_name_to_code (some name) = code_of lg_button_codes name

-- The loop of `keymap_default_keycode`.
unfoldable pub keycode_in : List (ℕ × ℕ) → ℕ → Option ℕ
keycode_in [] lg_code = none
keycode_in ((c, k) ∷ rows) lg_code = if c == lg_code then some k else keycode_in rows lg_code

unfoldable pub default_keycode : ℕ → Option ℕ
default_keycode lg_code = keycode_in default_map lg_code
