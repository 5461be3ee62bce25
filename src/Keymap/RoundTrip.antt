-- ===== src/Keymap/RoundTrip.antt =====
-- Names and codes of tools/src/keymap.c translate back to one another.
use Prim.Native.String.{String}
use lg_magic.Keymap.{code_of, name_of, name_to_code, code_to_name, lg_code_to_name, lg_name_to_code}
use lg_magic.Keymap.Tables.{key_names, lg_button_codes}
use lg_magic.Prelude.{
  ℕ, ◌≡◌, refl, ◌↔◌, Bool, true, false, ◌&&◌, Option, none, some, List, [], ◌∷◌, arith, ◌==◌,
}
use lg_magic.Prelude.Text.{str_eq, str_eq_iff}

unfoldable pub is_code : Option ℕ → ℕ → Bool
is_code none c = false
is_code (some d) c = d == c

is_name : Option String → String → Bool
is_name none n = false
is_name (some m) n = str_eq m n

-- Every row is the first of its name and the first of its code.
is_one_to_one : List (ℕ × String) → List (ℕ × String) → Bool
is_one_to_one table [] = true
is_one_to_one table ((c, n) ∷ rows) =
    (is_code (code_of table n) c && is_name (name_of table c) n) && is_one_to_one table rows

pub is_code_sound : (o : Option ℕ) (c : ℕ) → is_code o c ≡ true → o ≡ some c
unfolding is_code
is_code_sound none c h = ground arith
is_code_sound (some d) c h = ground arith

is_name_sound : (o : Option String) (n : String) → is_name o n ≡ true → o ≡ some n
unfolding is_name
is_name_sound none n h = ground arith
is_name_sound (some m) n h = ground (arith, str_eq_iff m n)

module _ (table : List (ℕ × String)) where
  code_of-name_of :
      (rows : List (ℕ × String)) (c : ℕ) (n : String)
      → is_one_to_one table rows ≡ true
      → name_of rows c ≡ some n
      → code_of table n ≡ some c
  unfolding is_one_to_one name_of
  code_of-name_of [] c n ok h = ground arith
  code_of-name_of ((d, m) ∷ rows) c n ok h =
      ground (arith, is_code_sound (code_of table m) d, code_of-name_of rows c n)

  name_of-code_of :
      (rows : List (ℕ × String)) (c : ℕ) (n : String)
      → is_one_to_one table rows ≡ true
      → code_of rows n ≡ some c
      → name_of table c ≡ some n
  unfolding is_one_to_one code_of
  name_of-code_of [] c n ok h = ground arith
  name_of-code_of ((d, m) ∷ rows) c n ok h =
      ground (arith, str_eq_iff m n, is_name_sound (name_of table d) m, name_of-code_of rows c n)

key_names_one_to_one : is_one_to_one key_names key_names ≡ true
unfolding is_one_to_one code_of name_of is_code is_name
key_names_one_to_one = refl

lg_button_codes_one_to_one : is_one_to_one lg_button_codes lg_button_codes ≡ true
unfolding is_one_to_one code_of name_of is_code is_name
lg_button_codes_one_to_one = refl

-- A keycode has a name exactly when that name has the keycode: `keymap_name_to_code` and
-- `keymap_code_to_name` are inverse to one another on the codes and names of the table.
pub name_to_code-code_to_name_iff :
    (c : ℕ) (n : String) → (code_to_name c ≡ some n) ↔ (name_to_code (some n) ≡ some c)
unfolding name_to_code code_to_name
name_to_code-code_to_name_iff c n = (
  code_of-name_of key_names key_names c n key_names_one_to_one,
  name_of-code_of key_names key_names c n key_names_one_to_one,
)

-- The same for the codes that the remote sends and the names of its buttons:
-- `keymap_lg_name_to_code` and `keymap_lg_code_to_name` are inverse to one another.
pub lg_name_to_code-lg_code_to_name_iff :
    (c : ℕ) (n : String) → (lg_code_to_name c ≡ some n) ↔ (lg_name_to_code (some n) ≡ some c)
unfolding lg_name_to_code lg_code_to_name
lg_name_to_code-lg_code_to_name_iff c n = (
  code_of-name_of lg_button_codes lg_button_codes c n lg_button_codes_one_to_one,
  name_of-code_of lg_button_codes lg_button_codes c n lg_button_codes_one_to_one,
)
